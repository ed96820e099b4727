-- ===== src/Prelude/Text/Order.antt =====
-- The order of strings is that of their characters, as it is that of their bytes in UTF-8.
use Prim.Native.Nat.{Ordering}
use Prim.Native.String.compare
use Prim.Native.String.{String, [], ◌∷◌, compare}
use mathlib.Core.Path.{◌≡◌}
use mathlib.Core.Bool.{Bool, true, false}
use native.Mathlib.Omega.{arith}
use text.Mathlib.TextEquality.{path_by_compare}

unfoldable pub str_before : String → String → Bool
str_before a b = elim (compare a b) [ Ordering.lt ↦ true | _ ↦ false ]

pub before_asym : (a b : String) → str_before a b ≡ true → str_before b a ≡ false
unfolding str_before
before_asym [] [] h = ground (arith, compare.nil-nil)
before_asym [] (d ∷ b) h = ground (arith, compare.cons-nil d b)
before_asym (c ∷ a) [] h = ground (arith, compare.cons-nil c a)
before_asym (c ∷ a) (d ∷ b) h =
    ground (arith, compare.cons-cons c d a b, compare.cons-cons d c b a, before_asym a b)

pub before_trans :
    (a b c : String) → str_before a b ≡ true → str_before b c ≡ true → str_before a c ≡ true
unfolding str_before
before_trans [] [] z h k = ground (arith, compare.nil-nil)
before_trans [] (d ∷ b) [] h k = ground (arith, compare.cons-nil d b)
before_trans [] (d ∷ b) (e ∷ c) h k = ground (arith, compare.nil-cons e c)
before_trans (x ∷ a) [] z h k = ground (arith, compare.cons-nil x a)
before_trans (x ∷ a) (d ∷ b) [] h k = ground (arith, compare.cons-nil d b)
before_trans (x ∷ a) (d ∷ b) (e ∷ c) h k = ground (
  arith,
  compare.cons-cons x d a b,
  compare.cons-cons d e b c,
  compare.cons-cons x e a c,
  before_trans a b c,
)

before_eq :
    (a b : String) → str_before a b ≡ false → str_before b a ≡ false → compare a b ≡ Ordering.eq
unfolding str_before
before_eq [] [] h k = ground (arith, compare.nil-nil)
before_eq [] (d ∷ b) h k = ground (arith, compare.nil-cons d b)
before_eq (x ∷ a) [] h k = ground (arith, compare.nil-cons x a)
before_eq (x ∷ a) (d ∷ b) h k =
    ground (arith, compare.cons-cons x d a b, compare.cons-cons d x b a, before_eq a b)

pub before_connex : (a b : String) → str_before a b ≡ false → str_before b a ≡ false → a ≡ b
before_connex a b h k = path_by_compare a b (before_eq a b h k)
