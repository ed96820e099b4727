-- ===== src/Prelude/Text.antt =====
-- Text the way `sort_unstable`, `dedup`, `join` and `to_string` treat it.
mod Order
unfoldable pub use Order.{str_before}
use Prim.Native.Nat.{ℕ, zero, suc, ◌+◌, ◌/◌, ◌%◌, Ordering}
use Prim.Native.String.{String, compare, ◌++◌}
use mathlib.Core.Path.{◌≡◌, refl, ap, ◌∙◌, sym}
use mathlib.Core.Logic.{inl, inr, ◌⊎◌}
use mathlib.Core.Bool.{Bool, true, false}
use mathlib.Core.Option.{Option, none, some}
use mathlib.Core.List.{List, [], ◌∷◌, Permᴰ}
use mathlib.Core.List.Permᴰ
use native.Mathlib.Omega.{arith}
use sensez.Prelude.Tests.{if◌then◌else◌, ltb}
use sensez.Prelude.Lists.{get_elem?}
use sensez.Prelude.Equality.{◌==◌, string_eq}
use sensez.Prelude.Dict.{unwrap_or}
use sensez.Prelude.Sort.{place, sort}
use sensez.Prelude.Text.Order.{str_before, before_asym, before_trans, before_connex}

-- `sort_unstable` on strings, where equal items cannot be told apart.
abbrev pub sort_text : List String → List String
sort_text = sort str_before

-- `join(separator)`
unfoldable pub join : String → List String → String
join separator [] = ""
join separator (x ∷ []) = x
join separator (x ∷ y ∷ xs) = x ++ (separator ++ join separator (y ∷ xs))

-- `dedup`: of equal neighbours one stays.
unfoldable pub dedup : List String → List String
dedup [] = []
dedup (x ∷ []) = x ∷ []
dedup (x ∷ y ∷ xs) = let rest = dedup (y ∷ xs) in if x == y then rest else x ∷ rest

-- `to_string` of a 64-bit number, which has at most 20 digits.
abbrev pub digits : List String
digits = "0" ∷ "1" ∷ "2" ∷ "3" ∷ "4" ∷ "5" ∷ "6" ∷ "7" ∷ "8" ∷ "9" ∷ []

unfoldable pub decimal_fuel : ℕ → ℕ → String
decimal_fuel zero n = ""
decimal_fuel (suc fuel) n =
    let more = decimal_fuel fuel (n / 10) ++ unwrap_or (get_elem? digits (n % 10)) "" in
    if ltb n 10 then unwrap_or (get_elem? digits n) "" else more

unfoldable pub decimal : ℕ → String
unfolding decimal_fuel
decimal = decimal_fuel 20

decimal-test : decimal 4096 ≡ "4096"
unfolding decimal
decimal-test = refl

-- The sorted list does not depend on the order of what is sorted.
place_comm :
    (x y : String) (l : List String)
    → place str_before x (place str_before y l) ≡ place str_before y (place str_before x l)
unfolding place
place_comm x y [] = ground (arith, before_asym x y, before_connex x y)
place_comm x y (z ∷ l) = ground (
  arith,
  before_asym x y,
  before_connex x y,
  before_connex y z,
  before_connex x z,
  before_trans z x y,
  before_trans y z x,
  before_trans x z y,
  before_trans z y x,
  place_comm x y l,
)

pub sort_text-Perm : {xs ys : List String} → Permᴰ xs ys → sort_text xs ≡ sort_text ys
unfolding sort
sort_text-Perm Permᴰ.nil = refl
sort_text-Perm (Permᴰ.cons {a} {b} {l₁} {l₂} e p) =
    ap (λ z. place str_before z (sort_text l₁)) e ∙ ap (place str_before b) (sort_text-Perm p)
sort_text-Perm (Permᴰ.swap {a} {b} {a'} {b'} {l} e f) =
    place_comm a b (sort_text l)
    ∙ (ap (λ z. place str_before z (place str_before a (sort_text l))) f
        ∙ ap (λ z. place str_before a' (place str_before z (sort_text l))) e)
sort_text-Perm (Permᴰ.trans p q) = sort_text-Perm p ∙ sort_text-Perm q
