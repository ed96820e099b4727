-- ===== src/Smells/UnionFind/Rooted.antt =====
-- The trees that a slice stands for, and what a write to it does to them.
use sensez.Prelude.{
  ℕ, zero, suc, ◌+◌, ◌<◌, ◌≡◌, ◌≢◌, refl, ap, sym, ◌∙◌, some, List, [], ◌∷◌, arith, get_elem?, set,
  length, nat_beq, if◌then◌else◌, eq_of_some,
}
use mathlib.Core.Path.{subst}

-- `x` has the root `r`, `d` steps up.
pub data Rooted (p : List ℕ) : ℕ → ℕ → ℕ → Type 0 where
  root : {x r d : ℕ} → x ≡ r → d ≡ 0 → get_elem? p x ≡ some x → Rooted p x r d
  up :
      {x y r d e : ℕ} → get_elem? p x ≡ some y → y ≢ x → e ≡ suc d → Rooted p y r d → Rooted p x r e

pub get_elem?-set :
    (p : List ℕ) (i j v : ℕ)
    → i < length p
    → get_elem? (set p i v) j ≡ (if nat_beq i j then some v else get_elem? p j)
get_elem?-set [] i j v h = absurd (omega arith)
get_elem?-set (x ∷ p) zero zero v h = refl
get_elem?-set (x ∷ p) zero (suc j) v h = ground arith
get_elem?-set (x ∷ p) (suc i) zero v h = ground arith
get_elem?-set (x ∷ p) (suc i) (suc j) v h = ground (arith, get_elem?-set p i j v)

pub lt-length : (p : List ℕ) (i v : ℕ) → get_elem? p i ≡ some v → i < length p
lt-length [] i v h = cc
lt-length (x ∷ p) zero v h = omega arith
lt-length (x ∷ p) (suc i) v h = omega (arith, lt-length p i v h)

-- Root and depth are determined.
pub Rooted-unique :
    {p : List ℕ} {x r s d e : ℕ} → Rooted p x r d → Rooted p x s e → (r ≡ s) × (d ≡ e)
Rooted-unique (root a b c) (root a' b' c') = (cc, cc)
Rooted-unique (root a b c) (up f n g t) = absurd (n (eq_of_some (sym f ∙ c)))
Rooted-unique (up f n g t) (root a b c) = absurd (n (eq_of_some (sym f ∙ c)))
Rooted-unique {p} {s = s} (up f n g t) (up {d = k} f' n' g' t') =
    let (a, b) = Rooted-unique t (subst (λ z. Rooted p z s k) (eq_of_some (sym f' ∙ f)) t') in
    (a, g ∙ ap suc b ∙ sym g')

pub length-set : (p : List ℕ) (i v : ℕ) → length (set p i v) ≡ length p
length-set [] i v = refl
length-set (x ∷ p) zero v = refl
length-set (x ∷ p) (suc i) v = ground (arith, length-set p i v)

-- How many trees there are: the positions that hold themselves, counted from `k`.
unfoldable pub is_root : ℕ → ℕ → ℕ
is_root i v = if nat_beq i v then 1 else 0

unfoldable pub roots : ℕ → List ℕ → ℕ
roots k [] = 0
roots k (x ∷ p) = is_root k x + roots (suc k) p

pub roots-set :
    (k : ℕ) (p : List ℕ) (i u v : ℕ)
    → get_elem? p i ≡ some u
    → roots k (set p i v) + is_root (k + i) u ≡ roots k p + is_root (k + i) v
unfolding roots
roots-set k [] i u v h = cc
roots-set k (x ∷ p) zero u v h = ground (arith, eq_of_some h)
roots-set k (x ∷ p) (suc i) u v h =
    let shift : k + suc i ≡ suc k + i = omega arith in grind (arith, roots-set (suc k) p i u v h)
