-- ===== src/Prelude/Dict.antt =====
-- Dictionaries and sets as association lists: `HashMap`, `BTreeMap`, `HashSet`, `BTreeSet`.
use mathlib.Core.Path.{◌≡◌, refl, ap}
use mathlib.Core.Bool.{Bool, true, false, ◌||◌}
use mathlib.Core.Option.{Option, none, some}
use mathlib.Core.List.{List, [], ◌∷◌, ◌++◌}
use native.Mathlib.Omega.{arith}
use sensez.Prelude.Tests.{if◌then◌else◌}
use sensez.Prelude.Equality.{Eq, ◌==◌}

abbrev pub is_some {ℓ} : {A : Type ℓ} → Option A → Bool
is_some none = false
is_some (some _) = true

abbrev pub unwrap_or {ℓ} : {A : Type ℓ} → Option A → A → A
unwrap_or none d = d
unwrap_or (some a) d = a

module _ {ℓ} {K : Type ℓ} ⦃e : Eq K⦄ where
  -- `set.contains(x)`
  unfoldable pub contains : K → List K → Bool
  contains k [] = false
  contains k (x ∷ xs) = x == k || contains k xs

  -- `set.insert(x)`
  unfoldable pub add : K → List K → List K
  add k xs = if contains k xs then xs else xs ++ k ∷ []

  -- `set.extend(xs)`
  unfoldable pub extend_set : List K → List K → List K
  extend_set [] set = set
  extend_set (x ∷ xs) set = extend_set xs (add x set)

  module _ {κ} {V : Type κ} where
    -- `map.remove(k)`, less the value that it returns
    unfoldable pub remove : K → List (K × V) → List (K × V)
    remove k [] = []
    remove k ((j, w) ∷ m) = if j == k then remove k m else (j, w) ∷ remove k m

    -- `map.insert(k, v)`: replaces the value of a key that is there
    unfoldable pub insert : (k : K) (v : V) → List (K × V) → List (K × V)
    insert k v [] = (k, v) ∷ []
    insert k v (entry ∷ rest) = if entry.0 == k then (k, v) ∷ rest else entry ∷ insert k v rest

    -- `map.get(k)`
    unfoldable pub lookup : (k : K) → List (K × V) → Option V
    lookup k [] = none
    lookup k (entry ∷ rest) = if entry.0 == k then some entry.1 else lookup k rest

    -- `map.entry(k).or_insert(d)` with the entry passed to `f`
    unfoldable pub upsert : K → V → (V → V) → List (K × V) → List (K × V)
    upsert k d f m = insert k (f (unwrap_or (lookup k m) d)) m

-- Laws in the form of an `if` have no side condition.
module _ {ℓ κ} {K : Type ℓ} {V : Type κ} ⦃e : Eq K⦄ where
  pub lookup-insert :
      (j k : K) (v : V) (m : List (K × V))
      → lookup j (insert k v m) ≡ (if k == j then some v else lookup j m)
  unfolding lookup insert
  lookup-insert j k v [] = refl
  lookup-insert j k v ((i, w) ∷ m) =
      ground (arith, e.decides k j, e.decides i k, e.decides i j, lookup-insert j k v m)

  pub lookup-remove :
      (j k : K) (m : List (K × V)) → lookup j (remove k m) ≡ (if k == j then none else lookup j m)
  unfolding lookup remove
  lookup-remove j k [] = ground arith
  lookup-remove j k ((i, w) ∷ m) =
      ground (arith, e.decides k j, e.decides i k, e.decides i j, lookup-remove j k m)

  pub lookup-upsert :
      (j k : K) (d : V) (f : V → V) (m : List (K × V))
      → lookup j (upsert k d f m)
        ≡ (if k == j then some (f (unwrap_or (lookup k m) d)) else lookup j m)
  unfolding upsert
  lookup-upsert j k d f m = lookup-insert j k (f (unwrap_or (lookup k m) d)) m

module _ {ℓ} {K : Type ℓ} ⦃e : Eq K⦄ where
  pub contains-append :
      (k : K) (xs ys : List K) → contains k (xs ++ ys) ≡ (contains k xs || contains k ys)
  unfolding contains
  contains-append k [] ys = refl
  contains-append k (x ∷ xs) ys = ground (arith, contains-append k xs ys)

  pub contains-add : (j k : K) (xs : List K) → contains j (add k xs) ≡ (k == j || contains j xs)
  unfolding add contains
  contains-add j k xs =
      ground (arith, contains-append j xs (k ∷ []), e.decides k j, contains_congr xs)
    where
      contains_congr : (ys : List K) → k ≡ j → contains k ys ≡ contains j ys
      contains_congr ys p = ap (λ x. contains x ys) p
