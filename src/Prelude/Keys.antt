-- ===== src/Prelude/Keys.antt =====
-- Maps whose keys stand once, as they do in the maps of the program.
use mathlib.Core.Path.{◌≡◌, refl, ◌∙◌}
use mathlib.Core.Logic.{inl, inr}
use mathlib.Core.Bool.{Bool, true, false, ◌&&◌}
use mathlib.Core.Option.{none, some}
use mathlib.Core.List.{List, [], ◌∷◌, map}
use native.Mathlib.Omega.{arith}
use sensez.Prelude.Tests.{if◌then◌else◌, Bool-cases}
use sensez.Prelude.Equality.{Eq, ==_self}
use sensez.Prelude.Lists.{All, find, retain}
use sensez.Prelude.Dict.{contains, is_some, lookup, insert, remove, lookup-insert, lookup-remove}

module _ {ℓ κ} {K : Type ℓ} ⦃e : Eq K⦄ {V : Type κ} where
  abbrev pub IsKeyed : List (K × V) → Type κ
  IsKeyed [] = Unit
  IsKeyed ((k, v) ∷ m) = (lookup k m ≡ none) × IsKeyed m

  pub insert-IsKeyed : (k : K) (v : V) (m : List (K × V)) → IsKeyed m → IsKeyed (insert k v m)
  unfolding insert lookup
  insert-IsKeyed k v [] h = (refl, tt)
  insert-IsKeyed k v ((j, w) ∷ m) h = elim (Bool-cases (e.test j k)) [
    | inl same ↦ rw same (rw ((e.decides j k).0 same) at h.0, h.1)
    | inr other ↦ rw other (
      lookup-insert j k v m ∙ ground (arith, e.decides j k, e.decides k j, h.0),
      insert-IsKeyed k v m h.1,
    )
  ]

  -- What a search of the map finds is the value of its key.
  pub lookup-find :
      (p : K × V → Bool) (m : List (K × V)) (k : K) (v : V)
      → IsKeyed m
      → find p m ≡ some (k, v)
      → lookup k m ≡ some v
  unfolding find lookup
  lookup-find p [] k v h q = ground arith
  lookup-find p ((j, w) ∷ m) k v h q =
      ground (arith, lookup-find p m k v h.1, e.decides j k, ==_self j)

  -- Where a search finds nothing, no value passes its test.
  pub find-none :
      (p : K × V → Bool) (m : List (K × V)) (k : K) (v : V)
      → find p m ≡ none
      → lookup k m ≡ some v
      → p (k, v) ≡ false
  unfolding find lookup
  find-none p [] k v h q = ground arith
  find-none p ((j, w) ∷ m) k v h q = ground (arith, find-none p m k v, e.decides j k)

module _ {ℓ} {K : Type ℓ} ⦃e : Eq K⦄ where
  pub contains-retain :
      (k : K) (p : K → Bool) (xs : List K) → contains k (retain p xs) ≡ (contains k xs && p k)
  unfolding contains retain
  contains-retain k p [] = refl
  contains-retain k p (x ∷ xs) = ground (arith, contains-retain k p xs, e.decides x k)

  pub contains-keys {κ} :
      {V : Type κ} (k : K) (m : List (K × V))
      → contains k (map (λ (j, _). j) m) ≡ is_some (lookup k m)
  unfolding contains lookup
  contains-keys k [] = refl
  contains-keys k ((j, v) ∷ m) = ground (arith, contains-keys k m)

module _ {ℓ κ} {K : Type ℓ} ⦃e : Eq K⦄ {V : Type κ} where
  pub remove-IsKeyed : (k : K) (m : List (K × V)) → IsKeyed m → IsKeyed (remove k m)
  unfolding remove
  remove-IsKeyed k [] h = tt
  remove-IsKeyed k ((j, w) ∷ m) h =
      ground (arith, lookup-remove j k m, h.0, h.1, remove-IsKeyed k m h.1)

  -- A key whose value fails the test is gone, since it stands once.
  pub lookup-retain :
      (p : K × V → Bool) (k : K) (m : List (K × V))
      → IsKeyed m
      → lookup k (retain p m)
        ≡ (elim (lookup k m) [ none ↦ none | some v ↦ if p (k, v) then some v else none ])
  unfolding lookup retain
  lookup-retain p k [] h = refl
  lookup-retain p k ((j, w) ∷ m) h = ground (arith, h.0, lookup-retain p k m h.1, e.decides j k)

  pub retain-IsKeyed : (p : K × V → Bool) (m : List (K × V)) → IsKeyed m → IsKeyed (retain p m)
  unfolding retain
  retain-IsKeyed p [] h = tt
  retain-IsKeyed p ((j, w) ∷ m) h =
      ground (arith, h.0, h.1, lookup-retain p j m h.1, retain-IsKeyed p m h.1)

-- Membership by test: what it means for sublists and images.
module _ {ℓ} {K : Type ℓ} ⦃e : Eq K⦄ where
  pub contains-All {κ} :
      (P : K → Type κ) (xs : List K) (k : K) → All P xs → contains k xs ≡ true → P k
  unfolding contains
  contains-All P [] k h c = cc
  contains-All P (x ∷ xs) k h c = elim (Bool-cases (e.test x k)) [
    | inl same ↦ rw (← (e.decides x k).0 same) h.0
    | inr other ↦ contains-All P xs k h.1 (ground arith)
  ]
