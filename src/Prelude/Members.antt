-- ===== src/Prelude/Members.antt =====
-- The items of a list, for types without an equality test.
use mathlib.Core.Path.{◌≡◌, refl, ap, sym, ◌∙◌}
use mathlib.Core.Logic.{inl, inr}
use mathlib.Core.Bool.{Bool, true}
use mathlib.Core.List.{List, [], ◌∷◌, Memᴰ}
use native.Mathlib.Omega.{arith}
use sensez.Prelude.Tests.{Bool-cases}
use sensez.Prelude.Lists.{All, any, retain}

module _ {ℓ} {A : Type ℓ} where
  pub All-at {κ} : (P : A → Type κ) (xs : List A) (x : A) → All P xs → Memᴰ x xs → P x
  All-at P [] x h m = elim m [ ]
  All-at P (y ∷ ys) x h (Memᴰ.head same) = rw same h.0
  All-at P (y ∷ ys) x h (Memᴰ.tail later) = All-at P ys x h.1 later

  pub Mem-retain : (p : A → Bool) (xs : List A) (x : A) → Memᴰ x (retain p xs) → Memᴰ x xs
  unfolding retain
  Mem-retain p [] x m = m
  Mem-retain p (y ∷ ys) x m = elim (Bool-cases (p y)) [
    | inl e ↦ elim (rw e at m) [
      | Memᴰ.head same ↦ Memᴰ.head same
      | Memᴰ.tail later ↦ Memᴰ.tail (Mem-retain p ys x later)
    ]
    | inr e ↦ Memᴰ.tail (Mem-retain p ys x (rw e at m))
  ]

  pub retain-Mem :
      (p : A → Bool) (xs : List A) (x : A) → p x ≡ true → Memᴰ x xs → Memᴰ x (retain p xs)
  unfolding retain
  retain-Mem p [] x h m = m
  retain-Mem p (y ∷ ys) x h (Memᴰ.head same) = rw (ap p (sym same) ∙ h) (Memᴰ.head same)
  retain-Mem p (y ∷ ys) x h (Memᴰ.tail later) = elim (Bool-cases (p y)) [
    | inl e ↦ rw e (Memᴰ.tail (retain-Mem p ys x h later))
    | inr e ↦ rw e (retain-Mem p ys x h later)
  ]

  pub All-Mem {κ} : (P : A → Type κ) (xs : List A) → ((x : A) → Memᴰ x xs → P x) → All P xs
  All-Mem P [] h = tt
  All-Mem P (x ∷ xs) h = (h x (Memᴰ.head refl), All-Mem P xs (λ y m. h y (Memᴰ.tail m)))

  pub retain-passes : (p : A → Bool) (xs : List A) (x : A) → Memᴰ x (retain p xs) → p x ≡ true
  unfolding retain
  retain-passes p [] x m = elim m [ ]
  retain-passes p (y ∷ ys) x m = elim (Bool-cases (p y)) [
    | inl e ↦ elim (rw e at m) [
      | Memᴰ.head same ↦ ap p same ∙ e
      | Memᴰ.tail later ↦ retain-passes p ys x later
    ]
    | inr e ↦ retain-passes p ys x (rw e at m)
  ]

  pub any-Mem : (p : A → Bool) (xs : List A) → any p xs ≡ true → (x : A) × Memᴰ x xs × (p x ≡ true)
  unfolding any
  any-Mem p [] h = ground arith
  any-Mem p (x ∷ xs) h = elim (Bool-cases (p x)) [
    | inl hit ↦ (x, Memᴰ.head refl, hit)
    | inr miss ↦ let (y, m, hit) = any-Mem p xs (ground arith) in (y, Memᴰ.tail m, hit)
  ]

  pub Mem-any : (p : A → Bool) (xs : List A) (x : A) → Memᴰ x xs → p x ≡ true → any p xs ≡ true
  unfolding any
  Mem-any p (y ∷ xs) x (Memᴰ.head same) h = ground (arith, ap p same)
  Mem-any p (y ∷ xs) x (Memᴰ.tail m) h = ground (arith, Mem-any p xs x m h)
  Mem-any p [] x m h = elim m [ ]
