-- ===== src/DeadCode/Reach/Work.antt =====
-- Why the fuel is enough: a visit pays for what it pushes with the out-degree of its node.
use mathlib.Core.List.{Memᴰ}
use sensez.Prelude.{
  ◌⊎◌, inl, inr, ℕ, zero, suc, ◌+◌, ◌≤◌, ◌<◌, ◌≡◌, refl, Bool, false, not, ◌||◌, List, [], ◌∷◌,
  arith, length, retain, contains, nat_eq, nat_beq_iff, if◌then◌else◌,
}
use sensez.Graph.{CodebaseGraph, successors}
use sensez.DeadCode.Reach.{push_all, internal, unseen, out_degrees}

pub contains-push_all :
    (v : ℕ) (xs stack : List ℕ)
    → contains v (push_all xs stack) ≡ (contains v xs || contains v stack)
unfolding push_all contains
contains-push_all v [] stack = refl
contains-push_all v (x ∷ xs) stack = ground (arith, contains-push_all v xs (x ∷ stack))

pub length-push_all {ℓ} :
    {A : Type ℓ} (xs stack : List A) → length (push_all xs stack) ≡ length xs + length stack
unfolding push_all
length-push_all [] stack = omega arith
length-push_all (x ∷ xs) stack = omega (arith, length-push_all xs (x ∷ stack))

pub push_all-Mem {ℓ} :
    {A : Type ℓ} (xs stack : List A) (x : A) → Memᴰ x xs ⊎ Memᴰ x stack → Memᴰ x (push_all xs stack)
unfolding push_all
push_all-Mem [] stack x (inl m) = elim m [ ]
push_all-Mem [] stack x (inr m) = m
push_all-Mem (y ∷ xs) stack x (inl (Memᴰ.head same)) =
    push_all-Mem xs (y ∷ stack) x (inr (Memᴰ.head same))
push_all-Mem (y ∷ xs) stack x (inl (Memᴰ.tail m)) = push_all-Mem xs (y ∷ stack) x (inl m)
push_all-Mem (y ∷ xs) stack x (inr m) = push_all-Mem xs (y ∷ stack) x (inr (Memᴰ.tail m))

pub Mem-push_all {ℓ} :
    {A : Type ℓ} (xs stack : List A) (x : A) → Memᴰ x (push_all xs stack) → Memᴰ x xs ⊎ Memᴰ x stack
unfolding push_all
Mem-push_all [] stack x m = inr m
Mem-push_all (y ∷ xs) stack x m = elim (Mem-push_all xs (y ∷ stack) x m) [
  | inl listed ↦ inl (Memᴰ.tail listed)
  | inr (Memᴰ.head same) ↦ inl (Memᴰ.head same)
  | inr (Memᴰ.tail old) ↦ inr old
]

pub length-retain-le {ℓ} :
    {A : Type ℓ} (p : A → Bool) (xs : List A) → length (retain p xs) ≤ length xs
unfolding retain
length-retain-le p [] = omega arith
length-retain-le p (x ∷ xs) = ground (arith, length-retain-le p xs)

module _ (g : CodebaseGraph) where
  pub length-unseen-le :
      (seen : List ℕ) (idx : ℕ) → length (unseen g seen idx) ≤ length (successors g idx)
  unfolding unseen
  length-unseen-le seen idx = omega (
    arith,
    length-retain-le {0} (λ n. not (contains n seen)) (internal g (successors g idx)),
    length-retain-le {0} (λ n. let node = g.node n in not node.is_external) (successors g idx),
  )

  -- The out-degrees of the nodes below `n` that were not visited.
  pub owed : ℕ → List ℕ → ℕ
  owed zero seen = 0
  owed (suc n) seen = (if contains n seen then 0 else length (successors g n)) + owed n seen

  pub owed-nil : (n : ℕ) → owed n [] ≡ out_degrees g n
  unfolding owed out_degrees contains
  owed-nil zero = refl
  owed-nil (suc n) = omega (arith, owed-nil n)

  owed-cons_ge : (n idx : ℕ) (seen : List ℕ) → n ≤ idx → owed n (idx ∷ seen) ≡ owed n seen
  unfolding owed contains
  owed-cons_ge zero idx seen h = refl
  owed-cons_ge (suc n) idx seen h = ground (arith, owed-cons_ge n idx seen, nat_beq_iff idx n)

  pub owed-cons :
      (n idx : ℕ) (seen : List ℕ)
      → idx < n
      → contains idx seen ≡ false
      → owed n (idx ∷ seen) + length (successors g idx) ≡ owed n seen
  unfolding owed contains
  owed-cons zero idx seen h new = absurd (omega arith)
  owed-cons (suc n) idx seen h new =
      ground (arith, owed-cons n idx seen, owed-cons_ge n idx seen, nat_beq_iff idx n)
