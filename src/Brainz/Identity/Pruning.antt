-- ===== src/Brainz/Identity/Pruning.antt =====
-- src/brainz/fingerprint.rs: lockstep pruning, where the prints are those of the list itself.
use sensez.Prelude.{
  ◌≡◌, refl, ap, ◌∙◌, Bool, not, some, List, [], ◌∷◌, ◌++◌, map, retain, map-retain, arith,
}
use sensez.Brainz.Fingerprint.{Print}
use sensez.Brainz.Identity.{
  retain_lockstep, retain_by_fingerprint, partition_lockstep, partition_by_fingerprint,
}

module _ {T : Type 0} (predicate : Print → Bool) (f : T → Print) where
  pub retain_lockstep-map :
      (xs : List T) → retain_lockstep predicate xs (map f xs) ≡ retain (λ x. predicate (f x)) xs
  unfolding retain_lockstep retain
  retain_lockstep-map [] = refl
  retain_lockstep-map (x ∷ xs) = ground (arith, retain_lockstep-map xs)

  partition_lockstep-map :
      (xs : List T)
      → partition_lockstep predicate xs (map f xs)
        ≡ (retain (λ x. not (predicate (f x))) xs, retain (λ x. predicate (f x)) xs)
  unfolding partition_lockstep retain
  partition_lockstep-map [] = refl
  partition_lockstep-map (x ∷ xs) = ground (arith, partition_lockstep-map xs)

  -- Partitioning a list by the prints of its own items moves those that satisfy the predicate
  -- behind the others, each group in its order; the prints of what a pruning by them keeps are the
  -- prints that satisfy the predicate.
  pub by_fingerprint-splits :
      (xs : List T)
      → (partition_by_fingerprint predicate xs (some (map f xs))
          ≡ retain (λ x. not (predicate (f x))) xs ++ retain (λ x. predicate (f x)) xs)
        × (map f (retain_by_fingerprint predicate xs (some (map f xs)))
            ≡ retain predicate (map f xs))
  unfolding partition_by_fingerprint retain_by_fingerprint
  by_fingerprint-splits xs = (
    ap (λ (trusted, sink). trusted ++ sink) (partition_lockstep-map xs),
    ap (map f) (retain_lockstep-map xs) ∙ map-retain f predicate xs,
  )
