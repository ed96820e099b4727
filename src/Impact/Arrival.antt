-- ===== src/Impact/Arrival.antt =====
-- `reachable_files` of src/spine/impact/mod.rs as a whole.
use sensez.Prelude.{
  ℕ, ◌+◌, ◌<◌, ◌≡◌, ◌↔◌, refl, String, true, some, List, [], ◌∷◌, All, arith, length, contains,
  lookup, nat_eq, string_eq, nat_beq_iff, Bool-cases, inl, inr,
}
use mathlib.Core.Path.{subst, subst⁻¹}
use sensez.Graph.{CodebaseGraph, IsGraph, Edge, phase_eq}
use sensez.Impact.{
  DirectionOfImpact, ImpactOptions, Reachability, dependencies, dependents, neighbours, far_ends,
  internal_nodes_by_path, seed, spread, reachable_files,
}
use sensez.Impact.Distance.{unvisited_le, is_internal, Steps, IsNearest, changed_file, Ordered}
use sensez.Impact.Spreading.{Inv}
use sensez.Impact.Start.{Seeded, seed-Seeded, nothing-Seeded, nodes_below-internal}
use sensez.Impact.Nearest.{HasDistinctFiles, spread-Inv, filed-IsNearest}

far_ends-All :
    (P : ℕ → Type 0) (end : Edge → ℕ) (options : ImpactOptions) (edges : List Edge) (v : ℕ)
    → All (λ e. P (end e)) edges
    → contains v (far_ends end options edges) ≡ true
    → P v
unfolding far_ends contains
far_ends-All P end options [] v h c = absurd (ground arith)
far_ends-All P end options (edge ∷ edges) v h c =
    elim (Bool-cases (contains v (far_ends end options edges))) [
      | inl later ↦ far_ends-All P end options edges v h.1 later
      | inr first ↦ subst P ((nat_beq_iff (end edge) v).0 (ground (arith, c, first))) h.0
    ]

weaken : {A : Type 0} (P Q : A → Type 0) (xs : List A) → All (λ x. P x × Q x) xs → All Q xs
weaken P Q [] h = tt
weaken P Q (x ∷ xs) h = (h.0.1, weaken P Q xs h.1)

neighbours_below :
    (g : CodebaseGraph) (direction : DirectionOfImpact) (options : ImpactOptions)
    → IsGraph g
    → (u v : ℕ) → contains v (neighbours g direction options u) ≡ true
    → v < g.size
unfolding neighbours
neighbours_below g dependencies options h u v c =
    far_ends-All (λ w. w < g.size) (λ e. e.target) options (g.outgoing u) v
      (weaken (λ e. e.source ≡ u) (λ e. e.target < g.size) (g.outgoing u) (h.out_edges u)) c
neighbours_below g dependents options h u v c =
    far_ends-All (λ w. w < g.size) (λ e. e.source) options (g.incoming u) v
      (weaken (λ e. e.target ≡ u) (λ e. e.source < g.size) (g.incoming u) (h.in_edges u)) c

Ordered-zero :
    (visited : List (ℕ × ℕ)) (queue : List ℕ)
    → ((v : ℕ) → contains v queue ≡ true → lookup v visited ≡ some 0)
    → Ordered visited 0 1 queue
unfolding contains
Ordered-zero visited [] h = omega arith
Ordered-zero visited (v ∷ queue) h = (
  0,
  omega arith,
  h v (ground (arith, nat_beq_iff v v)),
  Ordered-zero visited queue (λ w c. h w (ground arith)),
)

module _ (g : CodebaseGraph) (direction : DirectionOfImpact) (options : ImpactOptions)
    (changed : List String)
    (below : (u v : ℕ) → contains v (neighbours g direction options u) ≡ true → v < g.size) where
  Seeded-Inv :
      (visited : List (ℕ × ℕ)) (queue : List ℕ)
      → Seeded g changed [] visited queue
      → Inv g direction options changed below visited queue [] 0 0 []
  unfolding contains lookup internal_nodes_by_path
  Seeded-Inv visited queue s = record {
    ordered = Ordered-zero visited queue s.waiting;
    near = λ v n at.
        let (here, queued, path, c, r) = s.sources v n at in
        (
          omega (arith, here),
          subst⁻¹ (λ k. Steps g direction options changed k v) here (changed_file path c r),
          nodes_below-internal g path v g.size r,
        );
    waiting = λ v c. rw (s.waiting v c) refl;
    expanded = λ u n v at follows internal.
        let (here, queued, path, c, r) = s.sources u n at in inl queued;
    seeds =
        λ path v c r. elim (s.seeds path v c r) [ inl left ↦ absurd (ground arith) | inr at ↦ at ];
    filed = λ v n internal at. absurd (ground arith);
    listed = λ v n at. let (here, queued, path, c, r) = s.sources v n at in inl queued;
  }

reachable_files-case :
    (g : CodebaseGraph) (changed : List String) (direction : DirectionOfImpact)
    (options : ImpactOptions) (files : List (String × ℕ))
    → (let (visited, queue, unmapped) = seed g (internal_nodes_by_path g) changed [] [] [] in
        spread g direction options (length queue + g.size) queue visited [] ≡ some files)
    → (unmapped : List String) × (reachable_files g changed direction options
        ≡ some (record { files = files; unmapped = unmapped }))
unfolding reachable_files
reachable_files-case g changed direction options files ends =
    let (visited, queue, unmapped) = seed g (internal_nodes_by_path g) changed [] [] [] in
    (unmapped, rw (reachable_files, ends) refl)

-- In a graph whose internal modules have different files, `reachable_files` returns, and it lists
-- the file of an internal module at a distance exactly if the distance is the least number of
-- imports, followed in the direction and under the options asked for and through internal modules
-- only, that lead from a changed module to it.
pub reachable_files-IsNearest :
    (g : CodebaseGraph) (changed : List String) (direction : DirectionOfImpact)
    (options : ImpactOptions)
    → IsGraph g
    → HasDistinctFiles g
    → (r : Reachability) × (reachable_files g changed direction options ≡ some r)
      × ((d v : ℕ)
          → is_internal g v ≡ true
          → (lookup (let node = g.node v in node.file_path) r.files ≡ some d)
            ↔ IsNearest g direction options changed d v)
reachable_files-IsNearest g changed direction options graph distinct =
    let below = neighbours_below g direction options graph in
    let s = seed-Seeded g changed changed [] [] [] (λ path c. c) (nothing-Seeded g changed) in
    let (visited, queue, unmapped) = seed g (internal_nodes_by_path g) changed [] [] [] in
    let (files, ends, end, node, depth, inv) =
      spread-Inv g direction options changed below distinct (length queue + g.size) 0 0 queue
        visited [] (Seeded-Inv g direction options changed below visited queue s)
        (omega (arith, unvisited_le g.size visited)) in
    let (unmapped', found) = reachable_files-case g changed direction options files ends in
    (
      record { files = files; unmapped = unmapped' },
      found,
      λ d v internal.
          filed-IsNearest g direction options changed below distinct end files node depth d v inv
            internal,
    )
