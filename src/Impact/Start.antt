-- ===== src/Impact/Start.antt =====
-- The first loop of `reachable_files` in src/spine/impact/mod.rs: where the walk starts.
use sensez.Prelude.{
  ℕ, zero, suc, ◌≡◌, ◌⊎◌, String, true, not, ◌&&◌, ◌||◌, none, some, List, [], ◌∷◌, ◌++◌, arith,
  contains, contains-append, add, lookup, insert, lookup-insert, is_some, nat_eq, string_eq,
  nat_beq, nat_beq_iff, if◌then◌else◌, Bool-cases, Option-cases, inl, inr, ap, sym, ◌∙◌, eq_of_some,
  ◌==◌,
}
use mathlib.Core.Path.{subst}
use sensez.Graph.{CodebaseGraph}
use sensez.Impact.{internal_nodes_by_path, nodes_below, seed}
use sensez.Impact.Distance.{is_internal}

pub nodes_below-internal :
    (g : CodebaseGraph) (path : String) (v n : ℕ)
    → lookup path (nodes_below g n) ≡ some v
    → is_internal g v ≡ true
unfolding nodes_below lookup
nodes_below-internal g path v zero at = ground arith
nodes_below-internal g path v (suc n) at = elim (Bool-cases (is_internal g n)) [
  | inl internal ↦
      let m = g.node n in
      let looked = lookup-insert path m.file_path n (nodes_below g n) in
      elim (Bool-cases (m.file_path == path)) [
        | inl same ↦
            let p : n ≡ v = ground (arith, looked, at, internal, same) in
            subst (λ w. is_internal g w ≡ true) p internal
        | inr other ↦ nodes_below-internal g path v n (ground (arith, looked, at, internal))
      ]
  | inr external ↦ nodes_below-internal g path v n (ground (arith, at))
]

module _ (g : CodebaseGraph) (changed : List String) where
  -- What holds while `pending` is left of the changed paths.
  pub record Seeded (pending : List String) (visited : List (ℕ × ℕ)) (queue : List ℕ) : Type 0 where
    pub sources :
        (v n : ℕ)
        → lookup v visited ≡ some n
        → (n ≡ 0)
          × (contains v queue ≡ true)
          × (path : String) × (contains path changed ≡ true)
          × (lookup path (internal_nodes_by_path g) ≡ some v)
    pub waiting : (v : ℕ) → contains v queue ≡ true → lookup v visited ≡ some 0
    pub seeds :
        (path : String) (v : ℕ)
        → contains path changed ≡ true
        → lookup path (internal_nodes_by_path g) ≡ some v
        → (contains path pending ≡ true) ⊎ (lookup v visited ≡ some 0)

  module _ (path : String) (pending : List String) (visited : List (ℕ × ℕ)) (queue : List ℕ)
      (s : Seeded (path ∷ pending) visited queue) where
    Seeded-unmapped : lookup path (internal_nodes_by_path g) ≡ none → Seeded pending visited queue
    unfolding contains
    Seeded-unmapped missing = record {
      sources = s.sources;
      waiting = s.waiting;
      seeds = λ path' v c at. elim (s.seeds path' v c at) [
        | inl left ↦ elim (Bool-cases (path == path')) [
          | inl same ↦ absurd (
              ground (
                arith,
                ap (λ p. lookup p (internal_nodes_by_path g))
                    ((string_eq.decides path path').0 same),
              ))
          | inr other ↦ inl (ground arith)
        ]
        | inr r ↦ inr r
      ];
    }

    abbrev pub queue' : ℕ → List ℕ
    queue' node = if is_some (lookup node visited) then queue else queue ++ node ∷ []

    contains-queue' :
        (v node : ℕ)
        → contains v (queue' node)
          ≡ (contains v queue || (nat_beq node v && not (is_some (lookup node visited))))
    unfolding contains
    contains-queue' v node = ground (arith, contains-append v queue (node ∷ []))

    Seeded-mapped :
        (node : ℕ)
        → contains path changed ≡ true
        → lookup path (internal_nodes_by_path g) ≡ some node
        → Seeded pending (insert node 0 visited) (queue' node)
    unfolding contains
    Seeded-mapped node c at =
        let looked = λ (v : ℕ). lookup-insert v node 0 visited in
        record {
          sources = λ v n at_v. elim (Bool-cases (nat_beq node v)) [
            | inl same ↦
                let p = (nat_beq_iff node v).0 same in
                (
                  ground (arith, looked v, at_v, same),
                  elim (Option-cases (lookup node visited)) [
                    | inl new ↦ ground (arith, contains-queue' v node, new, same)
                    | inr (m, old) ↦
                        let (zero_at, queued, from, c', at') = s.sources node m old in
                        ground (arith, contains-queue' v node, ap (λ w. contains w queue) p, queued)
                  ],
                  path,
                  c,
                  at ∙ ap some p,
                )
            | inr other ↦
                let (zero_at, queued, from, c', at') =
                  s.sources v n (ground (arith, looked v, at_v, other)) in
                (zero_at, ground (arith, contains-queue' v node, queued), from, c', at')
          ];
          waiting = λ v queued. elim (Bool-cases (nat_beq node v)) [
            | inl same ↦ ground (arith, looked v, same)
            | inr other ↦
                ground (arith, looked v, other, contains-queue' v node, queued, s.waiting v)
          ];
          seeds = λ path' v c' at'. elim (Bool-cases (nat_beq node v)) [
            | inl here ↦ inr (ground (arith, looked v, here))
            | inr elsewhere ↦ elim (s.seeds path' v c' at') [
              | inl left ↦ elim (Bool-cases (path == path')) [
                | inl same ↦
                    let p = (string_eq.decides path path').0 same in
                    let q : node ≡ v =
                      eq_of_some
                        (sym at ∙ (ap (λ p. lookup p (internal_nodes_by_path g)) p ∙ at')) in
                    absurd (ground (arith, (nat_beq_iff node v).1 q, elsewhere))
                | inr other ↦ inl (ground arith)
              ]
              | inr r ↦ inr (ground (arith, looked v, elsewhere, r))
            ]
          ];
        }

  -- The loop ends with the invariant, and nothing left.
  abbrev pub SeededBy : List (ℕ × ℕ) × List ℕ × List String → Type 0
  SeededBy (visited, queue, unmapped) = Seeded [] visited queue

  pub seed-Seeded :
      (pending : List String) (visited : List (ℕ × ℕ)) (queue : List ℕ) (unmapped : List String)
      → ((path : String) → contains path pending ≡ true → contains path changed ≡ true)
      → Seeded pending visited queue
      → SeededBy (seed g (internal_nodes_by_path g) pending visited queue unmapped)
  unfolding seed contains
  seed-Seeded [] visited queue unmapped sub s = s
  seed-Seeded (path ∷ pending) visited queue unmapped sub s =
      let further = λ (p : String) (c : contains p pending ≡ true). sub p (ground arith) in
      let c = sub path (ground (arith, string_eq.decides path path)) in
      elim (Option-cases (lookup path (internal_nodes_by_path g))) [
        | inl missing ↦
            rw (seed, missing)
              (seed-Seeded pending visited queue (add path unmapped) further
                (Seeded-unmapped path pending visited queue s missing))
        | inr (node, at) ↦
            rw (seed, at)
              (seed-Seeded pending (insert node 0 visited)
                (queue' path pending visited queue s node) unmapped further
                (Seeded-mapped path pending visited queue s node c at))
      ]

  pub nothing-Seeded : Seeded changed [] []
  unfolding lookup contains
  nothing-Seeded = record {
    sources = λ v n at. absurd (ground arith);
    waiting = λ v c. absurd (ground arith);
    seeds = λ path v c at. inl c;
  }
