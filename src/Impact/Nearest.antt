-- ===== src/Impact/Nearest.antt =====
-- The loop of src/spine/impact/mod.rs ends with the distances of the nearest changes.
use sensez.Prelude.{
  ℕ, zero, suc, ◌+◌, ◌≤◌, ◌<◌, ◌≡◌, ◌⊎◌, ◌↔◌, refl, String, true, some, List, [], ◌∷◌, arith,
  length, contains, lookup, insert, lookup-insert, nat_eq, string_eq, nat_beq, nat_beq_iff,
  Bool-cases, inl, inr, ap, sym, ◌∙◌, eq_of_some, ◌==◌,
}
use mathlib.Core.Path.{subst⁻¹}
use sensez.Graph.{CodebaseGraph}
use sensez.Impact.{DirectionOfImpact, ImpactOptions, neighbours, visit_all, spread}
use sensez.Impact.Distance.{
  unvisited, is_internal, Steps, IsNearest, changed_file, import, Ordered, Ordered-wider,
}
use sensez.Impact.Spreading.{Inv, path_of, visit_all-Inv}

-- Two internal modules of the graph have different files.
abbrev pub HasDistinctFiles : CodebaseGraph → Type 0
HasDistinctFiles g =
    (u v : ℕ)
    → is_internal g u ≡ true
    → is_internal g v ≡ true
    → (let node = g.node u in node.file_path) ≡ (let node = g.node v in node.file_path)
    → u ≡ v

module _ (g : CodebaseGraph) (direction : DirectionOfImpact) (options : ImpactOptions)
    (changed : List String)
    (below : (u v : ℕ) → contains v (neighbours g direction options u) ≡ true → v < g.size)
    (distinct : HasDistinctFiles g) where
  abbrev path : ℕ → String
  path v = path_of g direction options changed below v

  abbrev pub Walked :
      (visited : List (ℕ × ℕ)) (queue : List ℕ) (files : List (String × ℕ)) (node depth : ℕ)
      (todo : List ℕ)
      → Type 0
  Walked = Inv g direction options changed below

  module _ (visited : List (ℕ × ℕ)) (queue : List ℕ) (files : List (String × ℕ))
      (n node depth distance : ℕ) (i : Walked visited (n ∷ queue) files node depth [])
      (at : lookup n visited ≡ some distance) where
    abbrev files' : List (String × ℕ)
    files' = insert (path n) distance files

    same_path : (v m : ℕ) → lookup v visited ≡ some m → (path n == path v) ≡ true → m ≡ distance
    same_path v m at_v same =
        let (close, steps, internal) = i.near n distance at in
        let (close', steps', internal') = i.near v m at_v in
        let p = distinct n v internal internal' ((string_eq.decides (path n) (path v)).0 same) in
        eq_of_some (sym at_v ∙ (ap (λ x. lookup x visited) (sym p) ∙ at))

    pop_listed :
        (v m : ℕ)
        → lookup v visited ≡ some m
        → (contains v queue ≡ true) ⊎ (lookup (path v) files' ≡ some m)
    unfolding contains
    pop_listed v m at_v =
        let looked = lookup-insert (path v) (path n) distance files in
        elim (Bool-cases (path n == path v)) [
          | inl same ↦ inr (ground (arith, looked, same_path v m at_v same))
          | inr other ↦ elim (i.listed v m at_v) [
            | inl queued ↦ elim (Bool-cases (nat_beq n v)) [
              | inl here ↦ absurd (
                  ground (
                    arith,
                    string_eq.decides (path n) (path v),
                    ap path ((nat_beq_iff n v).0 here),
                  ))
              | inr elsewhere ↦ inl (ground arith)
            ]
            | inr r ↦ inr (ground (arith, looked))
          ]
        ]

    pop_filed :
        (v m : ℕ)
        → is_internal g v ≡ true
        → lookup (path v) files' ≡ some m
        → lookup v visited ≡ some m
    pop_filed v m internal r =
        let looked = lookup-insert (path v) (path n) distance files in
        elim (Bool-cases (path n == path v)) [
          | inl same ↦
              let (close, steps, internal') = i.near n distance at in
              let p =
                distinct n v internal' internal ((string_eq.decides (path n) (path v)).0 same) in
              ground (arith, looked, ap (λ x. lookup x visited) p)
          | inr other ↦ i.filed v m internal (ground (arith, looked))
        ]

    Inv-pop :
        depth ≤ distance
        → Ordered visited distance (suc depth) queue
        → Walked visited queue files' n distance (neighbours g direction options n)
    unfolding contains
    Inv-pop far ordered = record {
      ordered =
          Ordered-wider visited distance (suc depth) (suc distance) queue (omega arith) ordered;
      near = λ v m at_v.
          let (close, steps, internal) = i.near v m at_v in (omega arith, steps, internal);
      waiting = λ v c. i.waiting v (ground arith);
      expanded = λ u m v at_u follows internal. elim (i.expanded u m v at_u follows internal) [
        | inl queued ↦ elim (Bool-cases (nat_beq n u)) [
          | inl here ↦
              let p = (nat_beq_iff n u).0 here in
              inr (
                inl (
                  sym p,
                  subst⁻¹ (λ w. contains v (neighbours g direction options w) ≡ true) p follows,
                ))
          | inr elsewhere ↦ inl (ground arith)
        ]
        | inr (inl (here, left)) ↦ cc
        | inr (inr done) ↦ inr (inr done)
      ];
      seeds = i.seeds;
      filed = pop_filed;
      listed = pop_listed;
    }

  pub spread-Inv :
      (fuel node depth : ℕ) (queue : List ℕ) (visited : List (ℕ × ℕ)) (files : List (String × ℕ))
      → Walked visited queue files node depth []
      → length queue + unvisited g.size visited ≤ fuel
      → (fs : List (String × ℕ)) × (spread g direction options fuel queue visited files ≡ some fs)
        × (end : List (ℕ × ℕ)) × (node' : ℕ) × (depth' : ℕ) × Walked end [] fs node' depth' []
  unfolding spread
  spread-Inv fuel node depth [] visited files i h = (files, refl, visited, node, depth, i)
  spread-Inv zero node depth (n ∷ queue) visited files i h = absurd (omega arith)
  spread-Inv (suc fuel) node depth (n ∷ queue) visited files i h =
      let (distance, far, at, ordered) = i.ordered in
      let popped = Inv-pop visited queue files n node depth distance i at far ordered in
      let nexts = neighbours g direction options n in
      let r =
        visit_all-Inv g direction options changed below n distance nexts visited queue
          (insert (path n) distance files) at (λ v c. c) popped in
      let (visited', queue') = visit_all g distance nexts visited queue in
      let (fs, ends, end, node', depth', inv) =
        spread-Inv fuel n distance queue' visited' (insert (path n) distance files) r.inv
          (omega (arith, r.owed)) in
      (fs, rw (spread, at) ends, end, node', depth', inv)

  complete :
      (end : List (ℕ × ℕ)) (fs : List (String × ℕ)) (node depth n v : ℕ)
      → Walked end [] fs node depth []
      → Steps g direction options changed n v
      → (m : ℕ) × (m ≤ n) × (lookup v end ≡ some m)
  unfolding contains
  complete end fs node depth n v i (changed_file p c r) = (0, omega arith, i.seeds p v c r)
  complete end fs node depth n v i (import {n = k} {u} steps follows internal) =
      let (m, le, at) = complete end fs node depth k u i steps in
      elim (i.expanded u m v at follows internal) [
        | inl queued ↦ cc
        | inr (inl (here, left)) ↦ cc
        | inr (inr (j, close, at_v)) ↦ (j, omega arith, at_v)
      ]

  pub filed-IsNearest :
      (end : List (ℕ × ℕ)) (fs : List (String × ℕ)) (node depth d v : ℕ)
      → Walked end [] fs node depth []
      → is_internal g v ≡ true
      → (lookup (path v) fs ≡ some d) ↔ IsNearest g direction options changed d v
  unfolding contains
  filed-IsNearest end fs node depth d v i internal = (
    λ r.
        let at = i.filed v d internal r in
        let (close, steps, int) = i.near v d at in
        record {
          steps = steps;
          least = λ n s.
              let (m, le, at_v) = complete end fs node depth n v i s in
              omega (arith, eq_of_some (sym at_v ∙ at));
        },
    λ near.
        let (m, le, at) = complete end fs node depth d v i near.steps in
        let (close, steps, int) = i.near v m at in
        let less = near.least m steps in
        elim (i.listed v m at) [ inl queued ↦ cc | inr r ↦ r ∙ ap some (omega arith) ],
  )
