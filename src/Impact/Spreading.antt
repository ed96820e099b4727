-- ===== src/Impact/Spreading.antt =====
-- The inner loop of src/spine/impact/mod.rs: what visiting the neighbours of a module keeps.
use sensez.Prelude.{
  ℕ, suc, ◌+◌, ◌≤◌, ◌<◌, ◌≡◌, ◌⊎◌, refl, String, true, none, some, List, [], ◌∷◌, ◌++◌, arith,
  length, length-append, contains, contains-append, lookup, insert, lookup-insert, is_some, nat_eq,
  string_eq, nat_beq, nat_beq_iff, Bool-cases, Option-cases, inl, inr, ap, sym, ◌∙◌, eq_of_some,
}
use mathlib.Core.Path.{subst, subst⁻¹, subst₂}
use sensez.Graph.{CodebaseGraph}
use sensez.Impact.{DirectionOfImpact, ImpactOptions, neighbours, visit_all, internal_nodes_by_path}
use sensez.Impact.Distance.{
  unvisited, unvisited-insert, is_internal, Steps, import, Ordered, Ordered-insert, Ordered-append,
  kept,
}

module _ (g : CodebaseGraph) (direction : DirectionOfImpact) (options : ImpactOptions)
    (changed : List String)
    (below : (u v : ℕ) → contains v (neighbours g direction options u) ≡ true → v < g.size) where
  abbrev pub path_of : ℕ → String
  path_of v = let node = g.node v in node.file_path

  -- While `node` is in hand, `depth` imports from the change, and `todo` is left of its neighbours.
  pub record Inv (visited : List (ℕ × ℕ)) (queue : List ℕ) (files : List (String × ℕ))
      (node depth : ℕ) (todo : List ℕ) : Type 0 where
    pub ordered : Ordered visited depth (suc depth) queue
    pub near :
        (v n : ℕ)
        → lookup v visited ≡ some n
        → (n ≤ suc depth) × Steps g direction options changed n v × (is_internal g v ≡ true)
    pub waiting : (v : ℕ) → contains v queue ≡ true → is_some (lookup v visited) ≡ true
    pub expanded :
        (u n v : ℕ)
        → lookup u visited ≡ some n
        → contains v (neighbours g direction options u) ≡ true
        → is_internal g v ≡ true
        → (contains u queue ≡ true)
          ⊎ ((u ≡ node) × (contains v todo ≡ true))
          ⊎ ((m : ℕ) × (m ≤ suc n) × (lookup v visited ≡ some m))
    pub seeds :
        (path : String) (v : ℕ)
        → contains path changed ≡ true
        → lookup path (internal_nodes_by_path g) ≡ some v
        → lookup v visited ≡ some 0
    pub filed :
        (v n : ℕ)
        → is_internal g v ≡ true
        → lookup (path_of v) files ≡ some n
        → lookup v visited ≡ some n
    pub listed :
        (v n : ℕ)
        → lookup v visited ≡ some n
        → (contains v queue ≡ true) ⊎ (lookup (path_of v) files ≡ some n)

  module _ (visited : List (ℕ × ℕ)) (queue : List ℕ) (files : List (String × ℕ))
      (node depth next : ℕ) (todo : List ℕ) (i : Inv visited queue files node depth (next ∷ todo))
      (at : lookup node visited ≡ some depth) where
    depth_at : (u n : ℕ) → u ≡ node → lookup u visited ≡ some n → n ≡ depth
    depth_at u n here at_u = eq_of_some (sym at_u ∙ (ap (λ x. lookup x visited) here ∙ at))

    pub Inv-skip :
        (is_internal g next ≡ true → is_some (lookup next visited) ≡ true)
        → Inv visited queue files node depth todo
    unfolding contains
    Inv-skip old = record {
      ordered = i.ordered;
      near = i.near;
      waiting = i.waiting;
      expanded = λ u n v at_u follows internal. elim (i.expanded u n v at_u follows internal) [
        | inl queued ↦ inl queued
        | inr (inl (here, left)) ↦ elim (Bool-cases (nat_beq next v)) [
          | inl same ↦
              let p = (nat_beq_iff next v).0 same in
              let seen = old (subst⁻¹ (λ w. is_internal g w ≡ true) p internal) in
              elim (Option-cases (lookup v visited)) [
                | inl none_yet ↦
                    absurd (ground (arith, none_yet, seen, ap (λ w. lookup w visited) p))
                | inr (m, at_v) ↦
                    let (close, steps, int) = i.near v m at_v in
                    inr (inr (m, omega (arith, close, depth_at u n here at_u), at_v))
              ]
          | inr other ↦ inr (inl (here, ground arith))
        ]
        | inr (inr done) ↦ inr (inr done)
      ];
      seeds = i.seeds;
      filed = i.filed;
      listed = i.listed;
    }

    abbrev pub visited' : List (ℕ × ℕ)
    visited' = insert next (suc depth) visited

    pub Inv-push :
        contains next (neighbours g direction options node) ≡ true
        → is_internal g next ≡ true
        → lookup next visited ≡ none
        → Inv visited' (queue ++ next ∷ []) files node depth todo
    unfolding contains
    Inv-push follows internal new =
        let looked = λ (v : ℕ). lookup-insert v next (suc depth) visited in
        let queued = λ (v : ℕ). contains-append v queue (next ∷ []) in
        record {
          ordered =
              Ordered-append visited' depth (suc depth) next queue
                (ground (arith, looked next, nat_beq_iff next next))
                (Ordered-insert visited depth (suc depth) next (suc depth) queue new i.ordered);
          near = λ v n at_v. elim (Bool-cases (nat_beq next v)) [
            | inl same ↦
                let p = (nat_beq_iff next v).0 same in
                let exact : suc depth ≡ n = ground (arith, looked v, at_v) in
                let (close, steps, int) = i.near node depth at in
                (
                  omega arith,
                  subst₂ (λ k w. Steps g direction options changed k w) exact p
                      (import steps follows internal),
                  subst (λ w. is_internal g w ≡ true) p internal,
                )
            | inr other ↦ i.near v n (ground (arith, looked v))
          ];
          waiting = λ v c. ground (arith, looked v, queued v, i.waiting v);
          expanded = λ u n v at_u follows' internal'. elim (Bool-cases (nat_beq next u)) [
            | inl same ↦ inl (ground (arith, queued u))
            | inr other ↦ elim (i.expanded u n v (ground (arith, looked u)) follows' internal') [
              | inl waits ↦ inl (ground (arith, queued u))
              | inr (inl (here, left)) ↦ elim (Bool-cases (nat_beq next v)) [
                | inl same ↦ inr (
                    inr (
                      suc depth,
                      omega (arith, depth_at u n here (ground (arith, looked u, at_u))),
                      ground (arith, looked v),
                    ))
                | inr other' ↦ inr (inl (here, ground arith))
              ]
              | inr (inr (m, le, at_v)) ↦
                  inr (inr (m, le, kept visited next (suc depth) v m new at_v))
            ]
          ];
          seeds = λ path v c r. kept visited next (suc depth) v 0 new (i.seeds path v c r);
          filed = λ v n int r. kept visited next (suc depth) v n new (i.filed v n int r);
          listed = λ v n at_v. elim (Bool-cases (nat_beq next v)) [
            | inl same ↦ inl (ground (arith, queued v))
            | inr other ↦ elim (i.listed v n (ground (arith, looked v))) [
              | inl waits ↦ inl (ground (arith, queued v))
              | inr r ↦ inr r
            ]
          ];
        }

  pub record Visited (node depth owing : ℕ) (files : List (String × ℕ))
      (result : List (ℕ × ℕ) × List ℕ) : Type 0 where
    pub inv : Inv result.0 result.1 files node depth []
    pub owed : length result.1 + unvisited g.size result.0 ≡ owing

  visit_all-push :
      (depth next : ℕ) (nexts : List ℕ) (visited : List (ℕ × ℕ)) (queue : List ℕ)
      → is_internal g next ≡ true
      → lookup next visited ≡ none
      → visit_all g depth (next ∷ nexts) visited queue
        ≡ visit_all g depth nexts (insert next (suc depth) visited) (queue ++ next ∷ [])
  unfolding visit_all
  visit_all-push depth next nexts visited queue internal new = ground arith

  visit_all-skip :
      (depth next : ℕ) (nexts : List ℕ) (visited : List (ℕ × ℕ)) (queue : List ℕ)
      → (is_internal g next ≡ true → is_some (lookup next visited) ≡ true)
      → visit_all g depth (next ∷ nexts) visited queue ≡ visit_all g depth nexts visited queue
  unfolding visit_all
  visit_all-skip depth next nexts visited queue why = ground arith

  pub visit_all-Inv :
      (node depth : ℕ) (nexts : List ℕ) (visited : List (ℕ × ℕ)) (queue : List ℕ)
      (files : List (String × ℕ))
      → lookup node visited ≡ some depth
      → ((v : ℕ)
          → contains v nexts ≡ true
          → contains v (neighbours g direction options node) ≡ true)
      → Inv visited queue files node depth nexts
      → Visited node depth
          (length queue + unvisited g.size visited)
          files
          (visit_all g depth nexts visited queue)
  unfolding visit_all contains
  visit_all-Inv node depth [] visited queue files at sub i = record { inv = i; owed = refl }
  visit_all-Inv node depth (next ∷ nexts) visited queue files at sub i =
      let further = λ (v : ℕ) (c : contains v nexts ≡ true). sub v (ground arith) in
      let skipped = λ (why : is_internal g next ≡ true → is_some (lookup next visited) ≡ true).
        subst⁻¹ (Visited node depth (length queue + unvisited g.size visited) files)
          (visit_all-skip depth next nexts visited queue why)
          (visit_all-Inv node depth nexts visited queue files at further
            (Inv-skip visited queue files node depth next nexts i at why)) in
      elim (Bool-cases (is_internal g next)) [
        | inl internal ↦ elim (Option-cases (lookup next visited)) [
          | inl new ↦
              let follows = sub next (ground (arith, nat_beq_iff next next)) in
              let r =
                visit_all-Inv node depth nexts (insert next (suc depth) visited)
                  (queue ++ next ∷ []) files (kept visited next (suc depth) node depth new at)
                  further
                  (Inv-push visited queue files node depth next nexts i at follows internal new) in
              let owing : length (queue ++ next ∷ [])
                    + unvisited g.size (insert next (suc depth) visited)
                  ≡ length queue + unvisited g.size visited =
                omega (
                  arith,
                  length-append queue (next ∷ []),
                  unvisited-insert g.size next (suc depth) visited (below node next follows) new,
                ) in
              subst⁻¹ (Visited node depth (length queue + unvisited g.size visited) files)
                (visit_all-push depth next nexts visited queue internal new)
                (record { inv = r.inv; owed = r.owed ∙ owing })
          | inr (m, old) ↦ skipped (λ int. rw old refl)
        ]
        | inr external ↦ skipped (λ int. ground arith)
      ]
