-- ===== src/DeadCode/Reach/Closure.antt =====
-- src/noze/dead_code/reach.rs: the walk and the modules that the roots reach.
use sensez.Prelude.{
  ℕ, zero, suc, ◌+◌, ◌≤◌, ◌<◌, ◌≡◌, refl, true, not, ◌&&◌, ◌||◌, some, List, [], ◌∷◌, arith, length,
  contains, contains-retain, contains-All, nat_eq, nat_beq, nat_beq_iff, All, ◌↔◌, inl, inr,
  Bool-cases, ap, map,
}
use sensez.Graph.{CodebaseGraph, Edge, IsGraph, successors}
use sensez.DeadCode.Reach.{push_all, internal, unseen, walk_from, out_degrees, reach_from}
use sensez.DeadCode.Reach.Work.{
  contains-push_all, length-push_all, length-unseen-le, owed, owed-nil, owed-cons,
}

-- The modules that imports lead to from the roots, through modules of the code base only.
pub data Reached (g : CodebaseGraph) (roots : List ℕ) : ℕ → Type 0 where
  root : {v : ℕ} → contains v roots ≡ true → Reached g roots v
  step :
      {u v : ℕ}
      → Reached g roots u
      → contains v (internal g (successors g u)) ≡ true
      → Reached g roots v

module _ (g : CodebaseGraph) (wf : IsGraph g) (roots : List ℕ) where
  record Inv (seen stack : List ℕ) : Type 0 where
    rooted : (v : ℕ) → contains v roots ≡ true → (contains v seen || contains v stack) ≡ true
    visited : (v : ℕ) → contains v seen ≡ true → Reached g roots v
    waiting : (v : ℕ) → contains v stack ≡ true → Reached g roots v
    bounded : (v : ℕ) → contains v stack ≡ true → v < g.size
    closed :
        (u v : ℕ)
        → contains u seen ≡ true
        → contains v (internal g (successors g u)) ≡ true
        → (contains v seen || contains v stack) ≡ true

  targets_below :
      (es : List Edge) (n : ℕ)
      → All (λ e. (e.source ≡ n) × (e.target < g.size)) es
      → All (λ v. v < g.size) (map (λ e. e.target) es)
  targets_below [] n h = tt
  targets_below (e ∷ es) n h = (h.0.1, targets_below es n h.1)

  successor_below : (u v : ℕ) → contains v (successors g u) ≡ true → v < g.size
  successor_below u v c =
      contains-All (λ w. w < g.size) (successors g u) v
        (targets_below (g.outgoing u) u (wf.out_edges u)) c

  contains-unseen :
      (seen : List ℕ) (u v : ℕ)
      → contains v (unseen g seen u)
        ≡ (contains v (internal g (successors g u)) && not (contains v seen))
  unfolding unseen
  contains-unseen seen u v =
      contains-retain v (λ n. not (contains n seen)) (internal g (successors g u))

  internal_successor :
      (u v : ℕ)
      → contains v (internal g (successors g u)) ≡ true
      → contains v (successors g u) ≡ true
  unfolding internal
  internal_successor u v c =
      ground (
        arith,
        contains-retain v (λ n. let node = g.node n in not node.is_external) (successors g u),
      )

  seen_of : (seen : List ℕ) (a b : ℕ) → a ≡ b → contains a seen ≡ contains b seen
  seen_of seen a b e = ap (λ x. contains x seen) e

  Inv-skip :
      (seen stack : List ℕ) (idx : ℕ)
      → contains idx seen ≡ true
      → Inv seen (idx ∷ stack)
      → Inv seen stack
  unfolding contains
  Inv-skip seen stack idx old i = record {
    rooted = λ v r. ground (arith, i.rooted v, nat_beq_iff idx v, seen_of seen idx v);
    visited = i.visited;
    waiting = λ v c. i.waiting v (ground arith);
    bounded = λ v c. i.bounded v (ground arith);
    closed = λ u v c d. ground (arith, i.closed u v, nat_beq_iff idx v, seen_of seen idx v);
  }

  Inv-visit :
      (seen stack : List ℕ) (idx : ℕ)
      → Inv seen (idx ∷ stack)
      → Inv (idx ∷ seen) (push_all (unseen g (idx ∷ seen) idx) stack)
  unfolding contains
  Inv-visit seen stack idx i =
      let new = unseen g (idx ∷ seen) idx in
      let here = i.waiting idx (ground (arith, nat_beq_iff idx idx)) in
      let pushed = λ (v : ℕ). contains-push_all v new stack in
      let fresh = contains-unseen (idx ∷ seen) idx in
      record {
        rooted = λ v r. ground (arith, i.rooted v, pushed v);
        visited = λ v c. elim (Bool-cases (nat_beq idx v)) [
          | inl same ↦ rw (← (nat_beq_iff idx v).0 same) here
          | inr other ↦ i.visited v (ground arith)
        ];
        waiting = λ v c. elim (Bool-cases (contains v stack)) [
          | inl old ↦ i.waiting v (ground arith)
          | inr no_old ↦ step here (ground (arith, pushed v, fresh v))
        ];
        bounded = λ v c. elim (Bool-cases (contains v stack)) [
          | inl old ↦ i.bounded v (ground arith)
          | inr no_old ↦
              successor_below idx v (internal_successor idx v (ground (arith, pushed v, fresh v)))
        ];
        closed = λ u v c d. elim (Bool-cases (nat_beq idx u)) [
          | inl same ↦
              let d' = rw (← (nat_beq_iff idx u).0 same) at d in ground (arith, pushed v, fresh v)
          | inr other ↦ ground (arith, i.closed u v, pushed v)
        ];
      }

  walk_from-Inv :
      (fuel : ℕ) (seen stack : List ℕ)
      → Inv seen stack
      → length stack + owed g g.size seen ≤ fuel
      → (t : List ℕ) × (walk_from g fuel seen stack ≡ some t) × Inv t []
  unfolding walk_from contains
  walk_from-Inv fuel seen [] i h = (seen, refl, i)
  walk_from-Inv zero seen (idx ∷ stack) i h = absurd (omega arith)
  walk_from-Inv (suc fuel) seen (idx ∷ stack) i h = elim (Bool-cases (contains idx seen)) [
    | inl old ↦
        let (t, ends, inv) =
          walk_from-Inv fuel seen stack (Inv-skip seen stack idx old i) (omega arith) in
        (t, rw old ends, inv)
    | inr new ↦
        let stack' = push_all (unseen g (idx ∷ seen) idx) stack in
        let below = i.bounded idx (ground (arith, nat_beq_iff idx idx)) in
        let (t, ends, inv) = walk_from-Inv fuel (idx ∷ seen) stack' (Inv-visit seen stack idx i) (
          omega (
            arith,
            length-push_all (unseen g (idx ∷ seen) idx) stack,
            length-unseen-le g (idx ∷ seen) idx,
            owed-cons g g.size idx seen below new,
          )) in
        (t, rw new ends, inv)
  ]

  Inv-start : ((v : ℕ) → contains v roots ≡ true → v < g.size) → Inv [] (push_all roots [])
  unfolding contains
  Inv-start below =
      let pushed = λ (v : ℕ). contains-push_all v roots [] in
      record {
        rooted = λ v r. ground (arith, pushed v);
        visited = λ v c. cc;
        waiting = λ v c. root (ground (arith, pushed v));
        bounded = λ v c. below v (ground (arith, pushed v));
        closed = λ u v c d. cc;
      }

  complete : (t : List ℕ) → Inv t [] → {v : ℕ} → Reached g roots v → contains v t ≡ true
  unfolding contains
  complete t i (root {v} r) = ground (arith, i.rooted v r)
  complete t i (step {u} {v} p c) = ground (arith, i.closed u v (complete t i p) c)

-- From roots of the graph the walk ends within its fuel, and what it returns contains a module
-- exactly if imports lead to it from a root without passing through an external module.
pub reach_from_decides :
    (g : CodebaseGraph) (roots : List ℕ)
    → IsGraph g
    → ((v : ℕ) → contains v roots ≡ true → v < g.size)
    → (t : List ℕ) × (reach_from g roots ≡ some t)
      × ((v : ℕ) → (contains v t ≡ true) ↔ Reached g roots v)
unfolding reach_from
reach_from_decides g roots wf below =
    let (t, ends, inv) =
      walk_from-Inv g wf roots (length roots + out_degrees g g.size) [] (push_all roots [])
        (Inv-start g wf roots below) (omega (arith, length-push_all roots [], owed-nil g g.size)) in
    (t, ends, λ v. (inv.visited v, complete g wf roots t inv))
