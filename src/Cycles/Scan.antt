-- ===== src/Cycles/Scan.antt =====
-- The scan of a module's edges in the search of src/noze/cycles.rs.
use mathlib.Core.List.{Memᴰ}
use mathlib.Core.Path.{subst}
use sensez.Prelude.{
  Mem-retain, All-at, ℕ, ◌+◌, ◌<◌, ◌≡◌, refl, true, ◌&&◌, List, [], ◌∷◌, ◌++◌, arith, length,
  length-append, lookup, insert, lookup-insert, contains, nat_eq, nat_beq, nat_beq_iff,
  Option-cases, Bool-cases, inl, inr,
}
use sensez.Graph.{CodebaseGraph, Edge, ImportPhase, IsGraph}
use sensez.Cycles.{followed, is_cycle_edge, Scanned, closed, going, scan_edges}
use sensez.Cycles.Search.{Inv, Inv-skip, Inv-push, is_met, unlinked, unlinked-insert}

module _ (g : CodebaseGraph) (wf : IsGraph g) (scc : List ℕ) (phases : List ImportPhase)
    (start : ℕ) where
  pub followed-ends :
      (u : ℕ) (e : Edge) → Memᴰ e (followed g scc phases u) → (e.source ≡ u) × (e.target < g.size)
  unfolding followed
  followed-ends u e m =
      All-at (λ f. (f.source ≡ u) × (f.target < g.size)) (g.outgoing u) e (wf.out_edges u)
        (Mem-retain (λ f. contains f.target scc && is_cycle_edge f phases) (g.outgoing u) e m)

  pub record Closes (node depth : ℕ) (e : Edge) (prev : List (ℕ × Edge)) : Type 0 where
    pub to_start : e.target ≡ start
    pub follows : Memᴰ e (followed g scc phases node)
    pub met : is_met g scc phases start node prev ≡ true
    pub queue : List ℕ
    pub todo : List Edge
    pub inv : Inv g scc phases start prev queue node depth todo

  -- How the scan of a module ends; going on, it pays for what it queues with modules that had no
  -- predecessor.
  pub data Outcome (node depth owing : ℕ) (result : Scanned) : Type 0 where
    closes :
        {e : Edge} {prev : List (ℕ × Edge)}
        → result ≡ closed e prev
        → Closes node depth e prev
        → Outcome node depth owing result
    goes :
        {prev : List (ℕ × Edge)} {queue : List ℕ}
        → result ≡ going prev queue
        → Inv g scc phases start prev queue node depth []
        → length queue + unlinked g.size prev ≡ owing
        → Outcome node depth owing result

  pub scan_edges-Outcome :
      (node depth : ℕ) (es : List Edge) (prev : List (ℕ × Edge)) (queue : List ℕ)
      → is_met g scc phases start node prev ≡ true
      → ((e : Edge) → Memᴰ e es → Memᴰ e (followed g scc phases node))
      → Inv g scc phases start prev queue node depth es
      → Outcome node depth (length queue + unlinked g.size prev) (scan_edges start es prev queue)
  unfolding scan_edges
  scan_edges-Outcome node depth [] prev queue met sub i = goes refl i refl
  scan_edges-Outcome node depth (e ∷ es) prev queue met sub i =
      let follows = sub e (Memᴰ.head refl) in
      elim (Bool-cases (nat_beq e.target start)) [
        | inl last ↦ rw last (
            closes refl (record {
              to_start = (nat_beq_iff e.target start).0 last;
              follows = follows;
              met = met;
              queue = queue;
              todo = e ∷ es;
              inv = i;
            }))
        | inr apart ↦ elim (Option-cases (lookup e.target prev)) [
          | inl new ↦
              let (from, below) = followed-ends node e follows in
              let pushed =
                Inv-push g scc phases start prev queue node depth e es new
                  (λ p. ground (arith, nat_beq_iff e.target start)) met from follows i in
              let owing : length (queue ++ e.target ∷ []) + unlinked g.size (insert e.target e prev)
                  ≡ length queue + unlinked g.size prev =
                omega (
                  arith,
                  unlinked-insert g.size e.target e prev below new,
                  length-append queue (e.target ∷ []),
                ) in
              rw (apart, new)
                (subst
                  (λ n.
                    Outcome node depth n
                      (scan_edges start es (insert e.target e prev) (queue ++ e.target ∷ [])))
                  owing
                  (scan_edges-Outcome node depth es (insert e.target e prev)
                    (queue ++ e.target ∷ []) (ground (arith, lookup-insert node e.target e prev))
                    (λ f m. sub f (Memᴰ.tail m)) pushed))
          | inr (f, old) ↦
              rw (apart, old)
                (scan_edges-Outcome node depth es prev queue met (λ f m. sub f (Memᴰ.tail m))
                  (Inv-skip g scc phases start prev queue node depth e es (rw old refl) i))
        ]
      ]
