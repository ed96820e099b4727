-- ===== src/Cycles/Shortest.antt =====
-- The loops of src/noze/cycles.rs: the search ends, and closes a loop exactly if there is one.
use mathlib.Core.List.{Memᴰ}
use mathlib.Core.Path.{subst⁻¹}
use sensez.Prelude.{
  ℕ, zero, suc, ◌+◌, ◌≤◌, ◌≡◌, ◌≢◌, ◌↔◌, refl, Option, some, List, [], ◌∷◌, arith, length, lookup,
  contains, nat_eq, nat_beq, nat_beq_iff, Bool-cases, inl, inr, ap, sym, List-cases, map,
}
use sensez.Graph.{CodebaseGraph, Edge, ImportPhase, IsGraph}
use sensez.Report.{CycleEdge}
use sensez.Cycles.{
  followed, closed, going, scan_edges, search, unwind, shortest_cycle, first_module, cycle_edge,
}
use sensez.Cycles.Walks.{Ordered-wider, Chain-unique, Walk, Chain, here, unwind_from-Walk}
use sensez.Cycles.Scan.{Closes, closes, goes, scan_edges-Outcome, followed-ends}
use sensez.Cycles.Closing.{shorter, IsStuck-end, no_loop}
use sensez.Cycles.Search.{Inv, unlinked, unlinked-nil}

module _ (g : CodebaseGraph) (wf : IsGraph g) (scc : List ℕ) (phases : List ImportPhase)
    (start : ℕ) where
  search-going :
      (fuel : ℕ) (node : ℕ) (queue queue' : List ℕ) (prev prev' : List (ℕ × Edge))
      → scan_edges start (followed g scc phases node) prev queue ≡ going prev' queue'
      → search g scc phases start (suc fuel) prev (node ∷ queue)
        ≡ search g scc phases start fuel prev' queue'
  unfolding search
  search-going fuel node queue queue' prev prev' ends = rw (search, ends) refl

  -- What the search returns.
  record Shortest (result : Option (List CycleEdge)) : Type 0 where
    path : List Edge
    found : result ≡ some (map (cycle_edge g) path)
    walk : Walk g scc phases start path start
    least :
        (c : List Edge)
        → c ≢ []
        → Walk g scc phases start c start
        → (path ≢ []) × (length path ≤ length c)

  search-closed :
      (fuel node depth : ℕ) (queue : List ℕ) (prev prev' : List (ℕ × Edge)) (e : Edge)
      → scan_edges start (followed g scc phases node) prev queue ≡ closed e prev'
      → Closes g wf scc phases start node depth e prev'
      → Shortest (search g scc phases start (suc fuel) prev (node ∷ queue))
  unfolding search unwind
  search-closed fuel node depth queue prev prev' e ends c =
      let (from, below) = followed-ends g wf scc phases start node e c.follows in
      let i = c.inv in
      let (n, few, close, chain) = i.chains node c.met in
      let exact = Chain-unique g scc phases start chain i.in_hand refl in
      let (p, unwound, walk, long) =
        unwind_from-Walk g scc phases start (length prev') (e ∷ []) i.unset chain few
          (from, c.follows, c.to_start) in
      record {
        path = p;
        found = ground (arith, ends, unwound, from);
        walk = walk;
        least = λ d some_edge w. (
          λ q. omega (arith, long, ap length q),
          omega (
            arith,
            long,
            exact,
            shorter g scc phases start prev' c.queue node depth c.todo i d some_edge w,
          ),
        );
      }

  Inv-pop :
      (prev : List (ℕ × Edge)) (queue : List ℕ) (n node depth : ℕ)
      → Inv g scc phases start prev (n ∷ queue) node depth []
      → (depth' : ℕ) × Inv g scc phases start prev queue n depth' (followed g scc phases n)
  unfolding contains
  Inv-pop prev queue n node depth i =
      let (depth', far, chain, ordered) = i.ordered in
      (
        depth',
        record {
          unset = i.unset;
          chains = λ v m. let (k, few, close, c) = i.chains v m in (k, few, omega arith, c);
          ordered =
              Ordered-wider g scc phases start prev depth' (suc depth) (suc depth') queue
                (omega arith) ordered;
          in_hand = chain;
          waiting = λ v c. i.waiting v (ground arith);
          expanded = λ v f m follows. elim (i.expanded v f m follows) [
            | inl queued ↦ elim (Bool-cases (nat_beq n v)) [
              | inl same ↦
                  let p = (nat_beq_iff n v).0 same in
                  inr (inl (sym p, subst⁻¹ (λ u. Memᴰ f (followed g scc phases u)) p follows))
              | inr other ↦ inl (ground arith)
            ]
            | inr (inl (here_now, nothing)) ↦ elim nothing [ ]
            | inr (inr linked) ↦ inr (inr linked)
          ];
        },
      )

  search-Shortest :
      (fuel node depth : ℕ) (prev : List (ℕ × Edge)) (queue : List ℕ)
      → Inv g scc phases start prev queue node depth []
      → length queue + unlinked g.size prev ≤ fuel
      → Shortest (search g scc phases start fuel prev queue)
  unfolding search contains
  search-Shortest fuel node depth prev [] i h = record {
    path = [];
    found = refl;
    walk = refl;
    least = λ c some_edge w. absurd (
        no_loop g scc phases start prev (IsStuck-end g scc phases start prev node depth i) c
          some_edge w);
  }
  search-Shortest zero node depth prev (n ∷ queue) i h = absurd (omega arith)
  search-Shortest (suc fuel) node depth prev (n ∷ queue) i h =
      let met = i.waiting n (ground (arith, nat_beq_iff n n)) in
      let (depth', popped) = Inv-pop prev queue n node depth i in
      elim (scan_edges-Outcome g wf scc phases start n depth' (followed g scc phases n) prev queue
        met (λ e m. m) popped) [
          | closes {e} {prev = prev'} ends c ↦ search-closed fuel n depth' queue prev prev' e ends c
          | goes {prev = prev'} {queue = queue'} ends after owed ↦
              subst⁻¹ Shortest (search-going fuel n queue queue' prev prev' ends)
                (search-Shortest fuel n depth' prev' queue' after (omega (arith, owed)))
        ]

  Inv-start : Inv g scc phases start [] (start ∷ []) start 0 []
  unfolding contains lookup
  Inv-start = record {
    unset = refl;
    chains = λ v m. (
      0,
      omega arith,
      omega arith,
      subst⁻¹ (λ u. Chain g scc phases start [] 0 u) ((nat_beq_iff v start).0 (ground arith)) here,
    );
    ordered = (0, omega arith, here, omega arith);
    in_hand = here;
    waiting = λ v c. ground (arith, nat_beq_iff v start, nat_beq_iff start v);
    expanded = λ v e m follows. inl (ground (arith, nat_beq_iff v start, nat_beq_iff start v));
  }

  search-start : Shortest (search g scc phases start (suc g.size) [] (start ∷ []))
  search-start =
      search-Shortest (suc g.size) start 0 [] (start ∷ []) Inv-start
        (omega (arith, unlinked-nil g.size))

-- On a graph the search of a component ends within its fuel and never misses a predecessor. It
-- returns the edges of a walk from the first module of the component, by name, back to it, each
-- an import of the phases in question between two modules of the component; and it returns no
-- edge exactly if there is no such walk with an edge.
pub shortest_cycle-Walk :
    (g : CodebaseGraph) (n : ℕ) (rest : List ℕ) (phases : List ImportPhase)
    → IsGraph g
    → let start = first_module g n rest in
      (p : List Edge) × (shortest_cycle g (n ∷ rest) phases ≡ some (map (cycle_edge g) p))
      × Walk g (n ∷ rest) phases start p start
      × ((p ≡ []) ↔ ¬ ((c : List Edge) × (c ≢ []) × Walk g (n ∷ rest) phases start c start))
unfolding shortest_cycle
shortest_cycle-Walk g n rest phases wf =
    let r = search-start g wf (n ∷ rest) phases (first_module g n rest) in
    (
      r.path,
      r.found,
      r.walk,
      (
        (λ q (c, some_edge, w). (r.least c some_edge w).0 q),
        λ no. elim (List-cases r.path) [
          | inl none_left ↦ none_left
          | inr (e, p, is) ↦ absurd (no (r.path, (λ q. cc (is, q)), r.walk))
        ],
      ),
    )

-- On a graph with a walk from the first module of a component back to it, along imports of the
-- phases in question inside the component, the search returns such a walk, and none is shorter.
pub shortest_cycle-least :
    (g : CodebaseGraph) (n : ℕ) (rest : List ℕ) (phases : List ImportPhase) (c : List Edge)
    → IsGraph g
    → c ≢ []
    → Walk g (n ∷ rest) phases (first_module g n rest) c (first_module g n rest)
    → (p : List Edge) × (shortest_cycle g (n ∷ rest) phases ≡ some (map (cycle_edge g) p))
      × (p ≢ [])
      × Walk g (n ∷ rest) phases (first_module g n rest) p (first_module g n rest)
      × (length p ≤ length c)
unfolding shortest_cycle
shortest_cycle-least g n rest phases c wf some_edge w =
    let r = search-start g wf (n ∷ rest) phases (first_module g n rest) in
    let (more, short) = r.least c some_edge w in (r.path, r.found, more, r.walk, short)
