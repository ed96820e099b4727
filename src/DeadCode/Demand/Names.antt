-- ===== src/DeadCode/Demand/Names.antt =====
-- The names in the demand of src/noze/dead_code/demand.rs are names that some import mentions.
use sensez.Prelude.{
  ℕ, ◌≡◌, String, Bool, true, false, ◌||◌, List, [], ◌∷◌, ◌++◌, arith, contains, contains-append,
  lookup, insert, upsert, lookup-insert, unwrap_or, add, extend_set, string_eq, nat_eq, nat_beq,
  if◌then◌else◌, All, Bool-cases, inl, inr, ◌==◌, ==_self, ap,
}
use mathlib.Core.List.{Memᴰ}
use mathlib.Core.Path.{subst⁻¹}
use sensez.Graph.{CodebaseGraph, Edge, ImportContext, ImportPhase, type_only, phase_eq}
use sensez.DeadCode.Demand.{
  Demand, Inbound, Importers, absorb_demand, absorb_inbound, merged, forward_symbols, forward_side,
  forwarded, forwarded_by, ask_symbols, add_direct, is_test, direct, demand_of, symbols_of, star,
  asks, no_inbound, no_demand, forwards_everything, is_reexport,
}
use sensez.DeadCode.Demand.Growth.{Within}
use sensez.DeadCode.Demand.Room.{WithinInbound}

pub demand_of-insert :
    (v t : ℕ) (i : Inbound) (demand : List (ℕ × Inbound))
    → unwrap_or (lookup v (insert t i demand)) no_inbound
      ≡ (if nat_beq t v then i else unwrap_or (lookup v demand) no_inbound)
demand_of-insert v t i demand = ground (arith, lookup-insert v t i demand)

module _ (all : List String) where
  abbrev AreKnown : List String → Type 0
  AreKnown = All (λ n. contains n all ≡ true)

  snoc-AreKnown :
      (xs : List String) (x : String)
      → AreKnown xs
      → contains x all ≡ true
      → AreKnown (xs ++ x ∷ [])
  snoc-AreKnown [] x h known = (known, tt)
  snoc-AreKnown (y ∷ xs) x h known = (h.0, snoc-AreKnown xs x h.1 known)

  if-Within :
      (b : Bool) (d other : Demand)
      → Within all d
      → Within all other
      → Within all (if b then d else other)
  if-Within true d other h k = h
  if-Within false d other h k = k

  add-Within :
      (x : String) (xs : List String) → contains x all ≡ true → AreKnown xs → AreKnown (add x xs)
  unfolding add
  add-Within x xs known h = elim (Bool-cases (contains x xs)) [
    | inl old ↦ rw old h
    | inr new ↦ rw new (snoc-AreKnown xs x h known)
  ]

  extend_set-Within :
      (xs set : List String) → AreKnown xs → AreKnown set → AreKnown (extend_set xs set)
  unfolding extend_set
  extend_set-Within [] set h k = k
  extend_set-Within (x ∷ xs) set h k = extend_set-Within xs (add x set) h.1 (add-Within x set h.0 k)

  pub absorb_demand-Within :
      (d other : Demand) → Within all d → Within all other → Within all (absorb_demand d other).0
  unfolding absorb_demand merged
  absorb_demand-Within d other h k = extend_set-Within other.names d.names k h

  pub absorb_inbound-Within :
      (i other : Inbound)
      → WithinInbound all i
      → WithinInbound all other
      → WithinInbound all (absorb_inbound i other).0
  unfolding absorb_inbound
  absorb_inbound-Within i other h k = (
    absorb_demand-Within i.prod other.prod h.0 k.0,
    absorb_demand-Within i.test other.test h.1 k.1,
  )

  forward_symbols-Within :
      (barrel : Demand) (symbols bindings : List String) (asked : Demand)
      → Within all barrel
      → AreKnown symbols
      → Within all asked
      → Within all (forward_symbols barrel symbols bindings asked)
  unfolding forward_symbols
  forward_symbols-Within barrel [] bindings asked b h k = k
  forward_symbols-Within barrel (symbol ∷ symbols) [] asked b h k =
      let named = record asked { names = add symbol asked.names } in
      forward_symbols-Within barrel symbols []
        (if symbol == star
          then (absorb_demand asked barrel).0
          else if asks barrel symbol
          then named
          else asked)
        b h.1
        (if-Within (symbol == star) (absorb_demand asked barrel).0
          (if asks barrel symbol then named else asked) (absorb_demand-Within asked barrel k b)
          (if-Within (asks barrel symbol) named asked (add-Within symbol asked.names h.0 k) k))
  forward_symbols-Within barrel (symbol ∷ symbols) (binding ∷ bindings) asked b h k =
      let named = record asked { names = add symbol asked.names } in
      let namespace = record asked { all = asked.all || asks barrel binding } in
      forward_symbols-Within barrel symbols bindings
        (if symbol == star then namespace else if asks barrel binding then named else asked) b h.1
        (if-Within (symbol == star) namespace (if asks barrel binding then named else asked) k
          (if-Within (asks barrel binding) named asked (add-Within symbol asked.names h.0 k) k))

  pub forwarded-Within :
      (barrel : Inbound) (prod : Demand) (edge : ImportContext)
      → WithinInbound all barrel
      → Within all prod
      → AreKnown edge.imported_symbols
      → WithinInbound all (forwarded barrel prod edge)
  unfolding forwarded forward_side
  forwarded-Within barrel prod edge h k known = (
    forward_symbols-Within prod edge.imported_symbols edge.bindings no_demand k known tt,
    forward_symbols-Within barrel.test edge.imported_symbols edge.bindings no_demand h.1 known tt,
  )

  ask_symbols-Within :
      (phase : ImportPhase) (symbols : List String) (type_star : Bool) (asked : Demand)
      → AreKnown symbols
      → Within all asked
      → Within all (ask_symbols phase symbols type_star asked).1
  unfolding ask_symbols
  ask_symbols-Within phase [] type_star asked h k = k
  ask_symbols-Within phase (symbol ∷ symbols) type_star asked h k =
      elim (Bool-cases (symbol == star)) [
        | inl starred ↦ elim (Bool-cases (phase == type_only)) [
          | inl typed ↦ rw starred (rw typed (ask_symbols-Within phase symbols true asked h.1 k))
          | inr run ↦ rw starred (
              rw run
                (ask_symbols-Within phase symbols type_star (record asked { all = true }) h.1 k))
        ]
        | inr named ↦ rw named (
            ask_symbols-Within phase symbols type_star
              (record asked { names = add symbol asked.names }) h.1
              (add-Within symbol asked.names h.0 k))
      ]

  pub add_direct-Within :
      (importers : Importers) (source : ℕ) (import : ImportContext) (target : Inbound)
      → AreKnown import.imported_symbols
      → WithinInbound all target
      → WithinInbound all (add_direct importers source import target)
  unfolding add_direct
  add_direct-Within importers source import target known h =
      let asked = (ask_symbols import.phase import.imported_symbols target.type_star no_demand).1 in
      let fits =
        ask_symbols-Within import.phase import.imported_symbols target.type_star no_demand known
          tt in
      elim (Bool-cases (is_test importers source)) [
        | inl test ↦ rw test (h.0, absorb_demand-Within target.test asked h.1 fits)
        | inr prod ↦ rw prod (absorb_demand-Within target.prod asked h.0 fits, h.1)
      ]

  module _ (g : CodebaseGraph) (importers : Importers) where
    abbrev pub AllWithin : List (ℕ × Inbound) → Type 0
    AllWithin demand = (v : ℕ) → WithinInbound all (unwrap_or (lookup v demand) no_inbound)

    pub forwarded_by-Within :
        (demand : List (ℕ × Inbound)) (edge : Edge)
        → AllWithin demand
        → AreKnown edge.weight.imported_symbols
        → WithinInbound all (forwarded_by g importers demand edge)
    unfolding forwarded_by
    forwarded_by-Within demand edge h known =
        let source = demand_of g importers demand edge.source in
        let own = source.prod in
        let everything = record own { all = true } in
        forwarded-Within source
          (if forwards_everything importers edge.source then everything else own) edge.weight
          (h edge.source)
          (if-Within (forwards_everything importers edge.source) everything own (h edge.source).0
            (h edge.source).0)
          known

    if-WithinInbound :
        (b : Bool) (i other : Inbound)
        → WithinInbound all i
        → WithinInbound all other
        → WithinInbound all (if b then i else other)
    if-WithinInbound true i other h k = h
    if-WithinInbound false i other h k = k

    if-AllWithin :
        (b : Bool) (demand other : List (ℕ × Inbound))
        → AllWithin demand
        → AllWithin other
        → AllWithin (if b then demand else other)
    if-AllWithin true demand other h k = h
    if-AllWithin false demand other h k = k

    pub insert-AllWithin :
        (demand : List (ℕ × Inbound)) (t : ℕ) (i : Inbound)
        → AllWithin demand
        → WithinInbound all i
        → AllWithin (insert t i demand)
    insert-AllWithin demand t i h k v =
        subst⁻¹ (WithinInbound all) (demand_of-insert v t i demand)
          (if-WithinInbound (nat_beq t v) i (unwrap_or (lookup v demand) no_inbound) k (h v))

    pub direct-AllWithin :
        (edges : List Edge) (demand : List (ℕ × Inbound))
        → All (λ e. AreKnown e.weight.imported_symbols) edges
        → AllWithin demand
        → AllWithin (direct g importers edges demand)
    unfolding direct upsert
    direct-AllWithin [] demand known h v = h v
    direct-AllWithin (edge ∷ edges) demand known h v =
        let target = unwrap_or (lookup edge.target demand) no_inbound in
        let more = add_direct importers edge.source edge.weight target in
        let demand' = insert edge.target more demand in
        let fits =
          insert-AllWithin demand edge.target more h
            (add_direct-Within importers edge.source edge.weight target known.0 (h edge.target)) in
        if-AllWithin (is_reexport edge) (direct g importers edges demand)
          (direct g importers edges demand') (direct-AllWithin edges demand known.1 h)
          (direct-AllWithin edges demand' known.1 fits) v

All-contained :
    (P : String → Type 0) (xs : List String)
    → ((n : String) → contains n xs ≡ true → P n)
    → All P xs
unfolding contains
All-contained P [] h = tt
All-contained P (x ∷ xs) h =
    (h x (ground (arith, ==_self x)), All-contained P xs (λ n c. h n (ground arith)))

contains-symbols_of :
    (edges : List Edge) (e : Edge) (n : String)
    → Memᴰ e edges
    → contains n e.weight.imported_symbols ≡ true
    → contains n (symbols_of edges) ≡ true
unfolding symbols_of
contains-symbols_of [] e n m c = elim m [ ]
contains-symbols_of (f ∷ edges) e n (Memᴰ.head same) c = ground (
  arith,
  contains-append n f.weight.imported_symbols (symbols_of edges),
  ap (λ x. contains n x.weight.imported_symbols) same,
)
contains-symbols_of (f ∷ edges) e n (Memᴰ.tail m) c = ground (
  arith,
  contains-append n f.weight.imported_symbols (symbols_of edges),
  contains-symbols_of edges e n m c,
)

-- The names of an edge are names of the edges.
pub symbols_of-All :
    (edges : List Edge) (e : Edge)
    → Memᴰ e edges
    → All (λ n. contains n (symbols_of edges) ≡ true) e.weight.imported_symbols
symbols_of-All edges e m =
    All-contained (λ n. contains n (symbols_of edges) ≡ true) e.weight.imported_symbols
      (λ n c. contains-symbols_of edges e n m c)
