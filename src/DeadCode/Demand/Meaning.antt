-- ===== src/DeadCode/Demand/Meaning.antt =====
-- What one step of the loops of src/noze/dead_code/demand.rs adds to what is asked.
use sensez.Prelude.{
  contains, ℕ, ◌≡◌, refl, String, true, false, ◌&&◌, ◌||◌, List, arith, any, lookup, insert,
  unwrap_or, string_eq, nat_eq, nat_beq, if◌then◌else◌, ap, ◌∙◌,
}
use sensez.Graph.{CodebaseGraph, Edge, ImportContext}
use sensez.DeadCode.Demand.{
  Demand, Inbound, Importers, asks, absorb_demand, absorb_inbound, forward_side, forwarded,
  forwarded_by, add_direct, forwards_everything, no_inbound, no_demand, ask_symbols,
}
use sensez.DeadCode.Demand.Names.{demand_of-insert}
use sensez.DeadCode.Demand.Asked.{
  Side, production, tests, side_eq, side_of, on, asks_directly, exports, passes, asks-absorb_demand,
  asks-forward_symbols, asks-ask_symbols,
}

on-absorb_inbound :
    (side : Side) (i other : Inbound)
    → on side (absorb_inbound i other).0 ≡ (absorb_demand (on side i) (on side other)).0
unfolding absorb_inbound
on-absorb_inbound production i other = refl
on-absorb_inbound tests i other = refl

pub asks-absorb_inbound :
    (side : Side) (i other : Inbound) (n : String)
    → asks (on side (absorb_inbound i other).0) n ≡ (asks (on side i) n || asks (on side other) n)
asks-absorb_inbound side i other n =
    ap (λ d. asks d n) (on-absorb_inbound side i other)
    ∙ asks-absorb_demand (on side i) (on side other) n

pub asks-no_demand : (n : String) → asks no_demand n ≡ false
unfolding asks contains
asks-no_demand n = refl

pub asks-add_direct :
    (importers : Importers) (source : ℕ) (import : ImportContext) (target : Inbound) (side : Side)
    (n : String)
    → asks (on side (add_direct importers source import target)) n ≡ (
        asks (on side target) n
        || (side_eq side (side_of importers source) && asks_directly import n))
unfolding add_direct
asks-add_direct importers source import target production n =
    let asked = (ask_symbols import.phase import.imported_symbols target.type_star no_demand).1 in
    ground (
      arith,
      asks-absorb_demand target.prod asked n,
      asks-ask_symbols import.phase import.imported_symbols target.type_star no_demand n,
      asks-no_demand n,
    )
asks-add_direct importers source import target tests n =
    let asked = (ask_symbols import.phase import.imported_symbols target.type_star no_demand).1 in
    ground (
      arith,
      asks-absorb_demand target.test asked n,
      asks-ask_symbols import.phase import.imported_symbols target.type_star no_demand n,
      asks-no_demand n,
    )

module _ (g : CodebaseGraph) (importers : Importers) where
  abbrev pub of : List (ℕ × Inbound) → ℕ → Inbound
  of demand v = unwrap_or (lookup v demand) no_inbound

  -- What a re-export forwards on one side.
  abbrev pub barrel : Side → List (ℕ × Inbound) → Edge → Demand
  barrel production demand e =
      let own = (of demand e.source).prod in
      let everything = record own { all = true } in
      if forwards_everything importers e.source then everything else own
  barrel tests demand e = (of demand e.source).test

  pub asks-forwarded_by :
      (side : Side) (demand : List (ℕ × Inbound)) (e : Edge) (n : String)
      → asks (on side (forwarded_by g importers demand e)) n
        ≡ any
            (passes (barrel side demand e) n)
            (exports e.weight.imported_symbols e.weight.bindings)
  unfolding forwarded_by forwarded forward_side
  asks-forwarded_by production demand e n = ground (
    arith,
    asks-forward_symbols (barrel production demand e) e.weight.imported_symbols e.weight.bindings
        no_demand n,
    asks-no_demand n,
  )
  asks-forwarded_by tests demand e n = ground (
    arith,
    asks-forward_symbols (barrel tests demand e) e.weight.imported_symbols e.weight.bindings
        no_demand n,
    asks-no_demand n,
  )

  pub asks-insert :
      (side : Side) (demand : List (ℕ × Inbound)) (t v : ℕ) (i : Inbound) (n : String)
      → asks (on side (of (insert t i demand) v)) n
        ≡ (if nat_beq t v then asks (on side i) n else asks (on side (of demand v)) n)
  asks-insert side demand t v i n =
      ground (arith, ap (λ j. asks (on side j) n) (demand_of-insert v t i demand))
