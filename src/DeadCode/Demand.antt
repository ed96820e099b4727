-- ===== src/DeadCode/Demand.antt =====
-- src/noze/dead_code/demand.rs: the names that a module's importers ask for, forwarded through
-- re-exports.
pub mod Growth
pub mod Cover
pub mod Room
pub mod Names
pub mod Round
pub mod Fixpoint
pub mod Asked
pub mod Meaning
pub mod Sound
pub mod Complete
mod Samples
use sensez.Prelude.{
  ℕ, zero, suc, ◌+◌, ◌*◌, String, Bool, true, false, not, ◌&&◌, ◌||◌, Option, none, some, List, [],
  ◌∷◌, ◌++◌, length, retain, any, contains, add, extend_set, lookup, insert, upsert, unwrap_or,
  nat_eq, string_eq, nat_beq, if◌then◌else◌, ◌==◌,
}
use sensez.Graph.{CodebaseGraph, Edge, ImportContext, ImportPhase, runtime, type_only, phase_eq}
use sensez.DeadCode.Reach.{Role, prod_root, test_source, role_eq, Reach, push_all, out_degrees}

abbrev pub star : String
star = "*"

pub record Demand : Type 0 where
  pub names : List String
  pub all : Bool

pub record Inbound : Type 0 where
  pub prod : Demand
  pub test : Demand
  pub type_star : Bool
  pub opaque : Bool
  pub from_config : Bool

-- `Demand::default` and `Inbound::default`
abbrev pub no_demand : Demand
no_demand = record { names = []; all = false }

abbrev pub no_inbound : Inbound
no_inbound = record {
  prod = no_demand;
  test = no_demand;
  type_star = false;
  opaque = false;
  from_config = false;
}

-- `!=` on flags
abbrev pub differ : Bool → Bool → Bool
differ true b = not b
differ false b = b

-- `Demand::contains`
unfoldable pub asks : Demand → String → Bool
asks d name = d.all || contains name d.names

-- `Demand::absorb`: the new demand, and whether anything was new.
unfoldable pub merged : Demand → Demand → Demand
merged d other = record { names = extend_set other.names d.names; all = d.all || other.all }

unfoldable pub absorb_demand : Demand → Demand → Demand × Bool
unfolding merged
absorb_demand d other =
    let after = merged d other in
    (after, differ d.all after.all || not (nat_beq (length d.names) (length after.names)))

-- `Inbound::absorb`
unfoldable pub absorb_inbound : Inbound → Inbound → Inbound × Bool
absorb_inbound i other =
    let (prod, new_prod) = absorb_demand i.prod other.prod in
    let (test, new_test) = absorb_demand i.test other.test in
    let type_star = i.type_star || other.type_star in
    let opaque = i.opaque || other.opaque in
    let from_config = i.from_config || other.from_config in
    (
      record {
        prod = prod;
        test = test;
        type_star = type_star;
        opaque = opaque;
        from_config = from_config;
      },
      new_prod
          || new_test
          || differ i.type_star type_star
          || differ i.opaque opaque
          || differ i.from_config from_config,
    )

pub data TestImporters : Type 0 where
  count report_as_test_only : TestImporters

unfoldable pub counted : Inbound → TestImporters → Demand
counted i TestImporters.count = (absorb_demand i.prod i.test).0
counted i TestImporters.report_as_test_only = i.prod

pub record Importers : Type 0 where
  pub roles : List (ℕ × Role)
  pub reach : Reach
  pub config_files : List ℕ

unfoldable pub has_role : Role → ℕ → Importers → Bool
has_role role idx importers = elim (lookup idx importers.roles) [
  | none ↦ false
  | some r ↦ role_eq r role
]

unfoldable pub is_test : Importers → ℕ → Bool
is_test importers idx =
    let reach = importers.reach in
    has_role test_source idx importers || not (contains idx reach.prod)

unfoldable pub forwards_everything : Importers → ℕ → Bool
forwards_everything importers idx =
    let reach = importers.reach in has_role prod_root idx importers || contains idx reach.orphans

-- `is_opaque`
unfoldable pub is_opaque : ImportContext → Bool
is_opaque import =
    (is_nil import.imported_symbols || is_nil import.bindings)
    && not import.is_module_decl
    && not (any (λ s. s == star) import.imported_symbols)
  where
    is_nil : List String → Bool
    is_nil [] = true
    is_nil (_ ∷ _) = false

-- The `for` loop of `add_direct`, on the star of types and what is asked.
unfoldable pub ask_symbols : ImportPhase → List String → Bool → Demand → Bool × Demand
ask_symbols phase [] type_star asked = (type_star, asked)
ask_symbols phase (symbol ∷ symbols) type_star asked =
    let star_of_types = ask_symbols phase symbols true asked in
    let everything = ask_symbols phase symbols type_star (record asked { all = true }) in
    let one =
      ask_symbols phase symbols type_star (record asked { names = add symbol asked.names }) in
    if symbol == star then (if phase == type_only then star_of_types else everything) else one

unfoldable pub add_direct : Importers → ℕ → ImportContext → Inbound → Inbound
add_direct importers source import target =
    let (type_star, asked) =
      ask_symbols import.phase import.imported_symbols target.type_star no_demand in
    let for_test = record target {
      type_star = type_star;
      test = (absorb_demand target.test asked).0;
    } in
    let for_prod = record target {
      type_star = type_star;
      prod = (absorb_demand target.prod asked).0;
      opaque = target.opaque || is_opaque import;
      from_config = target.from_config || contains source importers.config_files;
    } in
    if is_test importers source then for_test else for_prod

-- The `for` loop of `forward_side`; the bindings run along with the symbols.
unfoldable pub forward_symbols : Demand → List String → List String → Demand → Demand
forward_symbols barrel [] bindings asked = asked
forward_symbols barrel (symbol ∷ symbols) [] asked =
    let named = record asked { names = add symbol asked.names } in
    let onward = if asks barrel symbol then named else asked in
    forward_symbols barrel symbols []
      (if symbol == star then (absorb_demand asked barrel).0 else onward)
forward_symbols barrel (symbol ∷ symbols) (binding ∷ bindings) asked =
    let named = record asked { names = add symbol asked.names } in
    let namespace = record asked { all = asked.all || asks barrel binding } in
    let onward = if asks barrel binding then named else asked in
    forward_symbols barrel symbols bindings (if symbol == star then namespace else onward)

unfoldable pub forward_side : Demand → ImportContext → Demand
forward_side barrel edge = forward_symbols barrel edge.imported_symbols edge.bindings no_demand

unfoldable pub forwarded : Inbound → Demand → ImportContext → Inbound
forwarded barrel prod edge = record {
  prod = forward_side prod edge;
  test = forward_side barrel.test edge;
  type_star = barrel.type_star;
  opaque = barrel.opaque;
  from_config = barrel.from_config;
}

abbrev pub is_reexport : Edge → Bool
is_reexport edge = let import = edge.weight in import.is_reexport

-- All names that importers mention.
unfoldable pub symbols_of : List Edge → List String
symbols_of [] = []
symbols_of (edge ∷ edges) =
    (let import = edge.weight in import.imported_symbols) ++ symbols_of edges

module _ (g : CodebaseGraph) (importers : Importers) where
  unfoldable pub outgoing_reexports : ℕ → List Edge
  outgoing_reexports idx = retain is_reexport (g.outgoing idx)

  -- The demand of a module
  abbrev pub demand_of : List (ℕ × Inbound) → ℕ → Inbound
  demand_of demand idx = unwrap_or (lookup idx demand) no_inbound

  -- What a re-export forwards to its target.
  unfoldable pub forwarded_by : List (ℕ × Inbound) → Edge → Inbound
  forwarded_by demand edge =
      let source = demand_of demand edge.source in
      let own = source.prod in
      let everything = record own { all = true } in
      forwarded source (if forwards_everything importers edge.source then everything else own)
        edge.weight

  -- The first loop of `inbound`: direct imports.
  unfoldable pub direct : List Edge → List (ℕ × Inbound) → List (ℕ × Inbound)
  direct [] demand = demand
  direct (edge ∷ edges) demand =
      let skip = direct edges demand in
      let more =
        direct edges
          (upsert edge.target no_inbound (add_direct importers edge.source edge.weight) demand) in
      if is_reexport edge then skip else more

  -- The `while` loop of `inbound`; `none` means that the fuel ran out.
  unfoldable pub forward_all : ℕ → List Edge → List (ℕ × Inbound) → Option (List (ℕ × Inbound))
  forward_all fuel [] demand = some demand
  forward_all zero (edge ∷ pending) demand = none
  forward_all (suc fuel) (edge ∷ pending) demand =
      let skip = forward_all fuel pending demand in
      let (after, new) = absorb_inbound (demand_of demand edge.target) (forwarded_by demand edge) in
      let pending' = if new then push_all (outgoing_reexports edge.target) pending else pending in
      let rest = forward_all fuel pending' (insert edge.target after demand) in
      if nat_beq edge.source edge.target then skip else rest

  -- A module's demand can grow once by every name on either side and once by each of five flags, and
  -- each time its re-exports are queued again.
  unfoldable pub demand_fuel : ℕ
  demand_fuel =
      length g.edges + out_degrees g g.size * (g.size * (2 * length (symbols_of g.edges) + 5))

  unfoldable pub inbound : Option (List (ℕ × Inbound))
  inbound = forward_all demand_fuel (push_all (retain is_reexport g.edges) []) (direct g.edges [])
