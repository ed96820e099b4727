-- ===== src/DeadCode/Demand/Samples.antt =====
-- A barrel, module 1, that re-exports `f` of module 2 as `g`, and an entry module 0 that imports `g`.
use mathlib.Core.List.{Memᴰ}
use sensez.Prelude.{
  String, ℕ, zero, suc, ◌<◌, ◌≡◌, ◌↔◌, refl, Bool, true, false, none, some, List, [], ◌∷◌, All,
  arith, contains, nat_eq, string_eq, lookup, insert, upsert, extend_set, add, retain, any,
}
use sensez.Graph.{runtime, ModuleNode, Edge, CodebaseGraph, IsGraph}
use sensez.DeadCode.Reach.{prod_root, module_role, push_all, out_degrees}
use sensez.DeadCode.Demand.{
  Inbound, Importers, inbound, demand_fuel, forward_all, direct, add_direct, ask_symbols,
  absorb_demand, merged, absorb_inbound, forwarded_by, forwarded, forward_side, forward_symbols,
  forwards_everything, is_test, has_role, is_opaque, asks, demand_of, outgoing_reexports,
  symbols_of, no_demand, no_inbound,
}
use sensez.DeadCode.Demand.Asked.{Side, on, Asked}
use sensez.DeadCode.Demand.Complete.{inbound-Asked}

abbrev edge : ℕ → ℕ → Bool → String → String → Edge
edge a b re symbol binding = record {
  source = a;
  target = b;
  weight = record {
    line = 1;
    phase = runtime;
    is_inline = false;
    is_module_decl = false;
    is_reexport = re;
    imported_symbols = symbol ∷ [];
    bindings = binding ∷ [];
  };
}

abbrev use_g : Edge
use_g = edge 0 1 false "g" "g"

abbrev pass_f : Edge
pass_f = edge 1 2 true "f" "g"

abbrev node : ℕ → ModuleNode
node n = record { file_path = "m.ts"; module_name = "m"; source_index = none; is_external = false }

outgoing : ℕ → List Edge
outgoing zero = use_g ∷ []
outgoing (suc zero) = pass_f ∷ []
outgoing (suc (suc n)) = []

incoming : ℕ → List Edge
incoming zero = []
incoming (suc zero) = use_g ∷ []
incoming (suc (suc zero)) = pass_f ∷ []
incoming (suc (suc (suc n))) = []

abbrev barrel : CodebaseGraph
barrel = record {
  size = 3;
  edges = use_g ∷ pass_f ∷ [];
  node = node;
  outgoing = outgoing;
  incoming = incoming;
}

abbrev importers : Importers
importers = record {
  roles = (0, prod_root) ∷ (1, module_role) ∷ (2, module_role) ∷ [];
  reach = record { prod = 0 ∷ 1 ∷ 2 ∷ []; orphans = [] };
  config_files = [];
}

barrel-out_edges : (n : ℕ) → All (λ e. (e.source ≡ n) × (e.target < 3)) (outgoing n)
unfolding outgoing
barrel-out_edges zero = ((refl, omega arith), tt)
barrel-out_edges (suc zero) = ((refl, omega arith), tt)
barrel-out_edges (suc (suc n)) = tt

barrel-in_edges : (n : ℕ) → All (λ e. (e.target ≡ n) × (e.source < 3)) (incoming n)
unfolding incoming
barrel-in_edges zero = tt
barrel-in_edges (suc zero) = ((refl, omega arith), tt)
barrel-in_edges (suc (suc zero)) = ((refl, omega arith), tt)
barrel-in_edges (suc (suc (suc n))) = tt

barrel-listed : (n : ℕ) → All (λ e. Memᴰ e barrel.edges) (outgoing n)
unfolding outgoing
barrel-listed zero = (Memᴰ.head refl, tt)
barrel-listed (suc zero) = (Memᴰ.tail (Memᴰ.head refl), tt)
barrel-listed (suc (suc n)) = tt

barrel-IsGraph : IsGraph barrel
unfolding outgoing
barrel-IsGraph = record {
  out_edges = barrel-out_edges;
  in_edges = barrel-in_edges;
  listed = barrel-listed;
  references = (Memᴰ.head refl, (Memᴰ.head refl, tt));
}

-- The demand for `g` of the barrel is one for `f` of its target, which the source keeps alive.
inbound-test :
    inbound barrel importers
    ≡ some (
        (1, record no_inbound { prod = record no_demand { names = "g" ∷ [] } })
        ∷ (2, record no_inbound { prod = record no_demand { names = "f" ∷ [] } })
        ∷ [])
unfolding inbound demand_fuel forward_all direct add_direct ask_symbols absorb_demand merged
    absorb_inbound forwarded_by forwarded forward_side forward_symbols forwards_everything is_test
    has_role is_opaque asks outgoing_reexports symbols_of out_degrees push_all outgoing contains
    lookup insert upsert extend_set add retain any
inbound-test = refl

inbound-Asked_example :
    (t : List (ℕ × Inbound)) × (inbound barrel importers ≡ some t)
    × ((side : Side) (v : ℕ) (n : String)
        → (asks (on side (demand_of barrel importers t v)) n ≡ true)
          ↔ Asked barrel importers side v n)
inbound-Asked_example = inbound-Asked barrel importers barrel-IsGraph
