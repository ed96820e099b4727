-- ===== src/Cycles/Samples.antt =====
-- Three modules that import each other in a round, and a shortcut from the second to the first.
use mathlib.Core.List.{Memᴰ}
use sensez.Prelude.{
  ℕ, zero, suc, ◌<◌, ◌≤◌, ◌≡◌, ◌≢◌, ◌↔◌, refl, true, false, none, some, List, [], ◌∷◌, map, All,
  arith, length, contains, nat_eq, lookup, insert, retain, str_before, Bool,
}
use sensez.Graph.{ImportPhase, runtime, type_only, ModuleNode, Edge, CodebaseGraph, IsGraph}
use sensez.Report.{CycleFinding, ActionLevel}
use sensez.Cycles.{
  shortest_cycle, first_module, search, scan_edges, followed, is_cycle_edge, unwind, unwind_from,
  cycle_edge, module_name, type_level, detect,
}
use sensez.Cycles.Walks.{Walk}
use sensez.Cycles.Shortest.{shortest_cycle-Walk, shortest_cycle-least}
use sensez.Cycles.Detection.{headline}
use sensez.Cycles.Reported.{Told, detect-Told}
use sensez.Prelude.{String}

abbrev edge : ℕ → ℕ → ImportPhase → Edge
edge a b phase = record {
  source = a;
  target = b;
  weight = record {
    line = 7;
    phase = phase;
    is_inline = false;
    is_module_decl = false;
    is_reexport = false;
    imported_symbols = [];
    bindings = [];
  };
}

abbrev node : ℕ → ModuleNode
node zero = record {
  file_path = "a.py";
  module_name = "a";
  source_index = none;
  is_external = false;
}
node (suc n) = record {
  file_path = "b.py";
  module_name = "b";
  source_index = none;
  is_external = false;
}

outgoing : ℕ → List Edge
outgoing zero = edge 0 1 runtime ∷ []
outgoing (suc zero) = edge 1 2 runtime ∷ edge 1 0 runtime ∷ []
outgoing (suc (suc zero)) = edge 2 0 type_only ∷ []
outgoing (suc (suc (suc n))) = []

incoming : ℕ → List Edge
incoming zero = edge 1 0 runtime ∷ edge 2 0 type_only ∷ []
incoming (suc zero) = edge 0 1 runtime ∷ []
incoming (suc (suc zero)) = edge 1 2 runtime ∷ []
incoming (suc (suc (suc n))) = []

abbrev round : CodebaseGraph
round = record {
  size = 3;
  edges = edge 0 1 runtime ∷ edge 1 2 runtime ∷ edge 1 0 runtime ∷ edge 2 0 type_only ∷ [];
  node = node;
  outgoing = outgoing;
  incoming = incoming;
}

round-out_edges : (n : ℕ) → All (λ e. (e.source ≡ n) × (e.target < 3)) (outgoing n)
unfolding outgoing
round-out_edges zero = ((refl, omega arith), tt)
round-out_edges (suc zero) = ((refl, omega arith), ((refl, omega arith), tt))
round-out_edges (suc (suc zero)) = ((refl, omega arith), tt)
round-out_edges (suc (suc (suc n))) = tt

round-in_edges : (n : ℕ) → All (λ e. (e.target ≡ n) × (e.source < 3)) (incoming n)
unfolding incoming
round-in_edges zero = ((refl, omega arith), ((refl, omega arith), tt))
round-in_edges (suc zero) = ((refl, omega arith), tt)
round-in_edges (suc (suc zero)) = ((refl, omega arith), tt)
round-in_edges (suc (suc (suc n))) = tt

round-listed : (n : ℕ) → All (λ e. Memᴰ e round.edges) (outgoing n)
unfolding outgoing
round-listed zero = (Memᴰ.head refl, tt)
round-listed (suc zero) = (Memᴰ.tail (Memᴰ.head refl), (Memᴰ.tail (Memᴰ.tail (Memᴰ.head refl)), tt))
round-listed (suc (suc zero)) = (Memᴰ.tail (Memᴰ.tail (Memᴰ.tail (Memᴰ.head refl))), tt)
round-listed (suc (suc (suc n))) = tt

round-IsGraph : IsGraph round
unfolding outgoing
round-IsGraph = record {
  out_edges = round-out_edges;
  in_edges = round-in_edges;
  listed = round-listed;
  references =
      (Memᴰ.head refl, (Memᴰ.head refl, (Memᴰ.tail (Memᴰ.head refl), (Memᴰ.head refl, tt))));
}

abbrev components : (Edge → Bool) → List (List ℕ)
components test = (0 ∷ 1 ∷ 2 ∷ []) ∷ []

shortest_cycle-test :
    shortest_cycle round (0 ∷ 1 ∷ 2 ∷ []) type_level
    ≡ some (cycle_edge round (edge 0 1 runtime) ∷ cycle_edge round (edge 1 0 runtime) ∷ [])
unfolding shortest_cycle first_module search scan_edges followed is_cycle_edge unwind unwind_from
    outgoing contains lookup insert retain str_before module_name
shortest_cycle-test = refl

-- The long way round.
round-Walk :
    Walk round
      (0 ∷ 1 ∷ 2 ∷ [])
      type_level
      0
      (edge 0 1 runtime ∷ edge 1 2 runtime ∷ edge 2 0 type_only ∷ [])
      0
unfolding followed is_cycle_edge outgoing contains retain
round-Walk = (refl, Memᴰ.head refl, (refl, Memᴰ.head refl, (refl, Memᴰ.head refl, refl)))

first_module-test : first_module round 0 (1 ∷ 2 ∷ []) ≡ 0
unfolding first_module module_name str_before
first_module-test = refl

shortest_cycle-Walk_example :
    (p : List Edge) × (shortest_cycle round (0 ∷ 1 ∷ 2 ∷ []) type_level
      ≡ some (map (cycle_edge round) p))
    × Walk round
        (0 ∷ 1 ∷ 2 ∷ [])
        type_level
        (first_module round 0 (1 ∷ 2 ∷ []))
        p
        (first_module round 0 (1 ∷ 2 ∷ []))
    × ((p ≡ [])
        ↔ ¬ (
            (c : List Edge) × (c ≢ [])
            × Walk round
                (0 ∷ 1 ∷ 2 ∷ [])
                type_level
                (first_module round 0 (1 ∷ 2 ∷ []))
                c
                (first_module round 0 (1 ∷ 2 ∷ []))))
shortest_cycle-Walk_example = shortest_cycle-Walk round 0 (1 ∷ 2 ∷ []) type_level round-IsGraph

shortest_cycle-least_example :
    (p : List Edge) × (shortest_cycle round (0 ∷ 1 ∷ 2 ∷ []) type_level
      ≡ some (map (cycle_edge round) p))
    × (p ≢ [])
    × Walk round
        (0 ∷ 1 ∷ 2 ∷ [])
        type_level
        (first_module round 0 (1 ∷ 2 ∷ []))
        p
        (first_module round 0 (1 ∷ 2 ∷ []))
    × (length p ≤ 3)
shortest_cycle-least_example =
    shortest_cycle-least round 0 (1 ∷ 2 ∷ []) type_level
      (edge 0 1 runtime ∷ edge 1 2 runtime ∷ edge 2 0 type_only ∷ []) round-IsGraph (λ q. cc q)
      (rw first_module-test round-Walk)

detect-Told_example :
    (fs : List CycleFinding) × (detect round components (λ f. false) true ≡ some fs)
    × ((action : ActionLevel) (names : List String)
        → Memᴰ (action, names) (map headline fs)
          ↔ Told round components (λ f. false) true action names)
detect-Told_example = detect-Told round components (λ f. false) true round-IsGraph
