-- ===== src/DeadCode/Samples.antt =====
-- Four modules: an entry point that imports one, and a test that imports another.
use sensez.Prelude.{
  add, any, string_eq, String, ℕ, zero, suc, ◌<◌, ◌≡◌, ◌≢◌, ◌↔◌, ◌⊎◌, refl, true, false, none, some,
  List, [], ◌∷◌, All, not, ◌&&◌, contains, nat_eq, arith, retain,
}
use mathlib.Core.List.{Memᴰ}
use sensez.Graph.{ImportContext, runtime, ModuleNode, Edge, CodebaseGraph, IsGraph}
use sensez.Report.{high, low}
use sensez.DeadCode.Demand.{no_inbound}
use sensez.DeadCode.Reach.{
  Role, prod_root, test_source, module_role, Reach, reach_from, walk, with_role,
}
use sensez.DeadCode.Reach.Closure.{reach_from_decides}
use sensez.DeadCode.Reach.Closure
use sensez.DeadCode.Reach.Verdict.{walk_decides, prod_roots}
use sensez.DeadCode.Classes.{
  dynamic_classes, grow_live, add_dynamic_classes, add_from, is_dynamic_base,
}
use sensez.DeadCode.Classes.Segment.{last_segment, segment_from}
use sensez.DeadCode.Classes.Fixpoint.{Dynamic, dynamic_classes-Dynamic}
use sensez.DeadCode.Grade.{Evidence, grade, grade_decides, from_root, orphan, unreachable_module}

abbrev import : ImportContext
import = record {
  line = 1;
  phase = runtime;
  is_inline = false;
  is_module_decl = false;
  is_reexport = false;
  imported_symbols = [];
  bindings = [];
}

abbrev edge : ℕ → ℕ → Edge
edge a b = record { source = a; target = b; weight = import }

abbrev node : ℕ → ModuleNode
node n = record { file_path = "m.py"; module_name = "m"; source_index = none; is_external = false }

-- 0 is an entry point and imports 1; the test 3 imports 2.
outgoing : ℕ → List Edge
outgoing zero = edge 0 1 ∷ []
outgoing (suc zero) = []
outgoing (suc (suc zero)) = []
outgoing (suc (suc (suc zero))) = edge 3 2 ∷ []
outgoing (suc (suc (suc (suc n)))) = []

incoming : ℕ → List Edge
incoming zero = []
incoming (suc zero) = edge 0 1 ∷ []
incoming (suc (suc zero)) = edge 3 2 ∷ []
incoming (suc (suc (suc n))) = []

abbrev imports : CodebaseGraph
imports = record {
  size = 4;
  edges = edge 0 1 ∷ edge 3 2 ∷ [];
  node = node;
  outgoing = outgoing;
  incoming = incoming;
}

imports-out_edges : (n : ℕ) → All (λ e. (e.source ≡ n) × (e.target < 4)) (outgoing n)
unfolding outgoing
imports-out_edges zero = ((refl, omega arith), tt)
imports-out_edges (suc zero) = tt
imports-out_edges (suc (suc zero)) = tt
imports-out_edges (suc (suc (suc zero))) = ((refl, omega arith), tt)
imports-out_edges (suc (suc (suc (suc n)))) = tt

imports-in_edges : (n : ℕ) → All (λ e. (e.target ≡ n) × (e.source < 4)) (incoming n)
unfolding incoming
imports-in_edges zero = tt
imports-in_edges (suc zero) = ((refl, omega arith), tt)
imports-in_edges (suc (suc zero)) = ((refl, omega arith), tt)
imports-in_edges (suc (suc (suc n))) = tt

imports-listed : (n : ℕ) → All (λ e. Memᴰ e imports.edges) (outgoing n)
unfolding outgoing
imports-listed zero = (Memᴰ.head refl, tt)
imports-listed (suc zero) = tt
imports-listed (suc (suc zero)) = tt
imports-listed (suc (suc (suc zero))) = (Memᴰ.tail (Memᴰ.head refl), tt)
imports-listed (suc (suc (suc (suc n)))) = tt

imports-IsGraph : IsGraph imports
unfolding outgoing
imports-IsGraph = record {
  out_edges = imports-out_edges;
  in_edges = imports-in_edges;
  listed = imports-listed;
  references = (Memᴰ.head refl, (Memᴰ.head refl, tt));
}

abbrev roles : List (ℕ × Role)
roles = (0, prod_root) ∷ (1, module_role) ∷ (2, module_role) ∷ (3, test_source) ∷ []

root_below : (v : ℕ) → contains v (0 ∷ []) ≡ true → v < 4
unfolding contains
root_below v h = ground arith

reach_from_decides_example :
    (t : List ℕ) × (reach_from imports (0 ∷ []) ≡ some t)
    × ((v : ℕ) → (contains v t ≡ true) ↔ Closure.Reached imports (0 ∷ []) v)
reach_from_decides_example = reach_from_decides imports (0 ∷ []) imports-IsGraph root_below

roles_below : (v : ℕ) (r : Role) → contains v (with_role imports r roles) ≡ true → v < 4
unfolding contains with_role retain
roles_below v prod_root h = ground arith
roles_below v test_source h = ground arith
roles_below v module_role h = ground arith

walk_decides_example :
    (t : Reach) × (walk imports roles ≡ some t)
    × ((v : ℕ)
        → ((contains v (with_role imports module_role roles) && not (contains v t.prod)) ≡ true) ↔ (
            (contains v (with_role imports module_role roles) ≡ true)
            × Closure.Reached imports (with_role imports test_source roles) v
            × ¬ Closure.Reached imports (prod_roots imports imports-IsGraph roles roles_below) v))
walk_decides_example = walk_decides imports imports-IsGraph roles roles_below

abbrev hidden : Evidence
hidden = record {
  inbound = record no_inbound { opaque = true };
  reached = orphan;
  is_default_export = false;
  is_test_only = false;
}

grade_decides_example :
    (((grade hidden).confidence ≡ high) ↔ (
      (orphan ≡ from_root)
      × (false ≡ false)
      × (false ≡ false)
      × (true ≡ false)
      × (false ≡ false)
      × (false ≡ false)))
    × ((grade hidden).confidence ≢ low)
    × (((grade hidden).confidence ≢ high) ⊎ ((grade hidden).reason ≡ none))
    × (((grade hidden).reason ≡ some unreachable_module) ↔ (orphan ≡ orphan))
grade_decides_example = grade_decides hidden

-- `Child` inherits from `Base`, which inherits from the configured `lib.Root`.
abbrev class_bases : List (String × List String)
class_bases = ("Child", "pkg.Base" ∷ []) ∷ ("Other", []) ∷ ("Base", "lib.Root" ∷ []) ∷ []

dynamic_classes-test : dynamic_classes ("lib.Root" ∷ []) class_bases ≡ some ("Base" ∷ "Child" ∷ [])
unfolding dynamic_classes grow_live add_dynamic_classes add_from is_dynamic_base contains add any
    last_segment segment_from
dynamic_classes-test = refl

dynamic_classes-Dynamic_example :
    (t : List String) × (dynamic_classes ("lib.Root" ∷ []) class_bases ≡ some t)
    × ((c : String) → (contains c t ≡ true) ↔ Dynamic ("lib.Root" ∷ []) class_bases c)
dynamic_classes-Dynamic_example = dynamic_classes-Dynamic ("lib.Root" ∷ []) class_bases
