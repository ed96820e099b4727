-- ===== src/Impact/Samples.antt =====
-- Four modules: the first and the last import the second, which imports the third.
use mathlib.Core.List.{Memᴰ}
use sensez.Prelude.{
  ℕ, zero, suc, ◌≡◌, ◌↔◌, refl, Bool, true, false, none, some, List, [], ◌∷◌, arith, contains,
  nat_eq, string_eq, lookup, insert, add, String, ◌==◌, if◌then◌else◌, All, ap, sym, ◌∙◌, ◌<◌,
}
use sensez.Graph.{runtime, ModuleNode, Edge, CodebaseGraph, IsGraph}
use sensez.Impact.{
  reachable_files, affected_files, all_files, merge_files, internal_nodes_by_path, nodes_below,
  seed, neighbours, far_ends, visit_all, spread, dependents, Reachability,
}
use sensez.Impact.Distance.{is_internal, IsNearest}
use sensez.Impact.Nearest.{HasDistinctFiles}
use sensez.Impact.Arrival.{reachable_files-IsNearest}

abbrev edge : ℕ → ℕ → Edge
edge a b = record {
  source = a;
  target = b;
  weight = record {
    line = 1;
    phase = runtime;
    is_inline = false;
    is_module_decl = false;
    is_reexport = false;
    imported_symbols = [];
    bindings = [];
  };
}

abbrev named : String → Bool → ModuleNode
named path external = record {
  file_path = path;
  module_name = path;
  source_index = none;
  is_external = external;
}

-- The positions past the last module hold none, which is the same to the walk as an external one.
node : ℕ → ModuleNode
node zero = named "a.py" false
node (suc zero) = named "b.py" false
node (suc (suc zero)) = named "c.py" false
node (suc (suc (suc zero))) = named "d.py" false
node (suc (suc (suc (suc n)))) = named "" true

outgoing : ℕ → List Edge
outgoing zero = edge 0 1 ∷ []
outgoing (suc zero) = edge 1 2 ∷ []
outgoing (suc (suc zero)) = []
outgoing (suc (suc (suc zero))) = edge 3 1 ∷ []
outgoing (suc (suc (suc (suc n)))) = []

incoming : ℕ → List Edge
incoming zero = []
incoming (suc zero) = edge 0 1 ∷ edge 3 1 ∷ []
incoming (suc (suc zero)) = edge 1 2 ∷ []
incoming (suc (suc (suc n))) = []

abbrev project : CodebaseGraph
project = record {
  size = 4;
  edges = edge 0 1 ∷ edge 1 2 ∷ edge 3 1 ∷ [];
  node = node;
  outgoing = outgoing;
  incoming = incoming;
}

project-out_edges : (n : ℕ) → All (λ e. (e.source ≡ n) × (e.target < 4)) (outgoing n)
unfolding outgoing
project-out_edges zero = ((refl, omega arith), tt)
project-out_edges (suc zero) = ((refl, omega arith), tt)
project-out_edges (suc (suc zero)) = tt
project-out_edges (suc (suc (suc zero))) = ((refl, omega arith), tt)
project-out_edges (suc (suc (suc (suc n)))) = tt

project-in_edges : (n : ℕ) → All (λ e. (e.target ≡ n) × (e.source < 4)) (incoming n)
unfolding incoming
project-in_edges zero = tt
project-in_edges (suc zero) = ((refl, omega arith), ((refl, omega arith), tt))
project-in_edges (suc (suc zero)) = ((refl, omega arith), tt)
project-in_edges (suc (suc (suc n))) = tt

project-listed : (n : ℕ) → All (λ e. Memᴰ e project.edges) (outgoing n)
unfolding outgoing
project-listed zero = (Memᴰ.head refl, tt)
project-listed (suc zero) = (Memᴰ.tail (Memᴰ.head refl), tt)
project-listed (suc (suc zero)) = tt
project-listed (suc (suc (suc zero))) = (Memᴰ.tail (Memᴰ.tail (Memᴰ.head refl)), tt)
project-listed (suc (suc (suc (suc n)))) = tt

project-IsGraph : IsGraph project
unfolding outgoing
project-IsGraph = record {
  out_edges = project-out_edges;
  in_edges = project-in_edges;
  listed = project-listed;
  references = (Memᴰ.head refl, (Memᴰ.head refl, (Memᴰ.head refl, tt)));
}

abbrev place : String → ℕ
place path =
    if path == "a.py" then 0 else if path == "b.py" then 1 else if path == "c.py" then 2 else 3

abbrev path_at : ℕ → String
path_at v = let m = node v in m.file_path

place-path_at : (v : ℕ) → is_internal project v ≡ true → place (path_at v) ≡ v
unfolding node
place-path_at zero internal = refl
place-path_at (suc zero) internal = refl
place-path_at (suc (suc zero)) internal = refl
place-path_at (suc (suc (suc zero))) internal = refl
place-path_at (suc (suc (suc (suc n)))) internal = absurd (ground arith)

project-HasDistinctFiles : HasDistinctFiles project
project-HasDistinctFiles u v one other same =
    sym (place-path_at u one) ∙ (ap place same ∙ place-path_at v other)

abbrev only_b : List String
only_b = "b.py" ∷ "gone.py" ∷ []

affected_files-test :
    affected_files project only_b (record { include_type_only = false })
    ≡ some (record {
      dependencies = record { files = ("b.py", 0) ∷ ("c.py", 1) ∷ []; unmapped = "gone.py" ∷ [] };
      dependents = record {
        files = ("b.py", 0) ∷ ("a.py", 1) ∷ ("d.py", 1) ∷ [];
        unmapped = "gone.py" ∷ [];
      };
    })
unfolding affected_files reachable_files internal_nodes_by_path nodes_below seed spread visit_all
    neighbours far_ends outgoing incoming node lookup insert add contains
affected_files-test = refl

all_files-test :
    all_files (record {
      dependencies = record { files = ("b.py", 0) ∷ ("c.py", 3) ∷ []; unmapped = "x" ∷ [] };
      dependents = record { files = ("b.py", 0) ∷ ("c.py", 1) ∷ ("d.py", 1) ∷ []; unmapped = [] };
    })
    ≡ ("b.py", 0) ∷ ("c.py", 1) ∷ ("d.py", 1) ∷ []
unfolding all_files merge_files lookup insert
all_files-test = refl

reachable_files-IsNearest_example :
    (r : Reachability) × (reachable_files project only_b dependents
        (record { include_type_only = false })
      ≡ some r)
    × ((d v : ℕ)
        → is_internal project v ≡ true
        → (lookup (let m = project.node v in m.file_path) r.files ≡ some d)
          ↔ IsNearest project dependents (record { include_type_only = false }) only_b d v)
reachable_files-IsNearest_example =
    reachable_files-IsNearest project only_b dependents (record { include_type_only = false })
      project-IsGraph project-HasDistinctFiles
