-- ===== src/Graph.antt =====
-- src/spine/graph/mod.rs and src/spine/ir/import_context.rs: the import graph. The graph library
-- is a parameter: a graph is what its `edges_directed` lists, in any order.
use mathlib.Core.List.{Memᴰ}
use sensez.Prelude.{ℕ, ◌<◌, ◌≡◌, ◌↔◌, String, Bool, true, false, Option, List, All, map, Eq, arith}

pub data ImportPhase : Type 0 where
  runtime type_only : ImportPhase

abbrev pub same_phase : ImportPhase → ImportPhase → Bool
same_phase runtime runtime = true
same_phase type_only type_only = true
same_phase _ _ = false

pub same_phase_iff : (x y : ImportPhase) → (same_phase x y ≡ true) ↔ (x ≡ y)
same_phase_iff runtime runtime = ground arith
same_phase_iff runtime type_only = ground arith
same_phase_iff type_only runtime = ground arith
same_phase_iff type_only type_only = ground arith

instance abbrev pub phase_eq : Eq ImportPhase
phase_eq = record { decides = same_phase_iff; test = same_phase }

-- The fields of `ImportContext` that the analyses of the graph read.
pub record ImportContext : Type 0 where
  pub line : ℕ
  pub phase : ImportPhase
  pub is_inline : Bool
  pub is_module_decl : Bool
  pub is_reexport : Bool
  pub imported_symbols : List String
  pub bindings : List String

pub record ModuleNode : Type 0 where
  pub file_path : String
  pub module_name : String
  pub source_index : Option ℕ
  pub is_external : Bool

pub record Edge : Type 0 where
  pub source : ℕ
  pub target : ℕ
  pub weight : ImportContext

pub record CodebaseGraph : Type 0 where
  pub size : ℕ
  pub edges : List Edge
  pub node : ℕ → ModuleNode
  pub outgoing : ℕ → List Edge
  pub incoming : ℕ → List Edge

-- What the graph library documents: the edges of a node start, or end, at it, and join nodes.
pub record IsGraph (g : CodebaseGraph) : Type 0 where
  pub out_edges : (n : ℕ) → All (λ e. (e.source ≡ n) × (e.target < g.size)) (g.outgoing n)
  pub in_edges : (n : ℕ) → All (λ e. (e.target ≡ n) × (e.source < g.size)) (g.incoming n)
  pub listed : (n : ℕ) → All (λ e. Memᴰ e g.edges) (g.outgoing n)
  pub references : All (λ e. Memᴰ e (g.outgoing e.source)) g.edges

-- `neighbors_directed(n, Outgoing)` and `neighbors_directed(n, Incoming)`
abbrev pub successors : CodebaseGraph → ℕ → List ℕ
successors g n = map (λ e. e.target) (g.outgoing n)

abbrev pub predecessors : CodebaseGraph → ℕ → List ℕ
predecessors g n = map (λ e. e.source) (g.incoming n)
