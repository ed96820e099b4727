-- ===== src/Cycles.antt =====
-- src/noze/cycles.rs: circular imports. The strongly connected components of the graph library and
-- the glob set of the excluded files are parameters.
pub mod Walks
pub mod Search
pub mod Scan
pub mod Closing
pub mod Shortest
pub mod Detection
pub mod Components
pub mod Reported
mod Samples
use sensez.Prelude.{
  ℕ, zero, suc, String, Bool, true, false, not, ◌&&◌, Option, none, some, List, [], ◌∷◌, ◌++◌, map,
  any, retain, length, leb, contains, lookup, insert, is_some, join, sort_text, str_before, nat_eq,
  string_eq, nat_beq, if◌then◌else◌, ◌==◌, ◌>>=◌,
}
use sensez.Graph.{
  CodebaseGraph, Edge, ImportPhase, runtime, type_only, phase_eq, ModuleNode, ImportContext,
}
use sensez.Report.{CycleEdge, CycleFinding, ActionLevel}

abbrev pub runtime_level : List ImportPhase
runtime_level = runtime ∷ []

abbrev pub type_level : List ImportPhase
type_level = runtime ∷ type_only ∷ []

abbrev pub type_hint : String
type_hint = "type-only cycle: may indicate type coupling and dependent abstractions"

unfoldable pub is_cycle_edge : Edge → List ImportPhase → Bool
is_cycle_edge edge phases =
    let import = edge.weight in
    not (nat_beq edge.source edge.target)
    && not import.is_inline
    && not import.is_module_decl
    && contains import.phase phases

-- What the scan of the edges of one module ends with: the edge that closes the loop with the
-- predecessors at that point, or the predecessors and the queue to go on with.
pub data Scanned : Type 0 where
  closed : Edge → List (ℕ × Edge) → Scanned
  going : List (ℕ × Edge) → List ℕ → Scanned

-- The `for` loop over the edges of the module in hand.
unfoldable pub scan_edges : (start : ℕ) → List Edge → List (ℕ × Edge) → List ℕ → Scanned
scan_edges start [] prev queue = going prev queue
scan_edges start (edge ∷ edges) prev queue =
    let skip = scan_edges start edges prev queue in
    let push = scan_edges start edges (insert edge.target edge prev) (queue ++ edge.target ∷ []) in
    if nat_beq edge.target start
    then closed edge prev
    else if is_some (lookup edge.target prev)
    then skip
    else push

-- The `while` loop of `unwind`. A path that the source builds from its end and reverses is
-- built from its end here too. `none` stands for a missing predecessor, at which the source panics,
-- and for fuel that ran out.
unfoldable pub unwind_from : ℕ → ℕ → List (ℕ × Edge) → List Edge → ℕ → Option (List Edge)
unwind_from zero start prev path node = if nat_beq node start then some path else none
unwind_from (suc fuel) start prev path node = elim (lookup node prev) [
  | none ↦ if nat_beq node start then some path else none
  | some edge ↦
      let further = unwind_from fuel start prev (edge ∷ path) edge.source in
      if nat_beq node start then some path else further
]

module _ (g : CodebaseGraph) where
  unfoldable pub cycle_edge : Edge → CycleEdge
  cycle_edge edge =
      let from = g.node edge.source in
      let to = g.node edge.target in
      record {
        from_module = from.module_name;
        to_module = to.module_name;
        file = from.file_path;
        line = edge.weight.line;
      }

  -- `unwind`; every step back is along another entry of the map.
  unfoldable pub unwind : List (ℕ × Edge) → Edge → ℕ → Option (List CycleEdge)
  unfolding unwind_from
  unwind prev closing start =
      elim (unwind_from (length prev) start prev (closing ∷ []) closing.source) [
        | none ↦ none
        | some path ↦ some (map cycle_edge path)
      ]

  -- The edges of a module that the search follows.
  unfoldable pub followed : List ℕ → List ImportPhase → ℕ → List Edge
  followed scc phases node =
      retain (λ e. contains e.target scc && is_cycle_edge e phases) (g.outgoing node)

  -- The `while` loop of `shortest_cycle`; `none` stands for fuel that ran out, or a failed unwind.
  unfoldable pub search :
      List ℕ → List ImportPhase → ℕ → ℕ → List (ℕ × Edge) → List ℕ → Option (List CycleEdge)
  search scc phases start fuel prev [] = some []
  search scc phases start zero prev (node ∷ queue) = none
  search scc phases start (suc fuel) prev (node ∷ queue) =
      elim (scan_edges start (followed scc phases node) prev queue) [
        | closed edge prev' ↦ unwind prev' edge start
        | going prev' queue' ↦ search scc phases start fuel prev' queue'
      ]

  unfoldable pub module_name : ℕ → String
  module_name n = let node = g.node n in node.module_name

  -- `min_by_key` on the name: of equal names the first stays.
  unfoldable pub first_module : ℕ → List ℕ → ℕ
  first_module best [] = best
  first_module best (n ∷ scc) =
      let left = first_module n scc in
      let right = first_module best scc in
      if str_before (module_name n) (module_name best) then left else right

  -- Each module is queued at most once, besides the start.
  unfoldable pub shortest_cycle : List ℕ → List ImportPhase → Option (List CycleEdge)
  shortest_cycle [] phases = some []
  shortest_cycle (n ∷ scc) phases =
      let start = first_module n scc in search (n ∷ scc) phases start (suc g.size) [] (start ∷ [])

  unfoldable pub scc_key : List ℕ → String
  scc_key scc = join "|" (sort_text (map module_name scc))

  unfoldable pub has_type_only_internal_edge : List ℕ → Bool
  has_type_only_internal_edge scc =
      any
        (λ node.
          any
            (λ edge.
              contains edge.target scc
              && (let import = edge.weight in import.phase == type_only)
              && is_cycle_edge edge type_level)
            (g.outgoing node))
        scc

  unfoldable pub is_reportable_scc : (String → Bool) → List ℕ → Bool
  is_reportable_scc excluded scc =
      any (λ n. let node = g.node n in not (excluded node.file_path)) scc

  -- `findings_for` and `finding_for`: `none` where a search fails.
  unfoldable pub finding_for :
      ActionLevel → Option String → List ImportPhase → List ℕ → Option CycleFinding
  finding_for action hint phases scc = elim (shortest_cycle scc phases) [
    | none ↦ none
    | some edges ↦
        some (record { action = action; modules = map module_name scc; hint = hint; edges = edges })
  ]

  unfoldable pub findings_for :
      ActionLevel → Option String → List ImportPhase → List (List ℕ) → Option (List CycleFinding)
  findings_for action hint phases [] = some []
  findings_for action hint phases (scc ∷ sccs) = do
    first ← finding_for action hint phases scc
    rest ← findings_for action hint phases sccs
    some (first ∷ rest)

  -- The components that `detect` reports at the runtime level, and those it adds at the type level.
  -- `tarjan_scc` takes the test of the filtered graph.
  module _ (tarjan_scc : (Edge → Bool) → List (List ℕ)) (excluded : String → Bool) where
    unfoldable pub reportable : List ImportPhase → List (List ℕ)
    reportable phases =
        retain (is_reportable_scc excluded)
          (retain (λ scc. leb 2 (length scc)) (tarjan_scc (λ edge. is_cycle_edge edge phases)))

    unfoldable pub type_sccs : List (List ℕ)
    type_sccs = retain has_type_only_internal_edge (
        retain (λ scc. not (contains (scc_key scc) (map scc_key (reportable runtime_level))))
          (reportable type_level))

    unfoldable pub detect : (include_type_only : Bool) → Option (List CycleFinding)
    detect include_type_only = do
      findings ← findings_for ActionLevel.warning none runtime_level (reportable runtime_level)
      more ←
          findings_for ActionLevel.info (some type_hint) type_level
            (if include_type_only then type_sccs else [])
      some (findings ++ more)
