-- ===== src/Impact.antt =====
-- src/spine/impact/mod.rs: the files that a change affects, with their distance in imports.
pub mod Distance
pub mod Spreading
pub mod Start
pub mod Nearest
pub mod Arrival
mod Samples
use sensez.Prelude.{
  ℕ, zero, suc, ◌+◌, String, Bool, true, false, not, ◌&&◌, ◌||◌, Option, none, some, List, [], ◌∷◌,
  ◌++◌, min, contains, lookup, insert, is_some, unwrap_or, extend_set, add, nat_eq, string_eq,
  if◌then◌else◌, ◌==◌, length, ◌>>=◌,
}
use sensez.Graph.{CodebaseGraph, Edge, ImportContext, type_only, phase_eq, ModuleNode}

pub data DirectionOfImpact : Type 0 where
  dependencies dependents : DirectionOfImpact

pub record ImpactOptions : Type 0 where
  pub include_type_only : Bool

pub record Reachability : Type 0 where
  pub files : List (String × ℕ)
  pub unmapped : List String

pub record AffectedFiles : Type 0 where
  pub dependencies : Reachability
  pub dependents : Reachability

-- The `for` loop of `all_files`
unfoldable pub merge_files : List (String × ℕ) → List (String × ℕ) → List (String × ℕ)
merge_files [] files = files
merge_files ((path, distance) ∷ more) files = merge_files more (
    insert path (elim (lookup path files) [ none ↦ distance | some current ↦ min current distance ])
      files)

unfoldable pub all_files : AffectedFiles → List (String × ℕ)
all_files affected =
    let one = affected.dependencies in
    let other = affected.dependents in merge_files other.files one.files

-- `unmapped`, the union
unfoldable pub all_unmapped : AffectedFiles → List String
all_unmapped affected =
    let one = affected.dependencies in
    let other = affected.dependents in extend_set other.unmapped one.unmapped

unfoldable pub far_ends : (Edge → ℕ) → ImpactOptions → List Edge → List ℕ
far_ends end options [] = []
far_ends end options (edge ∷ edges) =
    let rest = far_ends end options edges in
    let import = edge.weight in
    if not options.include_type_only && import.phase == type_only then rest else end edge ∷ rest

module _ (g : CodebaseGraph) where
  -- The last of the internal modules with a path wins the entry, as it does when a map is collected.
  unfoldable pub nodes_below : ℕ → List (String × ℕ)
  nodes_below zero = []
  nodes_below (suc n) =
      let rest = nodes_below n in
      let node = g.node n in if node.is_external then rest else insert node.file_path n rest

  unfoldable pub internal_nodes_by_path : List (String × ℕ)
  internal_nodes_by_path = nodes_below g.size

  -- The first loop of `reachable_files`: the changed files' modules at distance zero, the queue, and
  -- the paths without a module.
  unfoldable pub seed :
      List (String × ℕ)
      → List String
      → List (ℕ × ℕ)
      → List ℕ
      → List String
      → List (ℕ × ℕ) × List ℕ × List String
  seed nodes [] visited queue unmapped = (visited, queue, unmapped)
  seed nodes (path ∷ changed) visited queue unmapped = elim (lookup path nodes) [
    | none ↦ seed nodes changed visited queue (add path unmapped)
    | some node ↦
        seed nodes changed (insert node 0 visited)
          (if is_some (lookup node visited) then queue else queue ++ node ∷ []) unmapped
  ]

  -- The edges that the walk follows from a module, each with the module at its other end.
  unfoldable pub neighbours : DirectionOfImpact → ImpactOptions → ℕ → List ℕ
  neighbours dependencies options node = far_ends (λ e. e.target) options (g.outgoing node)
  neighbours dependents options node = far_ends (λ e. e.source) options (g.incoming node)

  -- The inner `for` loop
  unfoldable pub visit_all : ℕ → List ℕ → List (ℕ × ℕ) → List ℕ → List (ℕ × ℕ) × List ℕ
  visit_all distance [] visited queue = (visited, queue)
  visit_all distance (next ∷ nexts) visited queue =
      let skip = visit_all distance nexts visited queue in
      let push =
        visit_all distance nexts (insert next (suc distance) visited) (queue ++ next ∷ []) in
      let node = g.node next in
      if node.is_external || is_some (lookup next visited) then skip else push

  -- The `while` loop; `none` means that the fuel ran out, or that a queued module has no distance, at
  -- which the source panics.
  unfoldable pub spread :
      DirectionOfImpact
      → ImpactOptions
      → ℕ
      → List ℕ
      → List (ℕ × ℕ)
      → List (String × ℕ)
      → Option (List (String × ℕ))
  spread direction options fuel [] visited files = some files
  spread direction options zero (node ∷ queue) visited files = none
  spread direction options (suc fuel) (node ∷ queue) visited files = elim (lookup node visited) [
    | none ↦ none
    | some distance ↦
        let (visited', queue') =
          visit_all distance (neighbours direction options node) visited queue in
        spread direction options fuel queue' visited'
          (insert (let m = g.node node in m.file_path) distance files)
  ]

  -- Every module is queued at most once, when it is visited first.
  unfoldable pub reachable_files :
      List String → DirectionOfImpact → ImpactOptions → Option Reachability
  reachable_files changed direction options =
      let (visited, queue, unmapped) = seed internal_nodes_by_path changed [] [] [] in
      elim (spread direction options (length queue + g.size) queue visited []) [
        | none ↦ none
        | some files ↦ some (record { files = files; unmapped = unmapped })
      ]

  unfoldable pub affected_files : List String → ImpactOptions → Option AffectedFiles
  affected_files changed options = do
    one ← reachable_files changed dependencies options
    other ← reachable_files changed dependents options
    some (record { dependencies = one; dependents = other })
