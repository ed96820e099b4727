-- ===== src/Lsp/Schedule.antt =====
-- src/lsp/schedule.rs: which workspace scans run now and which wait.
-- The map from paths to workspaces is an association list in any order; where the source goes through
-- the map in the order of its keys, `by_path` puts the list into that order.
pub mod Counting
pub mod Taking
use sensez.Paths.{path_before}
use sensez.Prelude.{
  ℕ, ◌+◌, min, String, Bool, true, false, not, ◌&&◌, ◌||◌, Option, none, some, List, ◌≡◌, leb,
  count, find, sort, if◌then◌else◌, lookup, insert, unwrap_or, string_eq,
}

-- `MAX_CONCURRENT_SCANS`
abbrev pub max_concurrent_scans : ℕ
max_concurrent_scans = 2

pub record Workspace : Type 0 where
  pub path : String
  pub generation : ℕ
  pub running : Bool
  pub pending : Bool
  pub published : List String

abbrev pub Workspaces : Type 0
Workspaces = List (String × Workspace)

-- `u64::saturating_add(1)`
unfoldable pub saturating_succ : ℕ → ℕ
saturating_succ n = min (n + 1) 18446744073709551615

abbrev pub is_running : String × Workspace → Bool
is_running (_, w) = w.running

abbrev pub is_waiting : String × Workspace → Bool
is_waiting (_, w) = w.pending && not w.running

unfoldable pub running : Workspaces → ℕ
running workspaces = count is_running workspaces

-- The workspace that `or_insert_with` makes.
abbrev pub fresh_workspace : String → Workspace
fresh_workspace root = record {
  path = root;
  generation = 0;
  running = false;
  pending = false;
  published = List.[];
}

-- The entry of `root` after its generation was bumped.
unfoldable pub bumped : Workspaces → String → Workspace
bumped workspaces root =
    let w = unwrap_or (lookup root workspaces) (fresh_workspace root) in
    record w { generation = saturating_succ w.generation }

unfoldable pub mark_dirty : Workspaces → String → Workspaces × Option ℕ
mark_dirty workspaces root =
    let w = bumped workspaces root in
    if w.running || leb max_concurrent_scans (running workspaces)
    then (insert root (record w { pending = true }) workspaces, none)
    else (insert root (record w { running = true }) workspaces, some w.generation)

-- The order of the map's keys.
abbrev pub by_path : Workspaces → Workspaces
by_path workspaces = sort (λ (a, _) (b, _). path_before a b) workspaces

unfoldable pub take_pending : Workspaces → Workspaces × Option (String × ℕ)
take_pending workspaces =
    if leb max_concurrent_scans (running workspaces)
    then (workspaces, none)
    else elim (find is_waiting (by_path workspaces)) [
      | none ↦ (workspaces, none)
      | some (key, w) ↦ (
        insert key (record w { pending = false; running = true }) workspaces,
        some (w.path, w.generation),
      )
    ]
