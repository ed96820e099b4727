-- ===== src/Lsp/Schedule/Counting.antt =====
-- Counting running workspaces across a write to the map.
use sensez.Prelude.{
  ℕ, ◌+◌, ◌≡◌, String, Option, none, some, [], ◌∷◌, arith, count, lookup, insert, string_eq,
  if◌then◌else◌,
}
use sensez.Lsp.Schedule.{Workspace, Workspaces, running}

-- Whether an entry of the map counts as a running scan: 1 or 0.
abbrev pub runs : Option Workspace → ℕ
runs none = 0
runs (some w) = if w.running then 1 else 0

pub running-insert :
    (k : String) (v : Workspace) (m : Workspaces)
    → running (insert k v m) + runs (lookup k m) ≡ running m + runs (some v)
unfolding running insert lookup count
running-insert k v [] = ground arith
running-insert k v ((j, w) ∷ m) = ground (arith, running-insert k v m)
