-- ===== src/Lsp/Server/Soundness.antt =====
-- The invariant of the main loop's state: no more scans than the capacity, one thread for each
-- running workspace, and no scan whose result would be out of date without another one due.
pub mod Flights
pub mod Steps
pub mod Operations
pub mod Reachable
use sensez.Prelude.{
  ℕ, ◌≤◌, ◌≡◌, String, true, false, Option, none, some, List, ◌⊎◌, lookup, count, string_eq, ◌==◌,
  IsKeyed, All,
}
use sensez.Lsp.Schedule.{Workspace, Workspaces, running, max_concurrent_scans}
use sensez.Lsp.Schedule.Counting.{runs}
use sensez.Lsp.Server.{Scans}

-- The threads that scan `root`.
abbrev pub flights : String → List (String × ℕ) → ℕ
flights root fl = count (λ (k, _). k == root) fl

-- A scan of generation `g` shows the newest state of its workspace, or another one is due.
abbrev pub IsFresh : Option Workspace → ℕ → Type 0
IsFresh none g = ⊥
IsFresh (some w) g = (g ≡ w.generation) ⊎ (w.pending ≡ true)

abbrev pub AllFresh : Workspaces → List (String × ℕ) → Type 0
AllFresh m fl = All (λ (k, g). IsFresh (lookup k m) g) fl

pub record IsTracked (m : Workspaces) (fl : List (String × ℕ)) : Type 0 where
  pub keyed : IsKeyed m
  pub named : (k : String) (w : Workspace) → lookup k m ≡ some w → w.path ≡ k
  pub capacity : running m ≤ max_concurrent_scans
  pub flown : (k : String) → flights k fl ≡ runs (lookup k m)
  pub fresh : AllFresh m fl

-- A workspace waits only while every slot is taken.
abbrev pub NoStall : Workspaces → Type 0
NoStall m =
    (k : String) (w : Workspace)
    → lookup k m ≡ some w
    → w.pending ≡ true
    → w.running ≡ false
    → running m ≡ max_concurrent_scans

pub record IsSound {D H : Type 0} (s : Scans D H) : Type 0 where
  pub tracked : IsTracked s.workspaces s.in_flight
  pub no_stall : NoStall s.workspaces
