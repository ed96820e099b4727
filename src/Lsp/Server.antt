-- ===== src/Lsp/Server.antt =====
-- src/lsp/server.rs: the main loop's state and its handlers. Scan threads are the list
-- `in_flight` of what was spawned and has not come back; messages to the client are kept in the
-- order in which they are sent. `D` is a diagnostic and `H` a health summary.
pub mod Soundness
pub mod View
mod Samples
use sensez.Prelude.{
  ℕ, zero, suc, ◌≡◌, String, Bool, true, false, not, ◌&&◌, Option, none, some, List, [], ◌∷◌, ◌++◌,
  map, if◌then◌else◌, lookup, insert, contains, retain, string_eq, nat_eq, ◌==◌,
}
use sensez.Lsp.Schedule.{
  Workspace, Workspaces, by_path, mark_dirty, take_pending, running, max_concurrent_scans,
}

pub data Message (D H : Type 0) : Type 0 where
  status : (root state : String) → Message D H
  info : String → Message D H
  log : (root error : String) → Message D H
  health : H → Message D H
  publish : (uri : String) → List D → Message D H

pub record ScanResult (D H : Type 0) : Type 0 where
  pub root : String
  pub generation : ℕ
  pub diagnostics : List (String × List D)
  pub summary : Option H
  pub error : Option String
  pub notice : Option String

pub record Scans (D H : Type 0) : Type 0 where
  pub workspaces : Workspaces
  pub in_flight : List (String × ℕ)
  pub sent : List (Message D H)

abbrev pub uris {ℓ} : {A : Type ℓ} → List (String × A) → List String
uris diagnostics = map (λ (uri, _). uri) diagnostics

-- The thread that sent the result is gone: one entry leaves `in_flight`.
unfoldable pub land : String → ℕ → List (String × ℕ) → List (String × ℕ)
land root generation [] = []
land root generation ((k, g) ∷ fl) =
    if k == root && g == generation then fl else (k, g) ∷ land root generation fl

module _ {D H : Type 0} where
  -- `send_status` and `scan::spawn`
  unfoldable pub spawn : String → ℕ → Scans D H → Scans D H
  spawn root generation s = record s {
    in_flight = (root, generation) ∷ s.in_flight;
    sent = s.sent ++ status root "scanning" ∷ [];
  }

  unfoldable pub queue : String → Scans D H → Scans D H
  unfolding spawn
  queue root s =
      let (workspaces, started) = mark_dirty s.workspaces root in
      let s' = record s { workspaces = workspaces } in
      elim started [ none ↦ s' | some generation ↦ spawn root generation s' ]

  unfoldable pub queue_all : List String → Scans D H → Scans D H
  queue_all [] s = s
  queue_all (root ∷ roots) s = queue_all roots (queue root s)

  unfoldable pub rescan_all : Scans D H → Scans D H
  rescan_all s = queue_all (map (λ (root, _). root) (by_path s.workspaces)) s

  -- The `while let` of `launch_pending`; `none` means that the fuel ran out.
  unfoldable pub launch : ℕ → Scans D H → Option (Scans D H)
  unfolding spawn
  launch zero s = none
  launch (suc fuel) s =
      let (workspaces, taken) = take_pending s.workspaces in
      elim taken [
        | none ↦ some s
        | some (path, generation) ↦
            launch fuel (spawn path generation (record s { workspaces = workspaces }))
      ]

  unfoldable pub launch_pending : Scans D H → Option (Scans D H)
  launch_pending = launch (suc max_concurrent_scans)

  abbrev pub notices : Option String → List (Message D H)
  notices none = []
  notices (some text) = info text ∷ []

  abbrev pub summaries : Option H → List (Message D H)
  summaries none = []
  summaries (some h) = health h ∷ []

  abbrev pub publish_all : List (String × List D) → List (Message D H)
  publish_all [] = []
  publish_all ((uri, shown) ∷ rest) = publish uri shown ∷ publish_all rest

  abbrev pub clear_all : List String → List (Message D H)
  clear_all [] = []
  clear_all (uri ∷ rest) = publish uri [] ∷ clear_all rest

  -- The messages of a result that is current and has no error.
  unfoldable pub report_messages : ScanResult D H → List String → List (Message D H)
  report_messages r published =
      notices r.notice
      ++ (clear_all (retain (λ uri. not (contains uri (uris r.diagnostics))) published)
          ++ (publish_all r.diagnostics ++ (summaries r.summary ++ status r.root "idle" ∷ [])))

  unfoldable pub error_messages : ScanResult D H → String → List (Message D H)
  error_messages r e =
      notices r.notice ++ (summaries r.summary ++ status r.root "error" ∷ log r.root e ∷ [])

  -- What becomes of the workspace that the result is for, and what is sent.
  unfoldable pub settle : ScanResult D H → Workspace → Workspace × List (Message D H)
  settle r w =
      let stopped = record w { running = false } in
      if r.generation == w.generation
      then elim r.error [
        | some e ↦ (stopped, error_messages r e)
        | none ↦ (record stopped { published = uris r.diagnostics }, report_messages r w.published)
      ]
      else (stopped, [])

  unfoldable pub apply_result : ScanResult D H → Scans D H → Scans D H
  unfolding settle
  apply_result r s = elim (lookup r.root s.workspaces) [
    | none ↦ s
    | some w ↦
        let (w', messages) = settle r w in
        record s { workspaces = insert r.root w' s.workspaces; sent = s.sent ++ messages }
  ]

  -- One round of the loop of `run` on a completed scan.
  unfoldable pub receive : ScanResult D H → Scans D H → Option (Scans D H)
  unfolding apply_result launch_pending
  receive r s =
      launch_pending
        (apply_result r (record s { in_flight = land r.root r.generation s.in_flight }))
