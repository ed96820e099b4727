-- ===== src/Lsp/Server/Soundness/Reachable.antt =====
-- The main loop as a step relation: notifications and completed scans in any order.
use mathlib.Core.Path.{subst}
use sensez.Prelude.{◌≡◌, refl, count, lookup, String, true, Option, some, List, [], arith}
use sensez.Lsp.Schedule.{running}
use sensez.Lsp.Server.{Scans, ScanResult, queue, queue_all, launch_pending, receive}
use sensez.Lsp.Server.Soundness.{IsSound}
use sensez.Lsp.Server.Soundness.Flights.{flies}
use sensez.Lsp.Server.Soundness.Operations.{
  queue-IsSound, queue_all-IsSound, launch_pending-IsSound, receive-IsSound,
}

module _ (D H : Type 0) where
  abbrev pub empty : Scans D H
  empty = record { workspaces = []; in_flight = []; sent = [] }

module _ {D H : Type 0} where
  -- The first lines of `run`.
  unfoldable pub start : List String → Option (Scans D H)
  start roots = launch_pending (queue_all roots (empty D H))

  pub data Step : Scans D H → Scans D H → Type 0 where
    change : {s : Scans D H} (root : String) → Step s (queue root s)
    complete :
        {s t : Scans D H} (r : ScanResult D H)
        → flies r.root r.generation s.in_flight ≡ true
        → receive r s ≡ some t
        → Step s t

  pub data Reach (s : Scans D H) : Scans D H → Type 0 where
    here : Reach s s
    next : {t u : Scans D H} → Reach s t → Step t u → Reach s u

  empty-IsSound : IsSound (empty D H)
  unfolding running count lookup
  empty-IsSound = record {
    tracked = record {
      keyed = tt;
      named = λ k w h. ground arith;
      capacity = omega arith;
      flown = λ k. refl;
      fresh = tt;
    };
    no_stall = λ k w h. ground arith;
  }

  start-IsSound : (roots : List String) {s : Scans D H} → start roots ≡ some s → IsSound s
  unfolding start
  start-IsSound roots {s = u} e =
      let (t, ends, sound) =
        launch_pending-IsSound (queue_all roots (empty D H))
          (queue_all-IsSound roots (empty D H) empty-IsSound).tracked in
      let same : t ≡ u = cc in subst (λ x. IsSound x) same sound

  Step-IsSound : {s t : Scans D H} → Step s t → IsSound s → IsSound t
  Step-IsSound (change {s} root) h = queue-IsSound root s h
  Step-IsSound (complete {s} {t = u} r flew e) h =
      let (t, ends, sound) = receive-IsSound r s h flew in
      let same : t ≡ u = cc in subst (λ x. IsSound x) same sound

  -- In every state that the main loop reaches, at most two scans run, each running workspace has
  -- exactly one thread and no other workspace has any, each thread scans the newest generation of
  -- its workspace or that workspace is marked for another scan, and a workspace that waits without
  -- running does so only while both slots are taken.
  pub Reach-IsSound :
      (roots : List String) {s t : Scans D H} → start roots ≡ some s → Reach s t → IsSound t
  Reach-IsSound roots e here = start-IsSound roots e
  Reach-IsSound roots e (next r st) = Step-IsSound st (Reach-IsSound roots e r)

  -- In every state that the main loop reaches, the result of a scan in flight is handled in
  -- full: the loop that launches waiting scans ends within its fuel, in a state where the bounds
  -- on scans and threads hold again.
  pub receive_returns :
      (roots : List String) {s t : Scans D H} (r : ScanResult D H)
      → start roots ≡ some s
      → Reach s t
      → flies r.root r.generation t.in_flight ≡ true
      → (u : Scans D H) × (receive r t ≡ some u) × IsSound u
  receive_returns roots {s} {t} r e reach flew =
      receive-IsSound r t (Reach-IsSound roots e reach) flew
