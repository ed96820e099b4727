-- ===== src/Lsp/Server/Soundness/Operations.antt =====
-- `queue`, the loop of `launch_pending`, and the round for a completed scan.
use sensez.Prelude.{
  ℕ, zero, suc, ◌+◌, ◌≤◌, ◌<◌, ◌≡◌, refl, ap, sym, ◌∙◌, String, true, false, Option, none, some,
  List, [], ◌∷◌, arith, lookup, insert, string_eq, lookup-insert, inl, inr, ==_self, Bool-cases,
  Option-cases, leb, ◌||◌, ◌⊎◌, ◌++◌, find, find-none,
}
use mathlib.Core.Path.{subst}
use sensez.Lsp.Schedule.{
  Workspace, Workspaces, running, max_concurrent_scans, mark_dirty, bumped, take_pending,
  is_waiting,
}
use sensez.Lsp.Schedule.Counting.{runs, running-insert}
use sensez.Lsp.Schedule.Taking.{take_pending-cases}
use sensez.Lsp.Server.{
  Scans, ScanResult, land, queue, queue_all, spawn, launch, launch_pending, receive, settle,
  apply_result,
}
use sensez.Lsp.Server.Soundness.{IsTracked, NoStall, IsSound}
use sensez.Lsp.Server.Soundness.Flights.{flies, flights-land}
use sensez.Lsp.Server.Soundness.Steps.{start-IsTracked, hold-IsTracked, stop-IsTracked}

bumped_same :
    (m : Workspaces) (fl : List (String × ℕ)) (root : String)
    → IsTracked m fl
    → ((bumped m root).path ≡ root) × (runs (some (bumped m root)) ≡ runs (lookup root m))
unfolding bumped
bumped_same m fl root t = elim (Option-cases (lookup root m)) [
  | inl absent ↦ rw absent (refl, refl)
  | inr (w, present) ↦ rw present (t.named root w present, refl)
]

NoStall-of_none :
    (m : Workspaces) (fl : List (String × ℕ))
    → IsTracked m fl
    → (find is_waiting m ≡ none) ⊎ (max_concurrent_scans ≤ running m)
    → NoStall m
NoStall-of_none m fl t (inl nothing) k w found pend idle =
    ground (arith, find-none is_waiting m k w nothing found)
NoStall-of_none m fl t (inr full) k w found pend idle = omega (arith, t.capacity)

module _ {D H : Type 0} where
  queue_eq :
      (root : String) (s : Scans D H) {m : Workspaces} {o : Option ℕ}
      → mark_dirty s.workspaces root ≡ (m, o)
      → queue root s ≡ (elim o [
        | none ↦ record s { workspaces = m }
        | some g ↦ spawn root g (record s { workspaces = m })
      ])
  unfolding queue
  queue_eq root s e = ground arith

  launch_eq :
      (fuel : ℕ) (s : Scans D H) {m : Workspaces} {path : String} {g : ℕ}
      → take_pending s.workspaces ≡ (m, some (path, g))
      → launch (suc fuel) s ≡ launch fuel (spawn path g (record s { workspaces = m }))
  unfolding launch
  launch_eq fuel s e = ground arith

  pub queue-IsSound : (root : String) (s : Scans D H) → IsSound s → IsSound (queue root s)
  unfolding mark_dirty spawn
  queue-IsSound root s h =
      let m = s.workspaces in
      let w = bumped m root in
      let (path, same) = bumped_same m s.in_flight root h.tracked in
      let held = record w { pending = true } in
      let started = record w { running = true } in
      let tracked = h.tracked in
      elim (Bool-cases (w.running || leb max_concurrent_scans (running m))) [
        | inl waits ↦
            rw (queue_eq root s {m = insert root held m} {o = none} (rw (waits, mark_dirty)))
              (record {
                tracked = hold-IsTracked tracked root held path same refl;
                no_stall = λ j v found pend idle. ground (
                  arith,
                  h.no_stall j v,
                  lookup-insert j root held m,
                  running-insert root held m,
                  tracked.capacity,
                );
              })
        | inr free ↦
            rw
              (queue_eq root s {m = insert root started m} {o = some w.generation}
                (rw (free, mark_dirty)))
              (record {
                tracked =
                    start-IsTracked tracked root started path (ground arith) (ground arith) refl;
                no_stall = λ j v found pend idle. ground (
                  arith,
                  h.no_stall j v,
                  lookup-insert j root started m,
                  running-insert root started m,
                );
              })
      ]

  pub queue_all-IsSound :
      (roots : List String) (s : Scans D H) → IsSound s → IsSound (queue_all roots s)
  unfolding queue_all
  queue_all-IsSound [] s h = h
  queue_all-IsSound (root ∷ roots) s h =
      queue_all-IsSound roots (queue root s) (queue-IsSound root s h)

  -- The loop ends by its test once the fuel exceeds the free slots.
  pub launch-IsSound :
      (fuel : ℕ) (s : Scans D H)
      → IsTracked s.workspaces s.in_flight
      → max_concurrent_scans < fuel + running s.workspaces
      → (t : Scans D H) × (launch fuel s ≡ some t) × IsSound t
  unfolding launch spawn
  launch-IsSound zero s t room = absurd (omega (arith, t.capacity))
  launch-IsSound (suc fuel) s t room = elim (take_pending-cases s.workspaces t.keyed) [
    | inl (idle, why) ↦ (
      s,
      rw (idle, launch),
      record { tracked = t; no_stall = NoStall-of_none s.workspaces s.in_flight t why },
    )
    | inr taken ↦
        let w = record taken.workspace { pending = false; running = true } in
        let path = t.named taken.key taken.workspace taken.found in
        let tracked =
          start-IsTracked t taken.key w path (ground (arith, taken.found, taken.idle)) taken.room
            refl in
        let next =
          spawn taken.workspace.path w.generation
            (record s { workspaces = insert taken.key w s.workspaces }) in
        let (end, ends, sound) =
          launch-IsSound fuel next
            (subst
              (λ k. IsTracked (insert taken.key w s.workspaces) ((k, w.generation) ∷ s.in_flight))
              (sym path) tracked)
            (ground (arith, running-insert taken.key w s.workspaces, taken.found, taken.idle)) in
        (end, launch_eq fuel s taken.result ∙ ends, sound)
  ]

  -- The fuel of `launch_pending` is enough.
  pub launch_pending-IsSound :
      (s : Scans D H)
      → IsTracked s.workspaces s.in_flight
      → (t : Scans D H) × (launch_pending s ≡ some t) × IsSound t
  unfolding launch_pending
  launch_pending-IsSound s t = launch-IsSound (suc max_concurrent_scans) s t (omega arith)

  lands :
      (r : ScanResult D H) (s : Scans D H)
      → IsSound s
      → flies r.root r.generation s.in_flight ≡ true
      → (w : Workspace) × (lookup r.root s.workspaces ≡ some w)
  lands r s h flew = elim (Option-cases (lookup r.root s.workspaces)) [
    | inr known ↦ known
    | inl absent ↦ absurd (
        ground (
          arith,
          absent,
          h.tracked.flown r.root,
          ==_self r.root,
          flights-land r.root r.root r.generation s.in_flight flew,
        ))
  ]

  settle_path :
      (r : ScanResult D H) (w : Workspace)
      → ((settle r w).0.path ≡ w.path) × ((settle r w).0.running ≡ false)
  unfolding settle
  settle_path r w = (ground arith, ground arith)

  pub apply_result_eq :
      (r : ScanResult D H) (s : Scans D H) {w : Workspace}
      → lookup r.root s.workspaces ≡ some w
      → apply_result r s ≡ record s {
        workspaces = insert r.root (settle r w).0 s.workspaces;
        sent = s.sent ++ (settle r w).1;
      }
  unfolding apply_result
  apply_result_eq r s e = rw (e, apply_result)

  -- A scan that is in flight comes back: the loop launches what waits, and the state is sound.
  pub receive-IsSound :
      (r : ScanResult D H) (s : Scans D H)
      → IsSound s
      → flies r.root r.generation s.in_flight ≡ true
      → (t : Scans D H) × (receive r s ≡ some t) × IsSound t
  unfolding receive
  receive-IsSound r s h flew =
      let (w, known) = lands r s h flew in
      let (same_path, off) = settle_path r w in
      let m = insert r.root (settle r w).0 s.workspaces in
      let fl = land r.root r.generation s.in_flight in
      let tracked =
        stop-IsTracked h.tracked r.root (settle r w).0 (same_path ∙ h.tracked.named r.root w known)
          r.generation flew off in
      let after : Scans D H = record {
        workspaces = m;
        in_flight = fl;
        sent = s.sent ++ (settle r w).1;
      } in
      let (end, ends, sound) = launch_pending-IsSound after tracked in
      (end, ap launch_pending (apply_result_eq r (record s { in_flight = fl }) known) ∙ ends, sound)
