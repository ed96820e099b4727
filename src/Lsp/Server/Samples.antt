-- ===== src/Lsp/Server/Samples.antt =====
-- Three workspaces over two slots: the third waits for the first scan to come back.
use sensez.Prelude.{
  ℕ, ◌≡◌, refl, String, true, false, none, some, List, [], ◌∷◌, IsKeyed, contains, lookup, find,
  count, insert, if◌then◌else◌, string_eq,
}
use sensez.Prelude.{sort, place, str_before, retain}
use sensez.Paths.{path_before, comes_before, components, components_of, parts}
use sensez.Paths.Segments.{segments}
use sensez.Lsp.Schedule.{Workspace, mark_dirty, take_pending, bumped, running, saturating_succ}
use sensez.Lsp.Server.{
  ScanResult, Scans, Message, status, publish, queue, queue_all, launch_pending, launch, receive,
  apply_result, settle, land, report_messages, spawn,
}
use sensez.Lsp.Server.View.{shown, over, apply_result-shown}
use sensez.Lsp.Server.Soundness.{IsSound}
use sensez.Lsp.Server.Soundness.Flights.{flies}
use sensez.Lsp.Server.Soundness.Reachable.{
  start, here, next, change, Reach-IsSound, receive_returns,
}

abbrev workspace : String → ℕ → Workspace
workspace path generation = record {
  path = path;
  generation = generation;
  running = true;
  pending = false;
  published = [];
}

abbrev scanning : List (Message String String)
scanning = status "a" "scanning" ∷ status "b" "scanning" ∷ []

abbrev started : Scans String String
started = record {
  workspaces =
      ("a", workspace "a" 1)
      ∷ ("b", workspace "b" 1)
      ∷ ("c", record (workspace "c" 1) { running = false; pending = true })
      ∷ [];
  in_flight = ("b", 1) ∷ ("a", 1) ∷ [];
  sent = scanning;
}

abbrev result : ScanResult String String
result = record {
  root = "a";
  generation = 1;
  diagnostics = ("x.py", "long" ∷ []) ∷ [];
  summary = none;
  error = none;
  notice = none;
}

start-three : start ("a" ∷ "b" ∷ "c" ∷ []) ≡ some started
unfolding start queue_all queue spawn mark_dirty bumped saturating_succ launch_pending launch
    take_pending sort place path_before comes_before components components_of segments parts
    str_before retain running lookup insert count find
start-three = refl

Reach-IsSound_example : IsSound (queue "a" started)
Reach-IsSound_example = Reach-IsSound ("a" ∷ "b" ∷ "c" ∷ []) start-three (next here (change "a"))

flies-result : flies "a" 1 started.in_flight ≡ true
unfolding flies sensez.Prelude.any
flies-result = refl

receive_returns_example : (u : Scans String String) × (receive result started ≡ some u) × IsSound u
receive_returns_example =
    receive_returns ("a" ∷ "b" ∷ "c" ∷ []) result start-three here flies-result

lookup-started : lookup "a" started.workspaces ≡ some (workspace "a" 1)
unfolding lookup
lookup-started = refl

keyed : IsKeyed result.diagnostics
unfolding lookup
keyed = (refl, tt)

apply_result-shown_example :
    shown "x.py" [] (apply_result result started).sent
    ≡ over result.diagnostics "x.py"
        (if contains {K = String} "x.py" [] then [] else shown "x.py" [] started.sent)
apply_result-shown_example =
    apply_result-shown result started (workspace "a" 1) "x.py" lookup-started refl refl keyed

-- The third workspace takes the slot of the scan that came back.
launch-third :
    (receive result started)
    ≡ some (record {
      workspaces =
          ("a", record (workspace "a" 1) { running = false; published = "x.py" ∷ [] })
          ∷ ("b", workspace "b" 1)
          ∷ ("c", workspace "c" 1)
          ∷ [];
      in_flight = ("c", 1) ∷ ("b", 1) ∷ [];
      sent =
          status "a" "scanning"
          ∷ status "b" "scanning"
          ∷ publish "x.py" ("long" ∷ [])
          ∷ status "a" "idle"
          ∷ status "c" "scanning"
          ∷ [];
    })
unfolding receive apply_result settle report_messages land queue spawn launch_pending launch
    take_pending sort place path_before comes_before components components_of segments parts
    str_before retain running lookup insert count find contains
launch-third = refl
