-- ===== src/Gate/Samples.antt =====
-- Three turns of the gate on a report with one dead symbol and three smells.
use sensez.Prelude.{
  ℕ, ◌+◌, ◌≤◌, ◌≡◌, refl, String, true, false, not, ◌&&◌, ◌||◌, some, List, [], ◌∷◌, length, lookup,
  contains, unwrap_or, string_eq, if◌then◌else◌, IsKeyed, ◌==◌, insert, remove, add,
}
use sensez.Report.{finding_count}
use sensez.Report.Example.{report}
use sensez.Brainz.GateMemory.{finding_keys}
use sensez.Gate.Repeats
use sensez.Gate.Repeats.{
  RepeatState, visit, repeat_or_defer, suppress_repeated, retain_allowed, defer_expiry_secs,
}
use sensez.Gate.Repeats.Status.{status_of, turn, visit-turn}
use sensez.Gate.Repeats.Lifetime.{shown_times, left, shown_times-left}
use sensez.Gate.Repeats.Counting.{suppress_repeated-count}
use sensez.Gate.State.{ScopeState, GateState, fresh_scope, fresh_repeats, recall, triage, update}
use sensez.Gate.State.Memory.{recall_decides}
use sensez.Gate.State.Scopes.{alive, update_scopes}
use sensez.Gate.State.Turn.{triage_twice}

abbrev digest : List String → ℕ
digest parts = length parts

abbrev k : String
k = "k"

abbrev j : String
j = "j"

abbrev t : String
t = "t"

abbrev scope : String
scope = "s"

-- Shown once, then deferred, then shown at the expiry, then deferred for good.
abbrev visits : List (ℕ × String)
visits = (10, "k") ∷ (11, "k") ∷ (259211, "k") ∷ (259212, "k") ∷ (999999, "k") ∷ []

shown_times-test : shown_times 1 "k" visits fresh_repeats ≡ 2
unfolding shown_times visit repeat_or_defer lookup insert remove add contains Repeats.saturating_add
shown_times-test = refl

shown_times-left_example :
    shown_times 1 "k" visits fresh_repeats ≤ left 1 (status_of "k" fresh_repeats)
shown_times-left_example = shown_times-left 1 "k" visits fresh_repeats

visit-turn_example :
    ((visit 1 10 k fresh_repeats).1 ≡ (turn 1 10 (status_of k fresh_repeats)).1)
    × (status_of j (visit 1 10 k fresh_repeats).0
        ≡ (if k == j then (turn 1 10 (status_of k fresh_repeats)).0 else status_of j fresh_repeats))
visit-turn_example = visit-turn 1 10 k j fresh_repeats

suppress_repeated-count_example :
    let (shown, _, deferred) = suppress_repeated fresh_repeats report 2 10 in
    finding_count shown + deferred ≡ finding_count report
suppress_repeated-count_example = suppress_repeated-count fresh_repeats report 2 10

abbrev blocked_one : ScopeState
blocked_one = record fresh_scope { blocked = "3" ∷ "gone" ∷ [] }

recall_decides_example :
    let (s', pruned, reintroduced) = recall digest blocked_one report in
    let now = contains "gone" (finding_keys digest report) in
    (contains "gone" s'.blocked ≡ (contains "gone" blocked_one.blocked && now))
    × (contains "gone" s'.resolved ≡ (
        (contains "gone" blocked_one.resolved || contains "gone" blocked_one.blocked) && not now))
    × (contains "gone" reintroduced ≡ (contains "gone" blocked_one.resolved && now))
    × (contains "gone" (finding_keys digest pruned)
        ≡ (now && not (contains "gone" blocked_one.blocked)))
recall_decides_example = recall_decides digest blocked_one report "gone"

triage_twice_example :
    let (s', shown, _, _) = triage digest fresh_scope report "main" 2 10 in
    let (_, shown', _, _) = triage digest s' report "main" 2 20 in
    ((contains "3" s'.blocked && contains "3" s'.resolved) ≡ false)
    × ((contains "3" (finding_keys digest shown) && contains "3" (finding_keys digest shown'))
        ≡ false)
triage_twice_example = triage_twice digest fresh_scope report report "main" "main" 2 10 2 20 "3"

abbrev stored : GateState
stored =
    ("s", record fresh_scope { updated = 5 }) ∷ ("t", record fresh_scope { updated = 900000 }) ∷ []

stored-IsKeyed : IsKeyed stored
unfolding lookup
stored-IsKeyed = (refl, (refl, tt))

abbrev recount : ScopeState → ScopeState × ℕ
recount s = (s, s.updated)

update_scopes_example :
    let entry = record (unwrap_or (alive 900010 t stored) fresh_scope) { updated = 900010 } in
    let (written, result) = update true (some stored) (some t) 900010 recount in
    (result ≡ (recount entry).1)
    × (lookup scope (unwrap_or written [])
        ≡ (if t == scope then some (recount entry).0 else alive 900010 scope stored))
update_scopes_example = update_scopes stored (some t) 900010 recount scope stored-IsKeyed
