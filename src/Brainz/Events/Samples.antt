-- ===== src/Brainz/Events/Samples.antt =====
-- A log of a scan, a search and a verdict.
use sensez.Prelude.{◌+◌, ◌≡◌, refl, true, none, some, List, [], ◌∷◌, lookup, string_eq, arith}
use sensez.Brainz.Verdict
use sensez.Brainz.Verdict.{TriageVerdict}
use sensez.Brainz.Events.{Event, ScanEvent, SearchEvent, outcome, gate}
use sensez.Brainz.Events.Totals.{Totals, absorb_all}
use sensez.Brainz.Events.Folding.{
  held_count, held_secs, listed_count, listed_secs, resolved_of, log_count, log_secs, sum_values,
  IsBalanced, absorb_all-resolved, absorb_all-IsBalanced,
}

abbrev nothing : Totals
nothing = record {
  first_used = 0;
  last_used = 0;
  scans = 0;
  searches = 0;
  first_searches = 0;
  searches_zero_hit = 0;
  outcomes = [];
  est_context_bytes_saved = 0;
  reported_by_detector = [];
  resolved_by_detector = [];
  reintroduced_by_detector = [];
  scans_by_origin = [];
  scan_ms_total = 0;
  scan_files_total = 0;
  scan_loc_total = 0;
  config_changes = 0;
  last_config_hash = none;
  gate_blocks = 0;
}

abbrev gate_scan : ScanEvent
gate_scan = record {
  ts = 10;
  ms = 3;
  origin = gate;
  reported = ("cycles", 2) ∷ [];
  resolved = ("cycles", record { count = 1; secs_total = 60 }) ∷ [];
  reintroduced = [];
  files = 4;
  loc = 200;
  config_hash = some 7;
}

abbrev empty_search : SearchEvent
empty_search = record {
  ts = 20;
  hits = 0;
  first_on_repo = true;
  bytes_returned = 5;
  file_bytes_referenced = 3;
}

abbrev events : List Event
events =
    Event.scan gate_scan
    ∷ Event.search empty_search
    ∷ outcome 30 "cycles" Verdict.false_positive 2
    ∷ []

log-test : (log_count "cycles" events ≡ 1) × (log_secs "cycles" events ≡ 60)
unfolding log_count log_secs listed_count listed_secs resolved_of
log-test = (refl, refl)

absorb_all-resolved_example :
    let after = absorb_all events nothing in
    (held_count "cycles" after.resolved_by_detector ≡ 0 + log_count "cycles" events)
    × (held_secs "cycles" after.resolved_by_detector ≡ 0 + log_secs "cycles" events)
unfolding lookup
absorb_all-resolved_example =
    absorb_all-resolved "cycles" events nothing (omega (arith, log-test.0))
      (omega (arith, log-test.1))

nothing-IsBalanced : IsBalanced nothing
unfolding sum_values
nothing-IsBalanced = record { by_origin = refl; first = omega arith; zero_hit = omega arith }

absorb_all-IsBalanced_example : IsBalanced (absorb_all events nothing)
absorb_all-IsBalanced_example = absorb_all-IsBalanced events nothing nothing-IsBalanced
