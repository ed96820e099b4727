-- ===== src/Brainz/Events/Totals.antt =====
-- src/brainz/events/totals.rs: the running aggregates, folded one event at a time. Sums of numbers that
-- an event carries wrap around; counters that move by one are taken not to reach 2 ^ 64.
use sensez.Prelude.{
  ℕ, ◌+◌, ◌-◌, max, String, Option, none, some, List, [], ◌∷◌, if◌then◌else◌, upsert, string_eq,
  nat_eq, ◌==◌,
}
use sensez.Brainz.Verdict.{verdict_eq}
use sensez.Brainz.Events.{
  Resolved, merge, wrapping_add, OutcomeKey, outcome_key_eq, Diff, ScanEvent, SearchEvent, Event,
  auto_resolve, gate_block, outcome, timestamp, origin_name,
}

pub record Totals : Type 0 where
  pub first_used : ℕ
  pub last_used : ℕ
  pub scans : ℕ
  pub searches : ℕ
  pub first_searches : ℕ
  pub searches_zero_hit : ℕ
  pub outcomes : List (OutcomeKey × ℕ)
  pub est_context_bytes_saved : ℕ
  pub reported_by_detector : List (String × ℕ)
  pub resolved_by_detector : Diff
  pub reintroduced_by_detector : Diff
  pub scans_by_origin : List (String × ℕ)
  pub scan_ms_total : ℕ
  pub scan_files_total : ℕ
  pub scan_loc_total : ℕ
  pub config_changes : ℕ
  pub last_config_hash : Option ℕ
  pub gate_blocks : ℕ

abbrev pub nothing_resolved : Resolved
nothing_resolved = record { count = 0; secs_total = 0 }

-- One loop of `absorb_diff`.
unfoldable pub merge_all : Diff → Diff → Diff
merge_all [] m = m
merge_all ((detector, r) ∷ diff) m =
    merge_all diff (upsert detector nothing_resolved (λ t. merge t r) m)

unfoldable pub absorb_diff : Diff → Diff → Totals → Totals
absorb_diff resolved reintroduced t = record t {
  resolved_by_detector = merge_all resolved t.resolved_by_detector;
  reintroduced_by_detector = merge_all reintroduced t.reintroduced_by_detector;
}

-- A second hash that differs from the one before counts as a change.
abbrev pub changed : Option ℕ → ℕ → ℕ
changed none hash = 0
changed (some prev) hash = if prev == hash then 0 else 1

unfoldable pub absorb_config : Option ℕ → Totals → Totals
absorb_config none t = t
absorb_config (some hash) t = record t {
  config_changes = t.config_changes + changed t.last_config_hash hash;
  last_config_hash = some hash;
}

unfoldable pub absorb_scan : ScanEvent → Totals → Totals
unfolding absorb_diff absorb_config origin_name
absorb_scan e t = absorb_diff e.resolved e.reintroduced (
    absorb_config e.config_hash (record t {
      scans = t.scans + 1;
      scan_ms_total = wrapping_add t.scan_ms_total e.ms;
      scan_files_total = wrapping_add t.scan_files_total e.files;
      scan_loc_total = wrapping_add t.scan_loc_total e.loc;
      scans_by_origin = upsert (origin_name e.origin) 0 (λ n. n + 1) t.scans_by_origin;
      reported_by_detector = e.reported;
    }))

unfoldable pub absorb_search : SearchEvent → Totals → Totals
absorb_search e t = record t {
  searches = t.searches + 1;
  first_searches = if e.first_on_repo then t.first_searches + 1 else t.first_searches;
  searches_zero_hit = if e.hits == 0 then t.searches_zero_hit + 1 else t.searches_zero_hit;
  est_context_bytes_saved =
      wrapping_add t.est_context_bytes_saved (e.file_bytes_referenced - e.bytes_returned);
}

-- The `match` of `absorb`.
unfoldable pub absorb_kind : Event → Totals → Totals
unfolding absorb_scan absorb_search absorb_diff
absorb_kind (Event.scan e) t = absorb_scan e t
absorb_kind (Event.search e) t = absorb_search e t
absorb_kind (auto_resolve _ resolved reintroduced) t = absorb_diff resolved reintroduced t
absorb_kind (gate_block _ _) t = record t { gate_blocks = t.gate_blocks + 1 }
absorb_kind (outcome _ detector verdict count) t = record t {
  outcomes = upsert (verdict, detector) 0 (λ n. wrapping_add n count) t.outcomes;
}

unfoldable pub absorb : Event → Totals → Totals
unfolding absorb_kind timestamp
absorb event t = absorb_kind event (record t {
  first_used = if t.first_used == 0 then timestamp event else t.first_used;
  last_used = max t.last_used (timestamp event);
})

unfoldable pub absorb_all : List Event → Totals → Totals
absorb_all [] t = t
absorb_all (event ∷ events) t = absorb_all events (absorb event t)
