-- ===== src/Brainz/Events/Folding.antt =====
-- What the aggregates hold after a log of events.
use sensez.Prelude.{
  ℕ, ◌+◌, ◌^◌, ◌≤◌, ◌<◌, refl, ap, ◌∙◌, String, List, [], ◌∷◌, ◌≡◌, if◌then◌else◌, lookup, insert,
  upsert, lookup-upsert, unwrap_or, string_eq, ◌==◌, arith,
}
use sensez.Brainz.Verdict.{verdict_eq}
use sensez.Brainz.Events.{
  Resolved, merge, wrapping_add, OutcomeKey, outcome_key_eq, Diff, Event, auto_resolve, gate_block,
  outcome, origin_name,
}
use sensez.Brainz.Events.Totals.{Totals, nothing_resolved, merge_all, absorb, absorb_all}

abbrev pub held : String → Diff → Resolved
held detector m = unwrap_or (lookup detector m) nothing_resolved

-- The findings that a diff lists for a detector, added up, and the seconds.
unfoldable pub listed_count : String → Diff → ℕ
listed_count detector [] = 0
listed_count detector ((d, r) ∷ diff) =
    (if d == detector then r.count else 0) + listed_count detector diff

unfoldable pub listed_secs : String → Diff → ℕ
listed_secs detector [] = 0
listed_secs detector ((d, r) ∷ diff) =
    (if d == detector then r.secs_total else 0) + listed_secs detector diff

abbrev pub held_count : String → Diff → ℕ
held_count detector m = let r = held detector m in r.count

abbrev pub held_secs : String → Diff → ℕ
held_secs detector m = let r = held detector m in r.secs_total

merge_all-count :
    (detector : String) (diff m : Diff)
    → held_count detector m + listed_count detector diff < 2 ^ 64
    → held_count detector (merge_all diff m) ≡ held_count detector m + listed_count detector diff
unfolding merge_all listed_count merge
merge_all-count detector [] m h = omega arith
merge_all-count detector ((d, r) ∷ diff) m h =
    let m' = upsert d nothing_resolved (λ t. merge t r) m in
    ground (
      arith,
      merge_all-count detector diff m',
      string_eq.decides d detector,
      lookup-upsert detector d nothing_resolved (λ t. merge t r) m,
      same d detector m,
    )
  where
    same : (a b : String) (m : Diff) → a ≡ b → lookup a m ≡ lookup b m
    same a b m p = ap (λ x. lookup x m) p

merge_all-secs :
    (detector : String) (diff m : Diff)
    → held_secs detector m + listed_secs detector diff < 2 ^ 64
    → held_secs detector (merge_all diff m) ≡ held_secs detector m + listed_secs detector diff
unfolding merge_all listed_secs merge
merge_all-secs detector [] m h = omega arith
merge_all-secs detector ((d, r) ∷ diff) m h =
    let m' = upsert d nothing_resolved (λ t. merge t r) m in
    ground (
      arith,
      merge_all-secs detector diff m',
      string_eq.decides d detector,
      lookup-upsert detector d nothing_resolved (λ t. merge t r) m,
      same d detector m,
    )
  where
    same : (a b : String) (m : Diff) → a ≡ b → lookup a m ≡ lookup b m
    same a b m p = ap (λ x. lookup x m) p

-- The diff of resolved findings that an event carries.
unfoldable pub resolved_of : Event → Diff
resolved_of (Event.scan e) = e.resolved
resolved_of (auto_resolve _ resolved _) = resolved
resolved_of (Event.search _) = []
resolved_of (gate_block _ _) = []
resolved_of (outcome _ _ _ _) = []

-- The findings of a detector that the log says were resolved, and the seconds that took.
unfoldable pub log_count : String → List Event → ℕ
log_count detector [] = 0
log_count detector (event ∷ events) =
    listed_count detector (resolved_of event) + log_count detector events

unfoldable pub log_secs : String → List Event → ℕ
log_secs detector [] = 0
log_secs detector (event ∷ events) =
    listed_secs detector (resolved_of event) + log_secs detector events

absorb-resolved_by_detector :
    (event : Event) (t : Totals)
    → (absorb event t).resolved_by_detector ≡ merge_all (resolved_of event) t.resolved_by_detector
unfolding absorb resolved_of merge_all
absorb-resolved_by_detector (Event.scan e) t = ground arith
absorb-resolved_by_detector (Event.search e) t = refl
absorb-resolved_by_detector (auto_resolve ts resolved reintroduced) t = refl
absorb-resolved_by_detector (gate_block ts f) t = refl
absorb-resolved_by_detector (outcome ts d v n) t = refl

absorb_all-count :
    (detector : String) (events : List Event) (t : Totals)
    → held_count detector t.resolved_by_detector + log_count detector events < 2 ^ 64
    → held_count detector (absorb_all events t).resolved_by_detector
      ≡ held_count detector t.resolved_by_detector + log_count detector events
unfolding absorb_all log_count
absorb_all-count detector [] t h = omega arith
absorb_all-count detector (event ∷ events) t h =
    let one : held_count detector (absorb event t).resolved_by_detector
        ≡ held_count detector t.resolved_by_detector + listed_count detector (resolved_of event) =
      ap (held_count detector) (absorb-resolved_by_detector event t)
      ∙ merge_all-count detector (resolved_of event) t.resolved_by_detector (omega arith) in
    omega (arith, one, absorb_all-count detector events (absorb event t) (omega (arith, one)))

absorb_all-secs :
    (detector : String) (events : List Event) (t : Totals)
    → held_secs detector t.resolved_by_detector + log_secs detector events < 2 ^ 64
    → held_secs detector (absorb_all events t).resolved_by_detector
      ≡ held_secs detector t.resolved_by_detector + log_secs detector events
unfolding absorb_all log_secs
absorb_all-secs detector [] t h = omega arith
absorb_all-secs detector (event ∷ events) t h =
    let one : held_secs detector (absorb event t).resolved_by_detector
        ≡ held_secs detector t.resolved_by_detector + listed_secs detector (resolved_of event) =
      ap (held_secs detector) (absorb-resolved_by_detector event t)
      ∙ merge_all-secs detector (resolved_of event) t.resolved_by_detector (omega arith) in
    omega (arith, one, absorb_all-secs detector events (absorb event t) (omega (arith, one)))

-- After any log of events the aggregates of a detector's resolved findings, their number and the
-- seconds they took, have grown by exactly what the scans and automatic resolutions of the log list
-- for it, as long as the sums fit into 64 bits.
pub absorb_all-resolved :
    (detector : String) (events : List Event) (t : Totals)
    → held_count detector t.resolved_by_detector + log_count detector events < 2 ^ 64
    → held_secs detector t.resolved_by_detector + log_secs detector events < 2 ^ 64
    → let after = absorb_all events t in
      (held_count detector after.resolved_by_detector
        ≡ held_count detector t.resolved_by_detector + log_count detector events)
      × (held_secs detector after.resolved_by_detector
          ≡ held_secs detector t.resolved_by_detector + log_secs detector events)
absorb_all-resolved detector events t h k =
    (absorb_all-count detector events t h, absorb_all-secs detector events t k)

-- The verdicts on a detector that the log records.
unfoldable pub log_outcomes : OutcomeKey → List Event → ℕ
log_outcomes k [] = 0
log_outcomes k (outcome ts detector verdict n ∷ events) =
    if (verdict, detector) == k then n + log_outcomes k events else log_outcomes k events
log_outcomes k (_ ∷ events) = log_outcomes k events

module _ (k : OutcomeKey) where
  abbrev pub outcome_count : Totals → ℕ
  outcome_count t = unwrap_or (lookup k t.outcomes) 0

  -- After any log of events the count of a verdict on a detector has grown by exactly what the
  -- outcomes of the log say of that verdict and that detector, as long as the sum fits into 64 bits.
  pub absorb_all-outcomes :
      (events : List Event) (t : Totals)
      → outcome_count t + log_outcomes k events < 2 ^ 64
      → outcome_count (absorb_all events t) ≡ outcome_count t + log_outcomes k events
  unfolding absorb_all absorb log_outcomes
  absorb_all-outcomes [] t h = omega arith
  absorb_all-outcomes (outcome ts detector verdict n ∷ events) t h = ground (
    arith,
    absorb_all-outcomes events (absorb (outcome ts detector verdict n) t),
    outcome_key_eq.decides (verdict, detector) k,
    lookup-upsert k (verdict, detector) 0 (λ m. wrapping_add m n) t.outcomes,
    same (verdict, detector) k t.outcomes,
  )
    where
      same : (a b : OutcomeKey) (m : List (OutcomeKey × ℕ)) → a ≡ b → lookup a m ≡ lookup b m
      same a b m p = ap (λ x. lookup x m) p
  absorb_all-outcomes (Event.scan e ∷ events) t h =
      ground (arith, absorb_all-outcomes events (absorb (Event.scan e) t))
  absorb_all-outcomes (Event.search e ∷ events) t h =
      absorb_all-outcomes events (absorb (Event.search e) t) h
  absorb_all-outcomes (auto_resolve ts a b ∷ events) t h =
      absorb_all-outcomes events (absorb (auto_resolve ts a b) t) h
  absorb_all-outcomes (gate_block ts f ∷ events) t h =
      absorb_all-outcomes events (absorb (gate_block ts f) t) h

unfoldable pub sum_values : List (String × ℕ) → ℕ
sum_values [] = 0
sum_values ((_, n) ∷ m) = n + sum_values m

sum_values-insert :
    (k : String) (n : ℕ) (m : List (String × ℕ))
    → sum_values (insert k n m) + unwrap_or (lookup k m) 0 ≡ sum_values m + n
unfolding sum_values insert lookup
sum_values-insert k n [] = omega arith
sum_values-insert k n ((j, w) ∷ m) = ground (arith, sum_values-insert k n m)

-- The aggregates that must agree with one another.
pub record IsBalanced (t : Totals) : Type 0 where
  pub by_origin : sum_values t.scans_by_origin ≡ t.scans
  pub first : t.first_searches ≤ t.searches
  pub zero_hit : t.searches_zero_hit ≤ t.searches

absorb-IsBalanced : (event : Event) (t : Totals) → IsBalanced t → IsBalanced (absorb event t)
unfolding absorb upsert
absorb-IsBalanced (Event.scan e) t h =
    let before = unwrap_or (lookup (origin_name e.origin) t.scans_by_origin) 0 in
    ground (arith, sum_values-insert (origin_name e.origin) (before + 1) t.scans_by_origin)
absorb-IsBalanced (Event.search e) t h = ground arith
absorb-IsBalanced _ t h = omega arith

-- Any log keeps the aggregates in agreement: the scans by origin add up to the scans, and neither
-- the first searches nor those without a hit exceed the searches.
pub absorb_all-IsBalanced :
    (events : List Event) (t : Totals) → IsBalanced t → IsBalanced (absorb_all events t)
unfolding absorb_all
absorb_all-IsBalanced [] t h = h
absorb_all-IsBalanced (event ∷ events) t h =
    absorb_all-IsBalanced events (absorb event t) (absorb-IsBalanced event t h)
