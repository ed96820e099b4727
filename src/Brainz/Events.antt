-- ===== src/Brainz/Events.antt =====
-- src/brainz/events.rs: the events of the usage log. Sessions, branches and details, which no
-- modelled code reads, are left out.
pub mod Totals
pub mod Folding
mod Samples
use sensez.Prelude.{
  ℕ, ◌+◌, ◌%◌, ◌^◌, String, Bool, true, ◌&&◌, Option, List, ◌≡◌, ◌↔◌, refl, Eq, string_eq, ◌==◌,
  arith, nat_beq,
}
use sensez.Brainz.Verdict.{TriageVerdict, verdict_eq, verdict_iff}

pub data Origin : Type 0 where
  tool gate cli : Origin

unfoldable pub origin_name : Origin → String
origin_name tool = "tool"
origin_name gate = "gate"
origin_name cli = "cli"

pub record Resolved : Type 0 where
  pub count : ℕ
  pub secs_total : ℕ

-- `+=` on `u64`, which wraps around in a release build.
abbrev pub wrapping_add : ℕ → ℕ → ℕ
wrapping_add a b = (a + b) % 2 ^ 64

-- `Resolved::merge`
unfoldable pub merge : Resolved → Resolved → Resolved
merge a b = record {
  count = wrapping_add a.count b.count;
  secs_total = wrapping_add a.secs_total b.secs_total;
}

-- `OutcomeKey`
abbrev pub OutcomeKey : Type 0
OutcomeKey = TriageVerdict × String

pub outcome_key_iff : (a b : OutcomeKey) → ((a.0 == b.0 && a.1 == b.1) ≡ true) ↔ (a ≡ b)
outcome_key_iff (v, d) (v', d') = ground (arith, verdict_iff v v', string_eq.decides d d')

instance abbrev pub outcome_key_eq : Eq OutcomeKey
outcome_key_eq = record { test = λ a b. a.0 == b.0 && a.1 == b.1; decides = outcome_key_iff }

-- Detectors with their tallies.
abbrev pub Diff : Type 0
Diff = List (String × Resolved)

pub record ScanEvent : Type 0 where
  pub ts : ℕ
  pub ms : ℕ
  pub origin : Origin
  pub reported : List (String × ℕ)
  pub resolved : Diff
  pub reintroduced : Diff
  pub files : ℕ
  pub loc : ℕ
  pub config_hash : Option ℕ

pub record SearchEvent : Type 0 where
  pub ts : ℕ
  pub hits : ℕ
  pub first_on_repo : Bool
  pub bytes_returned : ℕ
  pub file_bytes_referenced : ℕ

pub data Event : Type 0 where
  scan : ScanEvent → Event
  search : SearchEvent → Event
  auto_resolve : (ts : ℕ) (resolved reintroduced : Diff) → Event
  gate_block : (ts : ℕ) (fingerprints : List String) → Event
  outcome : (ts : ℕ) (detector : String) (verdict : TriageVerdict) (count : ℕ) → Event

-- `Event::ts`
unfoldable pub timestamp : Event → ℕ
timestamp (scan e) = e.ts
timestamp (search e) = e.ts
timestamp (auto_resolve ts _ _) = ts
timestamp (gate_block ts _) = ts
timestamp (outcome ts _ _ _) = ts
