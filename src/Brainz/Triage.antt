-- ===== src/Brainz/Triage.antt =====
-- src/brainz/triage.rs: verdicts on findings. The stored files are arguments, `now` is the clock, and
-- `to_lowercase` the conversion of the standard library; the lock and the writes are not modelled.
use Prim.Native.String.{◌++◌}
use sensez.Prelude.{
  ℕ, String, Bool, true, false, ◌≡◌, ◌⊎◌, ◌↔◌, refl, Option, none, some, List, [], ◌∷◌, map, retain,
  lookup, insert, remove, unwrap_or, join, string_eq, ◌==◌, if◌then◌else◌, arith, IsKeyed,
  lookup-retain, lookup-insert, lookup-remove, retain-IsKeyed, Bool-cases, Option-cases, inl, inr,
  ap,
}
use sensez.Report.Pillar.{Pillar, pillar_eq}
use sensez.Report.Pillar
use sensez.Brainz.Fingerprint.{AgedEntry, Aged, Detector}
use sensez.Brainz.Verdict.{TriageVerdict, clear, verdict_eq}
pub mod Search
pub mod Marking
mod Samples
use sensez.Brainz.Triage.Search.{contains_text}

pub record Verdict : Type 0 where
  pub verdict : TriageVerdict
  pub pillar : Pillar
  pub label : String
  pub ts : ℕ
  pub note : Option String

pub record Marked : Type 0 where
  pub label : String
  pub detector : Detector

abbrev pub Triage : Type 0
Triage = List (String × Verdict)

-- What `mark` returns: an error with its message, or the marked findings and the new verdicts.
pub data Outcome : Type 0 where
  failed : String → Outcome
  marked : List Marked → Triage → Outcome

-- `ignored_keys`
unfoldable pub ignored_keys : Triage → List String
ignored_keys triage = map (λ (key, _). key) triage

unfoldable pub no_match : Pillar → String → List String → String
no_match pillar pattern known =
    let listed : String = elim known [
      | [] ↦ "none (scan first)"
      | first ∷ more ↦ join " | " (first ∷ more)
    ] in
    "no '" ++ Pillar.as_str pillar ++ "' finding matches '" ++ pattern ++ "'; known: " ++ listed

module _ (to_lowercase : String → String) (now : ℕ) where
  unfoldable pub label_matches : String → AgedEntry → Bool
  label_matches pattern e = contains_text (to_lowercase pattern) (to_lowercase e.label)

  -- The findings of the pillar that match.
  unfoldable pub matching : Pillar → String → Aged → List (String × AgedEntry)
  matching pillar pattern aged =
      retain (λ (_, e). label_matches pattern e) (unwrap_or (lookup pillar aged) [])

  abbrev pub verdict_on : Pillar → TriageVerdict → Option String → AgedEntry → Verdict
  verdict_on pillar verdict remark e = record {
    verdict = verdict;
    pillar = pillar;
    label = e.label;
    ts = now;
    note = remark;
  }

  -- The `for` loop of `mark`
  unfoldable pub mark_all :
      Pillar → TriageVerdict → Option String → List (String × AgedEntry) → Triage → Triage
  mark_all pillar verdict remark [] triage = triage
  mark_all pillar verdict remark ((key, e) ∷ matches) triage =
      mark_all pillar verdict remark matches (
        if verdict == clear
        then remove key triage
        else insert key (verdict_on pillar verdict remark e) triage)

  unfoldable pub mark : Pillar → String → TriageVerdict → Option String → Aged → Triage → Outcome
  mark pillar pattern verdict remark aged triage = elim (matching pillar pattern aged) [
    | [] ↦
        failed
          (no_match pillar pattern (map (λ (_, e). e.label) (unwrap_or (lookup pillar aged) [])))
    | first ∷ more ↦
        marked (map (λ (_, e). record { label = e.label; detector = e.class }) (first ∷ more))
          (mark_all pillar verdict remark (first ∷ more) triage)
  ]
