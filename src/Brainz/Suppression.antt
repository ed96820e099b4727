-- ===== src/Brainz/Suppression.antt =====
-- src/brainz/suppression.rs: hiding what the user or the configuration accepted. The verdicts are an
-- argument, and the report is read as its JSON is, which for a report never fails.
pub mod Paths
pub mod Hiding
pub mod Copies
pub mod Shown
mod Samples
use sensez.Prelude.{
  ℕ, String, Bool, true, false, not, ◌&&◌, ◌||◌, any, Option, none, some, List, [], ◌∷◌, map,
  retain, contains, lookup, length, nat_beq, string_eq, ◌==◌, if◌then◌else◌,
}
use sensez.Report.{AnalysisReport, CloneClass, CloneOccurrence, keep_occurrences}
use sensez.Report.Pillar as Pillars
use sensez.Report.Pillar.{Pillar, pillar_eq}
use sensez.Brainz.Fingerprint.{Print, Prints, key, detector_name}
use sensez.Brainz.Identity.{fingerprints, retain_by_fingerprint}
use sensez.Brainz.Triage.{Triage, ignored_keys}
use sensez.Brainz.Triage.Search.{contains_text}
use sensez.Brainz.Suppression.Paths.{is_under}

abbrev pub is_group_label : String → Bool
is_group_label pattern = contains_text " + " pattern

-- `retain_mut` with `keep_occurrences`
unfoldable pub keep_classes : (CloneOccurrence → Bool) → List CloneClass → List CloneClass
keep_classes keep [] = []
keep_classes keep (class ∷ classes) =
    let (kept, stays) = keep_occurrences keep class in
    let rest = keep_classes keep classes in if stays then kept ∷ rest else rest

unfoldable pub prune_accepted_occurrences : List CloneClass → List String → List CloneClass
prune_accepted_occurrences classes patterns =
    let paths = retain (λ pattern. not (is_group_label pattern)) patterns in
    let pruned = keep_classes (λ o. not (any (λ path. is_under o.file path) paths)) classes in
    if nat_beq (length paths) 0 then classes else pruned

module _ (accept : List (String × List String)) (ignore : List String) where
  -- `matches` of `hides`
  unfoldable pub matches : String → String → Bool
  matches name label = elim (lookup name accept) [
    | none ↦ false
    | some pats ↦
        any (λ p. contains_text p label)
          (retain (λ p. not (name == "duplication") || is_group_label p) pats)
  ]

  unfoldable pub hides : String → Print → Bool
  hides pillar print =
      contains (key print) ignore
      || (matches pillar print.label || matches (detector_name print.class) print.label)

-- The first test of `apply_suppressions`
unfoldable pub without_accepted : List (String × List String) → AnalysisReport → AnalysisReport
without_accepted accept report = elim (lookup "duplication" accept) [
  | none ↦ report
  | some patterns ↦ record report {
    duplication = prune_accepted_occurrences report.duplication patterns;
  }
]

module _ (digest : List String → ℕ) where
  unfoldable pub retain_shown :
      List (String × List String) → List String → AnalysisReport → AnalysisReport
  retain_shown accept ignore report =
      let prints = fingerprints digest report in
      let shown : String → Print → Bool = λ pillar p. not (hides accept ignore pillar p) in
      record report {
        cycles =
            retain_by_fingerprint (shown "cycles") report.cycles (lookup Pillars.cycles prints);
        dead_code =
            retain_by_fingerprint (shown "dead_code") report.dead_code
              (lookup Pillars.dead_code prints);
        boundaries =
            retain_by_fingerprint (shown "boundaries") report.boundaries
              (lookup Pillars.boundaries prints);
        duplication =
            retain_by_fingerprint (shown "duplication") report.duplication
              (lookup Pillars.duplication prints);
        smells =
            retain_by_fingerprint (shown "smells") report.smells (lookup Pillars.smells prints);
      }

  unfoldable pub apply_suppressions :
      Triage → List (String × List String) → AnalysisReport → AnalysisReport
  apply_suppressions triaged accept report =
      let pruned = without_accepted accept report in
      if nat_beq (length triaged) 0 && nat_beq (length accept) 0
      then pruned
      else retain_shown accept (ignored_keys triaged) pruned
