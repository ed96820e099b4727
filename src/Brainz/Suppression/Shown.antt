-- ===== src/Brainz/Suppression/Shown.antt =====
-- `apply_suppressions` of src/brainz/suppression.rs as a whole.
use sensez.Prelude.{ℕ, String, Bool, not, List, string_eq}
use sensez.Report.{AnalysisReport}
use sensez.Report.Pillar as Pillars
use sensez.Report.Pillar.{Pillar, pillar_eq}
use sensez.Brainz.Fingerprint.{Print}
use sensez.Brainz.Triage.{Triage}
use sensez.Brainz.Suppression.{hides}

module _ (digest : List String → ℕ) where
  module _ (accept : List (String × List String)) (ignore : List String) (r : AnalysisReport) where
    abbrev shown : Pillar → Print → Bool
    shown pillar p = not (hides accept ignore (Pillars.as_str pillar) p)
