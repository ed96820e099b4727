-- ===== src/Brainz/Suppression/Samples.antt =====
-- A configuration that accepts the god modules, over a report with one.
use sensez.Prelude.{String, List, [], ◌∷◌, ℕ}
use sensez.Brainz.Triage.{Triage}
use sensez.Report.Pillar as Pillars
use sensez.Report.Pillar.{Pillar}

abbrev digest : List String → ℕ
digest names = 7

abbrev accept : List (String × List String)
accept = ("smells/god_module", "a.py" ∷ []) ∷ []

abbrev no_verdicts : Triage
no_verdicts = []
