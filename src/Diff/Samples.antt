-- ===== src/Diff/Samples.antt =====
-- A change of one file, which keeps the smells of the sample report.
use sensez.Prelude.{
  ℕ, ◌≡◌, refl, String, true, ◌&&◌, ◌||◌, List, [], ◌∷◌, length, leb, contains, string_eq, ◌==◌,
  lookup, any, retain,
}
use sensez.Report.{spans}
use sensez.Report.Totals.{refresh_totals}
use sensez.Report.Example.{report}
use sensez.Brainz.Fingerprint.{key, hex}
use sensez.Brainz.Identity.{fingerprints, prints_of, smell_key, dead_code_key, identity}
use sensez.Brainz.GateMemory.{finding_keys, flatten}
use sensez.Diff.{ChangedLines, add_range, touches}
use sensez.Diff.Filter.{apply, trace_dead_code, dead_code_provenance, smell_body_touches_diff}
use sensez.Diff.Ranges.{touches-add_range}
use sensez.Diff.Monotone.{apply_more}

abbrev digest : List String → ℕ
digest parts = length parts

abbrev canon : String → String
canon path = path

abbrev path : String
path = "a.py"

abbrev changed : ChangedLines
changed = record { files = ("a.py", (3, 4) ∷ []) ∷ []; removed_names = [] }

touches-add_range_example :
    touches canon (add_range canon path 8 9 changed) path 9 12
    ≡ (touches canon changed path 9 12 || path == path && (leb 9 9 && leb 8 12))
touches-add_range_example = touches-add_range canon changed path path 8 9 9 12

kept-test : contains "3" (finding_keys digest (apply canon report changed [])) ≡ true
unfolding finding_keys flatten fingerprints prints_of key hex identity smell_key apply
    refresh_totals contains retain smell_body_touches_diff touches spans lookup any trace_dead_code
    dead_code_provenance dead_code_key
kept-test = refl

apply_more_example :
    contains "3" (finding_keys digest (apply canon report (add_range canon "b.py" 1 2 changed) []))
    ≡ true
apply_more_example = apply_more digest canon report changed [] "b.py" 1 2 "3" kept-test
