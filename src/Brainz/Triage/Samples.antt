-- ===== src/Brainz/Triage/Samples.antt =====
-- A verdict on one of two dead functions.
use sensez.Prelude.{
  String, ◌≡◌, ◌≢◌, ◌⊎◌, refl, none, some, List, [], ◌∷◌, map, retain, lookup, insert,
  if◌then◌else◌, IsKeyed, unwrap_or, string_eq,
}
use sensez.Report.Pillar.{dead_code, pillar_eq, rank}
use sensez.Brainz.Fingerprint.{AgedEntry, Aged}
use sensez.Brainz.Fingerprint.{Detector}
use sensez.Brainz.Verdict.{false_positive, verdict_eq, rank as verdict_rank}
use sensez.Brainz.Triage.{
  Marked, Triage, failed, marked, no_match, label_matches, matching, mark_all, mark, verdict_on,
}
use sensez.Brainz.Triage.Search.{contains_text, starts_with}
use sensez.Brainz.Triage.Marking.{names, mark_of, marks_of, mark_decides}

abbrev same : String → String
same text = text

abbrev entry : String → AgedEntry
entry label = record { first_seen = 1; label = label; class = Detector.dead_code "function" }

abbrev prints : List (String × AgedEntry)
prints = ("abc1", entry "app::orphan") ∷ ("abc2", entry "app::helper") ∷ []

abbrev aged : Aged
aged = (dead_code, prints) ∷ []

abbrev no_verdicts : Triage
no_verdicts = []

mark-test :
    mark same 9 dead_code "orphan" false_positive none aged no_verdicts
    ≡ marked
        (record { label = "app::orphan"; detector = Detector.dead_code "function" } ∷ [])
        (("abc1", verdict_on same 9 dead_code false_positive none (entry "app::orphan")) ∷ [])
unfolding mark mark_all matching label_matches contains_text starts_with retain lookup insert rank
    verdict_rank
mark-test = refl

keyed : IsKeyed (unwrap_or (lookup dead_code aged) [])
unfolding lookup rank
keyed = (refl, (refl, tt))

mark_decides_example :
    let found = unwrap_or (lookup dead_code aged) [] in
    let hits = retain (λ (_, e). names same "orphan" e) found in
    let answer = mark same 9 dead_code "orphan" false_positive none aged no_verdicts in
    ((hits ≡ []) × (answer ≡ failed (no_match dead_code "orphan" (map (λ (_, e). e.label) found))))
    ⊎ ((ms : List Marked) × (t : Triage) × (answer ≡ marked ms t)
        × (ms ≡ marks_of hits)
        × (ms ≢ [])
        × (lookup "abc1" t ≡ (elim (lookup "abc1" found) [
          | none ↦ lookup "abc1" no_verdicts
          | some e ↦
              if names same "orphan" e
              then mark_of same 9 dead_code false_positive none e
              else lookup "abc1" no_verdicts
        ])))
mark_decides_example =
    mark_decides same 9 dead_code "orphan" false_positive none aged no_verdicts "abc1" keyed
