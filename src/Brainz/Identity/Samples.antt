-- ===== src/Brainz/Identity/Samples.antt =====
-- Identities of a cycle and of a clone class, and a report pruned by them. The digest of the tests
-- is the number of parts.
use sensez.Prelude.{
  ℕ, ◌≡◌, refl, String, Bool, true, false, not, none, some, List, [], ◌∷◌, ◌++◌, length, map,
  retain, contains, string_eq, if◌then◌else◌,
}
use mathlib.Core.List.{Permᴰ}
use mathlib.Core.List.Permᴰ
use sensez.Report.{
  AnalysisReport, CycleFinding, CloneClass, CloneOccurrence, DeadCodeFinding, warning,
}
use sensez.Report
use sensez.Report.Example.{report, dead}
use sensez.Brainz.Fingerprint.{Print}
use sensez.Brainz.Identity.{
  cycle_key, clone_key, dead_code_key, partition_by_fingerprint, retain_by_fingerprint,
}
use sensez.Brainz.Identity.Order.{keys-Perm}
use sensez.Brainz.Identity.Pruning.{by_fingerprint-splits}
use sensez.Brainz.GateMemory.{retain_unseen_gate_findings, finding_keys, retain_unseen-keys}

abbrev digest : List String → ℕ
digest parts = length parts

abbrev cycle : List String → CycleFinding
cycle modules = record { action = warning; modules = modules; hint = none; edges = [] }

abbrev copies : ℕ → List CloneOccurrence
copies row =
    record { file = "a.py"; start_row = row; end_row = row }
    ∷ record { file = "b.py"; start_row = 1; end_row = 4 }
    ∷ []

abbrev clones : List CloneOccurrence → CloneClass
clones occurrences = record {
  action = warning;
  token_length = 50;
  occurrences = occurrences;
  hint = none;
  detector = Report.structural;
  absorbed = [];
}

keys-Perm_example :
    (cycle_key digest (cycle ("a" ∷ "b" ∷ [])) ≡ cycle_key digest (cycle ("b" ∷ "a" ∷ [])))
    × (clone_key digest (clones (copies 1)) ≡ clone_key digest (clones (copies 30)))
keys-Perm_example =
    keys-Perm digest (cycle ("a" ∷ "b" ∷ [])) (cycle ("b" ∷ "a" ∷ [])) (clones (copies 1))
      (clones (copies 30)) (Permᴰ.swap refl refl) (Permᴰ.refl ("a.py" ∷ "b.py" ∷ []))

abbrev is_one : Print → Bool
is_one print = if contains "m::f (function)" (print.label ∷ []) then true else false

by_fingerprint-splits_example :
    (partition_by_fingerprint is_one (dead ∷ []) (some (map (dead_code_key digest) (dead ∷ [])))
      ≡ retain (λ x. not (is_one (dead_code_key digest x))) (dead ∷ [])
        ++ retain (λ x. is_one (dead_code_key digest x)) (dead ∷ []))
    × (map
          (dead_code_key digest)
          (retain_by_fingerprint is_one (dead ∷ []) (some (map (dead_code_key digest) (dead ∷ []))))
        ≡ retain is_one (map (dead_code_key digest) (dead ∷ [])))
by_fingerprint-splits_example = by_fingerprint-splits is_one (dead_code_key digest) (dead ∷ [])

retain_unseen-keys_example :
    let (pruned, n) = retain_unseen_gate_findings digest report ("3" ∷ []) in
    (finding_keys digest pruned
      ≡ retain (λ k. not (contains k ("3" ∷ []))) (finding_keys digest report))
    × (n ≡ length (finding_keys digest pruned))
retain_unseen-keys_example = retain_unseen-keys digest report ("3" ∷ [])
