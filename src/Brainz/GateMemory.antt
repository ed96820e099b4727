-- ===== src/Brainz/GateMemory.antt =====
-- src/brainz/gate_memory.rs: the identities that the gate remembers, and pruning a report by them.
-- The report is read as its JSON is, which for a report never fails; the glossary is left out.
use sensez.Prelude.{
  ℕ, ◌≡◌, refl, ap, ◌∙◌, sym, String, Bool, true, not, ◌||◌, List, [], ◌∷◌, ◌++◌, map, retain,
  retain-append, map-retain, length-map, length, length-append, contains, insert, lookup, string_eq,
  arith,
}
use sensez.Report.{AnalysisReport, finding_count}
use sensez.Report.Totals.{finding_count-sum}
use sensez.Report.Pillar as Pillars
use sensez.Report.Pillar.{Pillar, pillar_eq, rank}
use sensez.Brainz.Fingerprint.{Print, Prints, key}
use sensez.Brainz.Identity.{
  fingerprints, retain_by_fingerprint, cycle_key, dead_code_key, boundary_key, clone_key, smell_key,
}
use sensez.Brainz.Identity.Pruning.{by_fingerprint-splits}

-- `values().flatten()`
unfoldable pub flatten : Prints → List Print
flatten [] = []
flatten ((_, ps) ∷ prints) = ps ++ flatten prints

-- `map(|print| (print.key(), print.label)).collect()`
unfoldable pub collect : List Print → List (String × String) → List (String × String)
collect [] m = m
collect (p ∷ ps) m = collect ps (insert (key p) p.label m)

contains-map_append :
    (k : String) (xs ys : List Print)
    → contains k (map key (xs ++ ys)) ≡ (contains k (map key xs) || contains k (map key ys))
unfolding contains
contains-map_append k [] ys = refl
contains-map_append k (x ∷ xs) ys = ground (arith, contains-map_append k xs ys)

module _ (digest : List String → ℕ) where
  unfoldable pub finding_identities : AnalysisReport → List (String × String)
  finding_identities report = collect (flatten (fingerprints digest report)) []

  unfoldable pub retain_unseen_gate_findings : AnalysisReport → List String → AnalysisReport × ℕ
  retain_unseen_gate_findings report [] = (report, finding_count report)
  retain_unseen_gate_findings report (b ∷ blocked) =
      let prints = fingerprints digest report in
      let unseen : Print → Bool = λ print. not (contains (key print) (b ∷ blocked)) in
      let r = record report {
        cycles = retain_by_fingerprint unseen report.cycles (lookup Pillars.cycles prints);
        dead_code = retain_by_fingerprint unseen report.dead_code (lookup Pillars.dead_code prints);
        boundaries =
            retain_by_fingerprint unseen report.boundaries (lookup Pillars.boundaries prints);
        duplication =
            retain_by_fingerprint unseen report.duplication (lookup Pillars.duplication prints);
        smells = retain_by_fingerprint unseen report.smells (lookup Pillars.smells prints);
      } in
      (r, finding_count r)

  -- The keys of all findings, in the order of the pillars.
  unfoldable pub finding_keys : AnalysisReport → List String
  finding_keys report = map key (flatten (fingerprints digest report))

  pub flatten-fingerprints :
      (r : AnalysisReport)
      → flatten (fingerprints digest r)
        ≡ map (cycle_key digest) r.cycles
          ++ (map (dead_code_key digest) r.dead_code
              ++ (map (boundary_key digest) r.boundaries
                  ++ (map (clone_key digest) r.duplication
                      ++ (map (smell_key digest) r.smells ++ []))))
  unfolding flatten fingerprints
  flatten-fingerprints r = refl

  pub contains-finding_keys :
      (k : String) (r : AnalysisReport)
      → contains k (finding_keys r) ≡ (
          contains k (map key (map (cycle_key digest) r.cycles))
          || (contains k (map key (map (dead_code_key digest) r.dead_code))
              || (contains k (map key (map (boundary_key digest) r.boundaries))
                  || (contains k (map key (map (clone_key digest) r.duplication))
                      || contains k (map key (map (smell_key digest) r.smells))))))
  unfolding finding_keys contains
  contains-finding_keys k r =
      let c = map (cycle_key digest) r.cycles in
      let d = map (dead_code_key digest) r.dead_code in
      let b = map (boundary_key digest) r.boundaries in
      let u = map (clone_key digest) r.duplication in
      let s = map (smell_key digest) r.smells in
      ap (λ ps. contains k (map key ps)) (flatten-fingerprints r)
      ∙ ground (
        arith,
        contains-map_append k c (d ++ (b ++ (u ++ (s ++ [])))),
        contains-map_append k d (b ++ (u ++ (s ++ []))),
        contains-map_append k b (u ++ (s ++ [])),
        contains-map_append k u (s ++ []),
        contains-map_append k s [],
      )

  retain_append5 :
      (p : Print → Bool) (c d b u s : List Print)
      → retain p (c ++ (d ++ (b ++ (u ++ (s ++ [])))))
        ≡ retain p c ++ (retain p d ++ (retain p b ++ (retain p u ++ (retain p s ++ []))))
  unfolding retain
  retain_append5 p c d b u s = cc (
    retain-append p c (d ++ (b ++ (u ++ (s ++ [])))),
    retain-append p d (b ++ (u ++ (s ++ []))),
    retain-append p b (u ++ (s ++ [])),
    retain-append p u (s ++ []),
    retain-append p s [],
  )

  -- Every pillar's `lookup` in the prints of the report finds the prints of that pillar.
  retained_prints :
      (r : AnalysisReport) (b : String) (blocked : List String)
      → flatten (fingerprints digest (retain_unseen_gate_findings r (b ∷ blocked)).0)
        ≡ retain (λ p. not (contains (key p) (b ∷ blocked))) (flatten (fingerprints digest r))
  unfolding retain_unseen_gate_findings fingerprints lookup flatten rank
  retained_prints r b blocked =
      let p : Print → Bool = λ print. not (contains (key print) (b ∷ blocked)) in
      let c = (by_fingerprint-splits p (cycle_key digest) r.cycles).1 in
      let d = (by_fingerprint-splits p (dead_code_key digest) r.dead_code).1 in
      let e = (by_fingerprint-splits p (boundary_key digest) r.boundaries).1 in
      let f = (by_fingerprint-splits p (clone_key digest) r.duplication).1 in
      let g = (by_fingerprint-splits p (smell_key digest) r.smells).1 in
      (λ i. c i ++ (d i ++ (e i ++ (f i ++ (g i ++ [])))))
      ∙ sym (
          retain_append5 p (map (cycle_key digest) r.cycles)
            (map (dead_code_key digest) r.dead_code) (map (boundary_key digest) r.boundaries)
            (map (clone_key digest) r.duplication) (map (smell_key digest) r.smells))

  count_keys : (r : AnalysisReport) → finding_count r ≡ length (finding_keys r)
  unfolding finding_keys
  count_keys r =
      let c = map (cycle_key digest) r.cycles in
      let d = map (dead_code_key digest) r.dead_code in
      let b = map (boundary_key digest) r.boundaries in
      let u = map (clone_key digest) r.duplication in
      let s = map (smell_key digest) r.smells in
      omega (
        arith,
        finding_count-sum r,
        length-map key (flatten (fingerprints digest r)),
        ap (length {A = Print}) (flatten-fingerprints r),
        length-append {0} c (d ++ (b ++ (u ++ (s ++ [])))),
        length-append {0} d (b ++ (u ++ (s ++ []))),
        length-append {0} b (u ++ (s ++ [])),
        length-append {0} u (s ++ []),
        length-append {0} s [],
        length-map (cycle_key digest) r.cycles,
        length-map (dead_code_key digest) r.dead_code,
        length-map (boundary_key digest) r.boundaries,
        length-map (clone_key digest) r.duplication,
        length-map (smell_key digest) r.smells,
      )

  retain_none : {A : Type 0} (xs : List A) → retain (λ x. true) xs ≡ xs
  unfolding retain
  retain_none [] = refl
  retain_none (x ∷ xs) = ap (◌∷◌ x) (retain_none xs)

  -- What is left of a report are the findings whose key was not blocked: the keys of the pruned
  -- report are the keys of the report less the blocked ones, in their order, and the number
  -- returned is how many they are.
  pub retain_unseen-keys :
      (r : AnalysisReport) (blocked : List String)
      → let (pruned, n) = retain_unseen_gate_findings r blocked in
        (finding_keys pruned ≡ retain (λ k. not (contains k blocked)) (finding_keys r))
        × (n ≡ length (finding_keys pruned))
  unfolding retain_unseen_gate_findings finding_keys contains
  retain_unseen-keys r [] = (sym (retain_none (finding_keys r)), count_keys r)
  retain_unseen-keys r (b ∷ blocked) = (
    ap (map key) (retained_prints r b blocked)
        ∙ map-retain key (λ k. not (contains k (b ∷ blocked))) (flatten (fingerprints digest r)),
    count_keys (retain_unseen_gate_findings r (b ∷ blocked)).0,
  )
