-- ===== src/Gate/Repeats/Counting.antt =====
-- src/mcp/repeats.rs: what is kept and what is counted as deferred.
use sensez.Prelude.{
  ℕ, suc, ◌+◌, ◌≡◌, refl, String, List, [], ◌∷◌, length, if◌then◌else◌, arith, count, map, ◌==◌,
  string_eq, Bool-cases, inl, inr,
}
use sensez.Report.{AnalysisReport, finding_count}
use sensez.Report.Totals.{finding_count-sum}
use sensez.Gate.Repeats
use sensez.Gate.Repeats.{RepeatState, visit, retain_allowed, suppress_repeated}
use sensez.Gate.Repeats.Lifetime.{shown_times}

retain_allowed-total :
    {T : Type 0} (key : T → String) (limit now : ℕ) (xs : List T) (s : RepeatState) (n : ℕ)
    → let (kept, _, total) = retain_allowed key limit now xs s n in
      length kept + total ≡ length xs + n
unfolding retain_allowed
retain_allowed-total key limit now [] s n = refl
retain_allowed-total key limit now (x ∷ xs) s n =
    let (s', keep) = visit limit now (key x) s in
    let rest = retain_allowed-total key limit now xs s' (if keep then n else suc n) in
    elim (Bool-cases keep) [ inl e ↦ ground (arith, e, rest) | inr e ↦ ground (arith, e, rest) ]

-- The number of findings of a key that one pass keeps is the number of visits that show the key.
pub retain_allowed-shown :
    {T : Type 0} (key : T → String) (limit now : ℕ) (xs : List T) (s : RepeatState) (n : ℕ)
    (k : String)
    → count (λ x. key x == k) (retain_allowed key limit now xs s n).0
      ≡ shown_times limit k (map (λ x. (now, key x)) xs) s
unfolding retain_allowed shown_times count
retain_allowed-shown key limit now [] s n k = refl
retain_allowed-shown key limit now (x ∷ xs) s n k =
    let (s', keep) = visit limit now (key x) s in
    let rest = retain_allowed-shown key limit now xs s' (if keep then n else suc n) k in
    elim (Bool-cases keep) [ inl e ↦ ground (arith, e, rest) | inr e ↦ ground (arith, e, rest) ]

-- The findings that the gate still reports and those that it counts as deferred add up to the
-- findings that the scan reported.
pub suppress_repeated-count :
    (s : RepeatState) (r : AnalysisReport) (limit now : ℕ)
    → let (shown, _, deferred) = suppress_repeated s r limit now in
      finding_count shown + deferred ≡ finding_count r
unfolding suppress_repeated
suppress_repeated-count s r limit now =
    let (shown, _, _) = suppress_repeated s r limit now in
    let (_, s1, n1) = retain_allowed Repeats.cycle_key limit now r.cycles s 0 in
    let (_, s2, n2) = retain_allowed Repeats.dead_code_key limit now r.dead_code s1 n1 in
    let (_, s3, n3) = retain_allowed Repeats.boundary_key limit now r.boundaries s2 n2 in
    let (_, s4, n4) = retain_allowed Repeats.clone_key limit now r.duplication s3 n3 in
    omega (
      arith,
      finding_count-sum r,
      finding_count-sum shown,
      retain_allowed-total Repeats.cycle_key limit now r.cycles s 0,
      retain_allowed-total Repeats.dead_code_key limit now r.dead_code s1 n1,
      retain_allowed-total Repeats.boundary_key limit now r.boundaries s2 n2,
      retain_allowed-total Repeats.clone_key limit now r.duplication s3 n3,
      retain_allowed-total Repeats.smell_key limit now r.smells s4 n4,
    )
