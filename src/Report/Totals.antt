-- ===== src/Report/Totals.antt =====
-- src/report/analysis.rs: `refresh_totals`, and the counts that it must agree with.
use sensez.Prelude.{
  ℕ, ◌+◌, String, List, [], ◌∷◌, ◌≡◌, sym, ◌++◌, arith, length, length-append, length-map, count,
  count_congr, lookup, upsert, lookup-upsert, unwrap_or, string_eq, map, ◌==◌,
}
use sensez.Report.{
  CycleFinding, DeadCodeFinding, BoundaryViolation, CloneClass, SmellFinding, AnalysisReport,
  finding_count,
}
use sensez.Report.Kinds
use sensez.Report.Kinds.{SmellKind}
use sensez.Report.Kinds.Names.{==-as_str, smell_kind_eq}

-- The loop over the smells.
unfoldable pub tally_kinds : List SmellFinding → List (String × ℕ) → List (String × ℕ)
tally_kinds [] totals = totals
tally_kinds (f ∷ fs) totals = tally_kinds fs (upsert (Kinds.as_str f.kind) 0 (λ n. n + 1) totals)

unfoldable pub refresh_totals : AnalysisReport → AnalysisReport
refresh_totals r = record r {
  meta = record (r.meta) {
    cycles_total = length r.cycles;
    dead_code_total = length r.dead_code;
    boundaries_total = length r.boundaries;
    duplication_total = length r.duplication;
    smells_total = length r.smells;
    smell_totals = tally_kinds r.smells [];
  };
}

lookup-tally_kinds :
    (name : String) (fs : List SmellFinding) (totals : List (String × ℕ))
    → unwrap_or (lookup name (tally_kinds fs totals)) 0
      ≡ unwrap_or (lookup name totals) 0 + count (λ f. Kinds.as_str f.kind == name) fs
unfolding tally_kinds count
lookup-tally_kinds name [] totals = omega arith
lookup-tally_kinds name (f ∷ fs) totals =
    let own = Kinds.as_str f.kind in
    ground (
      arith,
      lookup-tally_kinds name fs (upsert own 0 (λ n. n + 1) totals),
      lookup-upsert name own 0 (λ n. n + 1) totals,
      string_eq.decides own name,
    )

kind_total :
    (k : SmellKind) (fs : List SmellFinding)
    → unwrap_or (lookup (Kinds.as_str k) (tally_kinds fs [])) 0 ≡ count (λ f. f.kind == k) fs
unfolding lookup
kind_total k fs = omega (
  arith,
  lookup-tally_kinds (Kinds.as_str k) fs [],
  count_congr {0} (λ f. Kinds.as_str f.kind == Kinds.as_str k) (λ f. f.kind == k) fs
      (λ f. ==-as_str f.kind k),
)

pub finding_count-sum :
    (r : AnalysisReport)
    → finding_count r
      ≡ length r.cycles
        + (length r.dead_code + (length r.boundaries + (length r.duplication + length r.smells)))
unfolding finding_count
finding_count-sum r =
    let c = map (λ (f : CycleFinding). f.action) r.cycles in
    let d = map (λ (f : DeadCodeFinding). f.action) r.dead_code in
    let b = map (λ (f : BoundaryViolation). f.action) r.boundaries in
    let p = map (λ (f : CloneClass). f.action) r.duplication in
    let s = map (λ (f : SmellFinding). f.action) r.smells in
    omega (
      arith,
      length-append {0} c (d ++ (b ++ (p ++ s))),
      length-append {0} d (b ++ (p ++ s)),
      length-append {0} b (p ++ s),
      length-append {0} p s,
      length-map (λ (f : CycleFinding). f.action) r.cycles,
      length-map (λ (f : DeadCodeFinding). f.action) r.dead_code,
      length-map (λ (f : BoundaryViolation). f.action) r.boundaries,
      length-map (λ (f : CloneClass). f.action) r.duplication,
      length-map (λ (f : SmellFinding). f.action) r.smells,
    )

-- After the recount the five pillar totals add up to the number of findings, and the total of
-- every smell kind is the number of smells of that kind.
pub refresh_totals-count :
    (r : AnalysisReport)
    → let m = (refresh_totals r).meta in
      (m.cycles_total
          + (m.dead_code_total + (m.boundaries_total + (m.duplication_total + m.smells_total)))
        ≡ finding_count (refresh_totals r))
      × ((k : SmellKind)
          → unwrap_or (lookup (Kinds.as_str k) m.smell_totals) 0
            ≡ count (λ f. f.kind == k) r.smells)
unfolding refresh_totals lookup
refresh_totals-count r = (sym (finding_count-sum (refresh_totals r)), λ k. kind_total k r.smells)
