-- ===== src/Report/Samples.antt =====
-- A report with a dead symbol and three smells, two of them of one kind.
use sensez.Prelude.{◌+◌, [], ◌≡◌, min, count, lookup, unwrap_or, string_eq, ◌==◌}
use sensez.Report.{finding_count}
use sensez.Report.Kinds
use sensez.Report.Kinds.{SmellKind, as_str}
use sensez.Report.Kinds.Names.{smell_kind_eq}
use sensez.Report.Example.{report}
use sensez.Report.Limit.{limit, flat, per_kind}
use sensez.Report.Limit.Capping.{limit-per_kind, limit-flat, of_kind, IsCut}
use sensez.Report.Totals.{refresh_totals, refresh_totals-count}

limit-per_kind_example :
    count
      (of_kind Kinds.long_function)
      (limit report (record { pillar_max = 5; smells = per_kind 1 })).smells
    ≡ min 1 (count (of_kind Kinds.long_function) report.smells)
limit-per_kind_example = limit-per_kind report 5 0 Kinds.long_function

limit-flat_example :
    let r = limit report (flat 2) in
    IsCut 2 [] r.cycles
    × IsCut 2 report.dead_code r.dead_code
    × IsCut 2 [] r.boundaries
    × IsCut 2 [] r.duplication
    × IsCut 2 report.smells r.smells
    × (r.meta ≡ report.meta)
limit-flat_example = limit-flat report 2

refresh_totals-count_example :
    let m = (refresh_totals report).meta in
    (m.cycles_total
        + (m.dead_code_total + (m.boundaries_total + (m.duplication_total + m.smells_total)))
      ≡ finding_count (refresh_totals report))
    × ((k : SmellKind)
        → unwrap_or (lookup (Kinds.as_str k) m.smell_totals) 0
          ≡ count (λ f. f.kind == k) report.smells)
refresh_totals-count_example = refresh_totals-count report
