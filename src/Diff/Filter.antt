-- ===== src/Diff/Filter.antt =====
-- src/diff/filter.rs: the findings that a change is responsible for, with the reason. The
-- glossary is left out.
use Prim.Native.String.{◌++◌}
use sensez.Prelude.{
  ◌-◌, String, Bool, false, not, ◌&&◌, Option, none, some, List, [], ◌∷◌, map, any, retain, length,
  ltb, if◌then◌else◌, lookup, decimal, string_eq, ◌==◌,
}
use sensez.Report.{
  AnalysisReport, BoundaryViolation, CloneClass, CloneOccurrence, CycleFinding, DeadCodeFinding,
  SmellFinding, spans, ReportMode, ReportMeta,
}
use sensez.Report
use sensez.Report.Totals.{refresh_totals}
use sensez.Diff.{ChangedLines, touches, touches_file, removed_mentions}

module _ (canon : String → String) where
  unfoldable pub clone_occurrence_touches_diff : ChangedLines → CloneClass → Bool
  clone_occurrence_touches_diff changed f =
      any (λ (o : CloneOccurrence). touches canon changed o.file o.start_row o.end_row)
        f.occurrences

  unfoldable pub dup_hint : CloneClass → ChangedLines → String
  dup_hint f changed =
      let outside =
        retain (λ (o : CloneOccurrence). not (touches canon changed o.file o.start_row o.end_row))
          f.occurrences in
      elim outside [
        | [] ↦ decimal (length f.occurrences) ++ " copies written in this change"
        | o ∷ others ↦
            let more =
              if ltb 1 (length (o ∷ others))
              then " (+" ++ (decimal (length (o ∷ others) - 1) ++ " more)")
              else "" in
            "clone of existing code at "
            ++ (o.file
                ++ (":"
                    ++ (decimal o.start_row
                        ++ (more ++ " — reuse it if possible, or surface to the user if not"))))
      ]

  unfoldable pub merged_dup_hint : CloneClass → ChangedLines → String
  unfolding dup_hint
  merged_dup_hint f changed = elim f.hint [
    | none ↦ dup_hint f changed
    | some hint ↦ if hint == "" then dup_hint f changed else hint ++ ("; " ++ dup_hint f changed)
  ]

  unfoldable pub dead_code_provenance : DeadCodeFinding → ChangedLines → Option String
  dead_code_provenance f changed =
      if ltb 0 f.line && touches canon changed f.file f.line f.line
      then some "added_unreferenced"
      else if removed_mentions changed f.symbol
      then some "reference_removed"
      else none

  -- The `retain_mut` over the dead code.
  unfoldable pub trace_dead_code : ChangedLines → List DeadCodeFinding → List DeadCodeFinding
  trace_dead_code changed [] = []
  trace_dead_code changed (f ∷ fs) =
      let rest = trace_dead_code changed fs in
      elim (dead_code_provenance f changed) [
        | none ↦ rest
        | some reason ↦ record f { reason = reason } ∷ rest
      ]

  module _ (module_files : List (String × String)) where
    unfoldable pub boundary_import_touches_diff : ChangedLines → BoundaryViolation → Bool
    boundary_import_touches_diff changed v = elim (lookup v.from_module module_files) [
      | none ↦ false
      | some file ↦ touches canon changed file v.line v.line
    ]

    unfoldable pub cycle_module_touches_diff : ChangedLines → CycleFinding → Bool
    cycle_module_touches_diff changed f =
        any
          (λ name. elim (lookup name module_files) [
            | none ↦ false
            | some file ↦ touches_file canon changed file
          ])
          f.modules

  unfoldable pub smell_body_touches_diff : ChangedLines → SmellFinding → Bool
  smell_body_touches_diff changed f =
      any (λ (start, end). ltb 0 start && touches canon changed f.file start end) (spans f)

  unfoldable pub apply :
      AnalysisReport → ChangedLines → (module_files : List (String × String)) → AnalysisReport
  apply r changed module_files =
      let clones = retain (clone_occurrence_touches_diff changed) r.duplication in
      let smells = retain (smell_body_touches_diff changed) r.smells in
      let r' = record r {
        meta = record r.meta { mode = Report.diff };
        duplication =
            map (λ (f : CloneClass). record f { hint = some (merged_dup_hint f changed) }) clones;
        dead_code = trace_dead_code changed r.dead_code;
        boundaries = retain (boundary_import_touches_diff module_files changed) r.boundaries;
        cycles = retain (cycle_module_touches_diff module_files changed) r.cycles;
        smells = map (λ (f : SmellFinding). record f { reason = "introduced_or_touched" }) smells;
      } in
      refresh_totals r'
