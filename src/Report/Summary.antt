-- ===== src/Report/Summary.antt =====
-- src/report/analysis.rs: how many findings have an action, what the gate's hash of a report is made
-- of, and the summary. The hash function is a parameter.
use sensez.Prelude.{
  ℕ, String, ◌≡◌, refl, List, [], ◌∷◌, ◌++◌, map, count, ltb, nat_beq, decimal, join, sort, place,
  take, length,
}
use sensez.Report.{
  AnalysisReport, ActionLevel, CycleFinding, CycleEdge, DeadCodeFinding, BoundaryViolation,
  CloneClass, CloneOccurrence, SmellFinding, actions,
}
use sensez.Report.Kinds
use sensez.Report.Kinds.{SmellKind}
use sensez.Report.Example.{report}

-- The order of the levels, the most urgent first.
unfoldable pub urgency : ActionLevel → ℕ
urgency ActionLevel.must_fix = 0
urgency ActionLevel.warning = 1
urgency ActionLevel.advisory = 2
urgency ActionLevel.info = 3

unfoldable pub count_at_action : ActionLevel → AnalysisReport → ℕ
count_at_action action r =
    count (λ candidate. nat_beq (urgency candidate) (urgency action)) (actions r)

abbrev pub at : String → ℕ → String
at file line = join ":" (file ∷ decimal line ∷ [])

unfoldable pub dead_code_line : DeadCodeFinding → String
dead_code_line f =
    join ""
      ("dead_code/" ∷ f.kind ∷ " " ∷ f.module_name ∷ "::" ∷ f.symbol ∷ " " ∷ at f.file f.line ∷ [])

unfoldable pub cycle_line : CycleFinding → String
cycle_line f = join "" ("cycle " ∷ join " -> " f.modules ∷ [])

unfoldable pub boundary_line : BoundaryViolation → String
boundary_line f =
    join "" ("boundary " ∷ f.from_module ∷ " -> " ∷ f.to_module ∷ " " ∷ at f.file f.line ∷ [])

unfoldable pub clone_line : CloneClass → String
clone_line f = join "" (
    "duplication "
    ∷ decimal f.token_length
    ∷ " token(s) at "
    ∷ join ", " (map (λ (o : CloneOccurrence). at o.file o.start_row) f.occurrences)
    ∷ [])

unfoldable pub smell_line : SmellFinding → String
smell_line f =
    join "" ("smell/" ∷ Kinds.as_str f.kind ∷ " " ∷ f.symbol ∷ " " ∷ at f.file f.line ∷ [])

-- The items of the summary, before they are sorted.
unfoldable pub summary_items : AnalysisReport → List (ActionLevel × String)
summary_items r =
    map (λ (f : DeadCodeFinding). (f.action, dead_code_line f)) r.dead_code
    ++ (map (λ (f : CycleFinding). (f.action, cycle_line f)) r.cycles
        ++ (map (λ (f : BoundaryViolation). (f.action, boundary_line f)) r.boundaries
            ++ (map (λ (f : CloneClass). (f.action, clone_line f)) r.duplication
                ++ map (λ (f : SmellFinding). (f.action, smell_line f)) r.smells)))

unfoldable pub top_n_summary : ℕ → AnalysisReport → String
top_n_summary max r = join "; " (
    map (λ (action, line). line)
      (take max (sort (λ (a, x) (b, y). ltb (urgency a) (urgency b)) (summary_items r))))

-- What is hashed, in order.
pub data HashItem : Type 0 where
  text : String → HashItem
  number : ℕ → HashItem
  kind : SmellKind → HashItem

unfoldable pub flat_map {ℓ κ} : {A : Type ℓ} {B : Type κ} → (A → List B) → List A → List B
flat_map f [] = []
flat_map f (x ∷ xs) = f x ++ flat_map f xs

unfoldable pub signature_items : AnalysisReport → List HashItem
signature_items r =
    text "cycles"
      ∷ flat_map
          (λ (f : CycleFinding).
            flat_map (λ (e : CycleEdge). text e.file ∷ number e.line ∷ []) f.edges)
          r.cycles
    ++ (text "dead_code"
          ∷ flat_map
              (λ (f : DeadCodeFinding). text f.module_name ∷ text f.symbol ∷ number f.line ∷ [])
              r.dead_code
        ++ (text "boundaries"
              ∷ flat_map
                  (λ (f : BoundaryViolation).
                    text f.from_module ∷ text f.to_module ∷ number f.line ∷ [])
                  r.boundaries
            ++ (text "duplication"
                  ∷ flat_map
                      (λ (f : CloneClass).
                        number f.token_length
                        ∷ flat_map (λ (o : CloneOccurrence). text o.file ∷ number o.start_row ∷ [])
                            f.occurrences)
                      r.duplication
                ++ (text "smells"
                    ∷ flat_map
                        (λ (f : SmellFinding).
                          text f.file ∷ number f.line ∷ text f.symbol ∷ kind f.kind ∷ [])
                        r.smells))))

unfoldable pub finding_signature : (List HashItem → ℕ) → AnalysisReport → ℕ
finding_signature hasher r = hasher (signature_items r)

-- A hash that counts what it is given.
signature-test : finding_signature (λ items. length items) report ≡ 20
unfolding finding_signature signature_items flat_map
signature-test = refl

top_n_summary-test :
    top_n_summary 2 report ≡ "dead_code/function m::f a.py:3; smell/long_function f a.py:1"
unfolding top_n_summary summary_items dead_code_line smell_line sort place urgency decimal join
    Kinds.as_str
top_n_summary-test = refl

count_at_action-test : count_at_action ActionLevel.warning report ≡ 4
unfolding count_at_action urgency actions count
count_at_action-test = refl
