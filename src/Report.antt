-- ===== src/Report.antt =====
-- src/report.rs and src/report/analysis.rs: the report that the pillars
-- fill. Fields that no modelled code reads are left out of the metadata.
pub mod Kinds
pub mod Pillar
pub mod Limit
pub mod Totals
pub mod Summary
mod Samples
pub mod Example
use sensez.Prelude.{
  ℕ, String, Bool, Option, none, some, List, [], ◌∷◌, length, retain, leb, max, if◌then◌else◌, map,
  ◌++◌,
}
use sensez.Report.Kinds.{SmellKind}

pub data ActionLevel : Type 0 where
  must_fix warning advisory info : ActionLevel

pub data Severity : Type 0 where
  critical warning info : Severity

-- `ActionLevel::from_severity`
unfoldable pub from_severity : Severity → ActionLevel
from_severity Severity.critical = ActionLevel.must_fix
from_severity Severity.warning = ActionLevel.warning
from_severity Severity.info = ActionLevel.advisory

pub data Confidence : Type 0 where
  high medium low : Confidence

pub record CycleEdge : Type 0 where
  pub from_module : String
  pub to_module : String
  pub file : String
  pub line : ℕ

pub record CycleFinding : Type 0 where
  pub action : ActionLevel
  pub modules : List String
  pub hint : Option String
  pub edges : List CycleEdge

pub record DeadCodeFinding : Type 0 where
  pub action : ActionLevel
  pub module_name : String
  pub symbol : String
  pub kind : String
  pub confidence : Confidence
  pub file : String
  pub line : ℕ
  pub reason : String

pub record BoundaryViolation : Type 0 where
  pub action : ActionLevel
  pub from_module : String
  pub to_module : String
  pub file : String
  pub line : ℕ
  pub rule : String

pub record CloneOccurrence : Type 0 where
  pub file : String
  pub start_row : ℕ
  pub end_row : ℕ

pub data SemanticVerdict : Type 0 where
  edited_copy same_intent_different_code : SemanticVerdict

pub data CloneDetector : Type 0 where
  structural near_miss class_shape : CloneDetector
  semantic : SemanticVerdict → CloneDetector

pub record AbsorbedClone : Type 0 where
  pub detector : CloneDetector
  pub token_length : ℕ
  pub copies : ℕ

pub record CloneClass : Type 0 where
  pub action : ActionLevel
  pub token_length : ℕ
  pub occurrences : List CloneOccurrence
  pub hint : Option String
  pub detector : CloneDetector
  pub absorbed : List AbsorbedClone

-- `keep_occurrences`: the class after the filter, and whether two copies are left.
unfoldable pub keep_occurrences : (CloneOccurrence → Bool) → CloneClass → CloneClass × Bool
keep_occurrences keep class =
    let kept = retain keep class.occurrences in
    (record class { occurrences = kept }, leb 2 (length kept))

pub record SmellFinding : Type 0 where
  pub action : ActionLevel
  pub kind : SmellKind
  pub message : String
  pub file : String
  pub line : ℕ
  pub end_line : ℕ
  pub lines : List ℕ
  pub symbol : String
  pub severity : Severity
  pub metric : ℕ
  pub threshold : ℕ
  pub reason : String

-- `SmellFinding::spans`
unfoldable pub spans : SmellFinding → List (ℕ × ℕ)
spans f = elim f.lines [
  | [] ↦ (f.line, max f.end_line f.line) ∷ []
  | l ∷ ls ↦ map (λ line. (line, line)) (l ∷ ls)
]

pub data ReportMode : Type 0 where
  full diff : ReportMode

-- The mode and the totals; what else the header holds, no modelled code reads or changes, but for
-- the glossary texts.
pub record ReportMeta : Type 0 where
  pub mode : ReportMode
  pub cycles_total : ℕ
  pub dead_code_total : ℕ
  pub duplication_total : ℕ
  pub boundaries_total : ℕ
  pub smells_total : ℕ
  pub smell_totals : List (String × ℕ)

pub record AnalysisReport : Type 0 where
  pub meta : ReportMeta
  pub cycles : List CycleFinding
  pub dead_code : List DeadCodeFinding
  pub boundaries : List BoundaryViolation
  pub duplication : List CloneClass
  pub smells : List SmellFinding

-- `AnalysisReport::actions`
unfoldable pub actions : AnalysisReport → List ActionLevel
actions r =
    map (λ (f : CycleFinding). f.action) r.cycles
    ++ (map (λ (f : DeadCodeFinding). f.action) r.dead_code
        ++ (map (λ (f : BoundaryViolation). f.action) r.boundaries
            ++ (map (λ (f : CloneClass). f.action) r.duplication
                ++ map (λ (f : SmellFinding). f.action) r.smells)))

unfoldable pub finding_count : AnalysisReport → ℕ
unfolding actions
finding_count r = length (actions r)
