-- ===== src/DeadCode/Grade.antt =====
-- src/noze/dead_code/confidence.rs: how sure a dead-code candidate is.
use sensez.DeadCode.Demand.{Inbound}
use sensez.Prelude.{
  String, Bool, true, false, ◌||◌, Option, none, some, ◌≡◌, ◌≢◌, ◌↔◌, ◌⊎◌, if◌then◌else◌, arith,
}
use sensez.Report.{Confidence, high, medium, low}

pub data Reached : Type 0 where
  from_root orphan tests_only : Reached

pub data DeadCodeReason : Type 0 where
  test_only unreachable_module : DeadCodeReason

unfoldable pub as_str : DeadCodeReason → String
as_str test_only = "test_only"
as_str unreachable_module = "unreachable_module"

pub record Evidence : Type 0 where
  pub inbound : Inbound
  pub reached : Reached
  pub is_default_export : Bool
  pub is_test_only : Bool

pub record Grade : Type 0 where
  pub confidence : Confidence
  pub reason : Option DeadCodeReason

-- `Grade::reason_text`
unfoldable pub reason_text : Grade → String
unfolding as_str
reason_text g = elim g.reason [ none ↦ "" | some r ↦ as_str r ]

abbrev medium_grade : Option DeadCodeReason → Grade
medium_grade reason = record { confidence = medium; reason = reason }

abbrev pub reached_eq : Reached → Reached → Bool
reached_eq from_root from_root = true
reached_eq orphan orphan = true
reached_eq tests_only tests_only = true
reached_eq _ _ = false

unfoldable pub grade : Evidence → Grade
grade e =
    let inbound = e.inbound in
    if reached_eq e.reached orphan
    then medium_grade (some unreachable_module)
    else if e.is_test_only || reached_eq e.reached tests_only
    then medium_grade (some test_only)
    else if e.is_default_export || inbound.opaque || inbound.type_star || inbound.from_config
    then medium_grade none
    else record { confidence = high; reason = none }

-- A candidate has high confidence exactly if a root reaches its module, it is not used by tests
-- only, it is no default export, and none of its importers is opaque, takes the types whole or
-- is a tool config; a grade is never low, a high one has no reason, and an unreachable module is
-- given as the reason exactly if the module is an orphan.
pub grade_decides :
    (e : Evidence)
    → (((grade e).confidence ≡ high) ↔ (
        (e.reached ≡ from_root)
        × (e.is_test_only ≡ false)
        × (e.is_default_export ≡ false)
        × (e.inbound.opaque ≡ false)
        × (e.inbound.type_star ≡ false)
        × (e.inbound.from_config ≡ false)))
      × ((grade e).confidence ≢ low)
      × (((grade e).confidence ≢ high) ⊎ ((grade e).reason ≡ none))
      × (((grade e).reason ≡ some unreachable_module) ↔ (e.reached ≡ orphan))
unfolding grade
grade_decides e = (ground arith, ground arith, ground arith, ground arith)
