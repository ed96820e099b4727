-- ===== src/Brainz/Identity.antt =====
-- src/brainz/fingerprint.rs: what identifies a finding, and pruning lists by it. `digest` is the
-- SipHash of parts that are each closed by the byte 0xff; a finding is read as its JSON fields are.
pub mod Pruning
pub mod Order
mod Samples
use Prim.Native.String.{◌++◌}
use sensez.Prelude.{
  ℕ, suc, ◌+◌, String, Bool, true, false, Option, none, some, List, [], ◌∷◌, map, length, sort_text,
  join, dedup, decimal, if◌then◌else◌, upsert, string_eq, not,
}
use mathlib.Core.List.{◌++◌ as ◌++ₗ◌}
use sensez.Report.{
  AnalysisReport, CycleFinding, DeadCodeFinding, BoundaryViolation, CloneClass, CloneOccurrence,
  SmellFinding,
}
use sensez.Report.Kinds
use sensez.Report.Kinds.{SmellKind}
use sensez.Report.Pillar as Pillars
use sensez.Report.Pillar.{Pillar}
use sensez.Brainz.Fingerprint
use sensez.Brainz.Fingerprint.{Detector, detector_name, Print, Prints}

pub data Label : Type 0 where
  cycle : (modules : String) → Label
  dead_code : (module_name symbol symbol_kind : String) → Label
  boundary : (source target rule : String) → Label
  clone : (arity : ℕ) (files : String) → Label
  smell : (kind : SmellKind) (file symbol : String) → Label

-- The `Display` of `Label`.
unfoldable pub label_text : Label → String
label_text (cycle modules) = modules
label_text (dead_code m symbol kind) = m ++ ("::" ++ (symbol ++ (" (" ++ (kind ++ ")"))))
label_text (boundary source target rule) = source ++ (" -> " ++ (target ++ (" (" ++ (rule ++ ")"))))
label_text (clone arity files) = "clone x" ++ (decimal arity ++ (": " ++ files))
label_text (smell kind file symbol) = Kinds.as_str kind ++ (" @ " ++ (file ++ ("::" ++ symbol)))

-- `Print::identity`
unfoldable pub identity : ℕ → Pillar → Label → Detector → Print
unfolding label_text
identity hash namespace label class = record {
  hash = hash;
  namespace = namespace;
  label = label_text label;
  class = class;
}

module _ (digest : List String → ℕ) where
  unfoldable pub cycle_key : CycleFinding → Print
  cycle_key f =
      let modules = sort_text f.modules in
      identity (digest modules) Pillars.cycles (cycle (join " ↔ " modules)) Fingerprint.cycles

  unfoldable pub dead_code_key : DeadCodeFinding → Print
  dead_code_key f =
      identity (digest (f.module_name ∷ f.symbol ∷ f.kind ∷ [])) Pillars.dead_code
        (dead_code f.module_name f.symbol f.kind) (Fingerprint.dead_code f.kind)

  unfoldable pub boundary_key : BoundaryViolation → Print
  boundary_key f =
      identity (digest (f.from_module ∷ f.to_module ∷ f.rule ∷ [])) Pillars.boundaries
        (boundary f.from_module f.to_module f.rule) Fingerprint.boundaries

  unfoldable pub clone_key : CloneClass → Print
  clone_key f =
      let names = map (λ (o : CloneOccurrence). o.file) f.occurrences in
      let files = dedup (sort_text names) in
      identity (digest (files ++ₗ decimal (length names) ∷ [])) Pillars.duplication
        (clone (length names) (join " + " files)) Fingerprint.duplication

  unfoldable pub smell_key : SmellFinding → Print
  smell_key f =
      identity (digest (Kinds.as_str f.kind ∷ f.file ∷ f.symbol ∷ [])) Pillars.smells
        (smell f.kind f.file f.symbol) (Fingerprint.smell f.kind)

  -- `key_fn`, mapped over the findings of its pillar.
  unfoldable pub prints_of : AnalysisReport → Pillar → List Print
  prints_of r Pillars.cycles = map cycle_key r.cycles
  prints_of r Pillars.dead_code = map dead_code_key r.dead_code
  prints_of r Pillars.boundaries = map boundary_key r.boundaries
  prints_of r Pillars.duplication = map clone_key r.duplication
  prints_of r Pillars.smells = map smell_key r.smells

  unfoldable pub fingerprints : AnalysisReport → Prints
  unfolding prints_of
  fingerprints r = map (λ p. (p, prints_of r p)) Pillars.all

-- `class_counts`, on the prints of all pillars
unfoldable pub class_counts : List Print → List (String × ℕ) → List (String × ℕ)
class_counts [] counts = counts
class_counts (p ∷ ps) counts = class_counts ps (upsert (detector_name p.class) 0 suc counts)

module _ {T : Type 0} (predicate : Print → Bool) where
  -- The `retain`, in lockstep: an item without a print is kept.
  unfoldable pub retain_lockstep : List T → List Print → List T
  retain_lockstep [] ps = []
  retain_lockstep (x ∷ xs) [] = x ∷ retain_lockstep xs []
  retain_lockstep (x ∷ xs) (p ∷ ps) =
      let rest = retain_lockstep xs ps in if predicate p then x ∷ rest else rest

  unfoldable pub retain_by_fingerprint : List T → Option (List Print) → List T
  retain_by_fingerprint items none = items
  retain_by_fingerprint items (some prints) = retain_lockstep items prints

  -- The loop, with what it pushed to `trusted` and to `sink`.
  unfoldable pub partition_lockstep : List T → List Print → List T × List T
  partition_lockstep [] ps = ([], [])
  partition_lockstep (x ∷ xs) [] =
      let (trusted, sink) = partition_lockstep xs [] in (x ∷ trusted, sink)
  partition_lockstep (x ∷ xs) (p ∷ ps) =
      let (trusted, sink) = partition_lockstep xs ps in
      if predicate p then (trusted, x ∷ sink) else (x ∷ trusted, sink)

  unfoldable pub partition_by_fingerprint : List T → Option (List Print) → List T
  partition_by_fingerprint items none = items
  partition_by_fingerprint items (some prints) =
      let (trusted, sink) = partition_lockstep items prints in trusted ++ₗ sink
