-- ===== src/Cycles/Detection.antt =====
-- `detect` of src/noze/cycles.rs: which components are reported, and how.
use sensez.Prelude.{
  ℕ, ◌≡◌, refl, String, Bool, Option, none, some, List, [], ◌∷◌, ◌++◌, map, map-append, arith,
  if◌then◌else◌, ap, ◌∙◌,
}
use sensez.Graph.{CodebaseGraph, Edge, ImportPhase, IsGraph}
use sensez.Report.{ActionLevel, CycleFinding}
use sensez.Cycles.{
  detect, findings_for, finding_for, module_name, reportable, type_sccs, shortest_cycle,
  runtime_level, type_level, type_hint,
}
use sensez.Cycles.Shortest.{shortest_cycle-Walk}

-- The action and the modules of a finding.
abbrev pub headline : CycleFinding → ActionLevel × List String
headline f = (f.action, f.modules)

module _ (g : CodebaseGraph) (wf : IsGraph g) where
  shortest_cycle_ends :
      (scc : List ℕ) (phases : List ImportPhase)
      → (es : _) × (shortest_cycle g scc phases ≡ some es)
  unfolding shortest_cycle
  shortest_cycle_ends [] phases = ([], refl)
  shortest_cycle_ends (n ∷ rest) phases =
      let (p, found, walk, iff) = shortest_cycle-Walk g n rest phases wf in (_, found)

  findings_for-headline :
      (action : ActionLevel) (hint : Option String) (phases : List ImportPhase)
      (sccs : List (List ℕ))
      → (fs : List CycleFinding) × (findings_for g action hint phases sccs ≡ some fs)
        × (map headline fs ≡ map (λ scc. (action, map (module_name g) scc)) sccs)
  unfolding findings_for finding_for
  findings_for-headline action hint phases [] = ([], refl, refl)
  findings_for-headline action hint phases (scc ∷ sccs) =
      let (es, ends) = shortest_cycle_ends scc phases in
      let (fs, rest, heads) = findings_for-headline action hint phases sccs in
      (
        record { action = action; modules = map (module_name g) scc; hint = hint; edges = es } ∷ fs,
        ground (arith, ends, rest),
        ap (λ hs. (action, map (module_name g) scc) ∷ hs) heads,
      )

-- On a graph, whatever components the graph library finds, the detection of cycles ends. It reports
-- as warnings the modules of each reportable component of the runtime imports and, if type-only
-- imports count, as information those of each reportable component of all imports that was not
-- reported yet and has a type-only import inside, in the order in which they were found.
pub detect-headline :
    (g : CodebaseGraph) (tarjan_scc : (Edge → Bool) → List (List ℕ)) (excluded : String → Bool)
    (include_type_only : Bool)
    → IsGraph g
    → (fs : List CycleFinding) × (detect g tarjan_scc excluded include_type_only ≡ some fs)
      × (map headline fs
          ≡ map
              (λ scc. (ActionLevel.warning, map (module_name g) scc))
              (reportable g tarjan_scc excluded runtime_level)
            ++ map
                (λ scc. (ActionLevel.info, map (module_name g) scc))
                (if include_type_only then type_sccs g tarjan_scc excluded else []))
unfolding detect
detect-headline g tarjan_scc excluded include_type_only wf =
    let (fs, ends, heads) =
      findings_for-headline g wf ActionLevel.warning none runtime_level
        (reportable g tarjan_scc excluded runtime_level) in
    let (more, ends', heads') =
      findings_for-headline g wf ActionLevel.info (some type_hint) type_level
        (if include_type_only then type_sccs g tarjan_scc excluded else []) in
    (fs ++ more, ground (arith, ends, ends'), map-append headline fs more ∙ cc (heads, heads'))
