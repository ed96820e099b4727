-- ===== src/Cycles/Reported.antt =====
-- `detect` of src/noze/cycles.rs: what it reports.
use sensez.Prelude.{
  ℕ, ◌≡◌, ◌↔◌, refl, ap, sym, String, Bool, true, false, some, List, [], ◌++◌, map, arith,
  if◌then◌else◌, inl, inr, nat_eq, string_eq,
}
use mathlib.Core.Path.{subst, subst⁻¹}
use mathlib.Core.List.{Memᴰ}
use mathlib.Core.List.Memᴰ
use sensez.Graph.{CodebaseGraph, Edge, IsGraph, phase_eq}
use sensez.Report.{ActionLevel, CycleFinding}
use sensez.Cycles.{detect, module_name, reportable, type_sccs, runtime_level}
use sensez.Cycles.Detection.{headline, detect-headline}
use sensez.Cycles.Components.{
  Announced, at_runtime, by_types, reportable-IsReported, type_sccs-Announced,
}

module _ (g : CodebaseGraph) (tarjan_scc : (Edge → Bool) → List (List ℕ))
    (excluded : String → Bool) where
  -- A finding as `detect` lists it.
  abbrev entry : ActionLevel → List ℕ → ActionLevel × List String
  entry action scc = (action, map (module_name g) scc)

  pub record Told (include_type_only : Bool) (action : ActionLevel) (names : List String)
      : Type 0 where
    pub scc : List ℕ
    pub modules : names ≡ map (module_name g) scc
    pub why : Announced g tarjan_scc excluded include_type_only action scc

  Told-of :
      (include_type_only : Bool) (level action : ActionLevel) (names : List String) (scc : List ℕ)
      → entry level scc ≡ (action, names)
      → Announced g tarjan_scc excluded include_type_only level scc
      → Told include_type_only action names
  Told-of include_type_only level action names scc same why = record {
    scc = scc;
    modules = sym (ap (λ x. x.1) same);
    why =
        subst (λ a. Announced g tarjan_scc excluded include_type_only a scc) (ap (λ x. x.0) same)
          why;
  }

  runtime-Told :
      (include_type_only : Bool) (action : ActionLevel) (names : List String)
      → Memᴰ
          (action, names)
          (map (entry ActionLevel.warning) (reportable g tarjan_scc excluded runtime_level))
      → Told include_type_only action names
  runtime-Told include_type_only action names m =
      let at_run = reportable g tarjan_scc excluded runtime_level in
      let (scc, k, same) = Memᴰ.of_map (entry ActionLevel.warning) at_run m in
      Told-of include_type_only ActionLevel.warning action names scc same
        (at_runtime ((reportable-IsReported g tarjan_scc excluded runtime_level scc).0 k))

  type-Told :
      (include_type_only : Bool) (action : ActionLevel) (names : List String)
      → Memᴰ
          (action, names)
          (map
            (entry ActionLevel.info)
            (if include_type_only then type_sccs g tarjan_scc excluded else []))
      → Told include_type_only action names
  type-Told false action names m = elim m [ ]
  type-Told true action names m =
      let (scc, k, same) =
        Memᴰ.of_map (entry ActionLevel.info) (type_sccs g tarjan_scc excluded) m in
      Told-of true ActionLevel.info action names scc same
        ((type_sccs-Announced g tarjan_scc excluded scc).0 k)

  announced_entry :
      (include_type_only : Bool) (action : ActionLevel) (scc : List ℕ)
      → Announced g tarjan_scc excluded include_type_only action scc
      → Memᴰ (entry action scc) (
          map (entry ActionLevel.warning) (reportable g tarjan_scc excluded runtime_level)
          ++ map
              (entry ActionLevel.info)
              (if include_type_only then type_sccs g tarjan_scc excluded else []))
  announced_entry include_type_only action scc (at_runtime r) = Memᴰ.append_left _ (
      Memᴰ.map (entry ActionLevel.warning)
        ((reportable-IsReported g tarjan_scc excluded runtime_level scc).1 r))
  announced_entry true action scc (by_types on r apart t) = Memᴰ.append_right _ (
      Memᴰ.map (entry ActionLevel.info)
        ((type_sccs-Announced g tarjan_scc excluded scc).1 (by_types refl r apart t)))
  announced_entry false action scc (by_types on r apart t) = absurd (ground arith)

  -- On a graph, whatever components the graph library finds, the detection of cycles ends. It reports
  -- the modules of a component as a warning exactly if it is one of the runtime imports; and as
  -- information exactly if type-only imports count, it is one of all imports, no component of the
  -- runtime imports that is reported has the same names, and one of the imports among its modules is
  -- for types only. A component counts if it has two modules or more, one of them in a file that is
  -- not excluded.
  pub detect-Told :
      (include_type_only : Bool)
      → IsGraph g
      → (fs : List CycleFinding) × (detect g tarjan_scc excluded include_type_only ≡ some fs)
        × ((action : ActionLevel) (names : List String)
            → Memᴰ (action, names) (map headline fs) ↔ Told include_type_only action names)
  detect-Told include_type_only wf =
      let (fs, ends, heads) = detect-headline g tarjan_scc excluded include_type_only wf in
      let at_run = reportable g tarjan_scc excluded runtime_level in
      (
        fs,
        ends,
        λ action names. (
          λ m.
              elim (Memᴰ.append_cases (map (entry ActionLevel.warning) at_run)
                (subst (Memᴰ (action, names)) heads m)) [
                  | inl first ↦ runtime-Told include_type_only action names first
                  | inr later ↦ type-Told include_type_only action names later
                ],
          λ t.
              subst (λ ns. Memᴰ (action, ns) (map headline fs)) (sym t.modules)
                (subst⁻¹ (Memᴰ (entry action t.scc)) heads
                  (announced_entry include_type_only action t.scc t.why)),
        ),
      )
