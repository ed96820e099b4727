-- ===== src/Cycles/Components.antt =====
-- The components that `detect` of src/noze/cycles.rs reports, told apart from how they are found.
use sensez.Prelude.{
  ℕ, ◌≡◌, ◌≢◌, ◌↔◌, ◌≤◌, refl, ap, String, Bool, true, false, not, ◌&&◌, List, [], ◌∷◌, map, any,
  retain, length, leb, leb→le, contains, join, sort_text, arith, inl, inr, Bool-cases, any-Mem,
  Mem-any, Mem-retain, retain-Mem, retain-passes, nat_eq, string_eq, ◌==◌,
}
use mathlib.Core.List.{Memᴰ}
use sensez.Graph.{CodebaseGraph, Edge, ImportPhase, type_only, same_phase_iff, phase_eq}
use sensez.Report.{ActionLevel}
use sensez.Cycles.{
  module_name, reportable, type_sccs, is_cycle_edge, is_reportable_scc, scc_key,
  has_type_only_internal_edge, runtime_level, type_level,
}

module _ (g : CodebaseGraph) (tarjan_scc : (Edge → Bool) → List (List ℕ))
    (excluded : String → Bool) where
  -- A component of the imports of these phases, of two modules or more, one of which is in a file
  -- that is not excluded.
  pub record IsReported (phases : List ImportPhase) (scc : List ℕ) : Type 0 where
    pub component : Memᴰ scc (tarjan_scc (λ edge. is_cycle_edge edge phases))
    pub size : 2 ≤ length scc
    pub counted : ℕ
    pub member : Memᴰ counted scc
    pub shown : excluded (let node = g.node counted in node.file_path) ≡ false

  -- One of the imports among the modules is for types only, and counts for cycles.
  pub record HasTypeImport (scc : List ℕ) : Type 0 where
    pub importer : ℕ
    pub edge : Edge
    pub member : Memᴰ importer scc
    pub outgoing : Memᴰ edge (g.outgoing importer)
    pub inside : contains edge.target scc ≡ true
    pub for_types : (let import = edge.weight in import.phase) ≡ type_only
    pub counts : is_cycle_edge edge type_level ≡ true

  -- The names of the modules, in order.
  abbrev pub names_key : List ℕ → String
  names_key scc = join "|" (sort_text (map (module_name g) scc))

  pub data Announced (include_type_only : Bool) : ActionLevel → List ℕ → Type 0 where
    at_runtime :
        {scc : List ℕ}
        → IsReported runtime_level scc
        → Announced include_type_only ActionLevel.warning scc
    by_types :
        {scc : List ℕ}
        → include_type_only ≡ true
        → IsReported type_level scc
        → ((other : List ℕ) → IsReported runtime_level other → names_key other ≢ names_key scc)
        → HasTypeImport scc
        → Announced include_type_only ActionLevel.info scc

  pub reportable-IsReported :
      (phases : List ImportPhase) (scc : List ℕ)
      → Memᴰ scc (reportable g tarjan_scc excluded phases) ↔ IsReported phases scc
  unfolding reportable is_reportable_scc
  reportable-IsReported phases scc =
      let test = λ (n : ℕ). not (excluded (let node = g.node n in node.file_path)) in
      let big = λ (s : List ℕ). leb 2 (length s) in
      let found = tarjan_scc (λ edge. is_cycle_edge edge phases) in
      (
        λ m.
            let m' = Mem-retain (λ s. any test s) (retain big found) scc m in
            let (n, k, clear) =
              any-Mem test scc (retain-passes (λ s. any test s) (retain big found) scc m) in
            record {
              component = Mem-retain big found scc m';
              size = leb→le _ _ (retain-passes big found scc m');
              counted = n;
              member = k;
              shown = ground arith;
            },
        λ r.
            retain-Mem (λ s. any test s) (retain big found) scc
              (Mem-any test scc r.counted r.member (ground (arith, r.shown)))
              (retain-Mem big found scc (ground (arith, r.size)) r.component),
      )

  type_only-HasTypeImport :
      (scc : List ℕ) → (has_type_only_internal_edge g scc ≡ true) ↔ HasTypeImport scc
  unfolding has_type_only_internal_edge
  type_only-HasTypeImport scc =
      let test = λ (e : Edge).
        contains e.target scc
        && (let import = e.weight in import.phase == type_only)
        && is_cycle_edge e type_level in
      (
        λ h.
            let (n, m, hit) = any-Mem (λ n. any test (g.outgoing n)) scc h in
            let (e, k, yes_all) = any-Mem test (g.outgoing n) hit in
            let import = e.weight in
            record {
              importer = n;
              edge = e;
              member = m;
              outgoing = k;
              inside = ground arith;
              for_types = (same_phase_iff import.phase type_only).0 (ground arith);
              counts = ground arith;
            },
        λ t.
            let e = t.edge in
            let import = e.weight in
            Mem-any (λ n. any test (g.outgoing n)) scc t.importer t.member
              (Mem-any test (g.outgoing t.importer) e t.outgoing (
                ground (
                  arith,
                  t.inside,
                  t.counts,
                  (same_phase_iff import.phase type_only).1 t.for_types,
                ))),
      )

  contains-keys :
      (k : String) (sccs : List (List ℕ))
      → contains k (map (scc_key g) sccs) ≡ true
      → (other : List ℕ) × Memᴰ other sccs × (scc_key g other ≡ k)
  unfolding contains
  contains-keys k [] h = absurd (ground arith)
  contains-keys k (scc ∷ sccs) h = elim (Bool-cases (scc_key g scc == k)) [
    | inl same ↦ (scc, Memᴰ.head refl, (string_eq.decides (scc_key g scc) k).0 same)
    | inr other ↦ let (s, m, same) = contains-keys k sccs (ground arith) in (s, Memᴰ.tail m, same)
  ]

  keys-contains :
      (other : List ℕ) (sccs : List (List ℕ))
      → Memᴰ other sccs
      → contains (scc_key g other) (map (scc_key g) sccs) ≡ true
  unfolding contains
  keys-contains other [] m = elim m [ ]
  keys-contains other (scc ∷ sccs) (Memᴰ.head same) =
      ground (arith, string_eq.decides (scc_key g scc) (scc_key g other), ap (scc_key g) same)
  keys-contains other (scc ∷ sccs) (Memᴰ.tail later) =
      ground (arith, keys-contains other sccs later)

  apart-fresh :
      (scc : List ℕ)
      → ((other : List ℕ) → IsReported runtime_level other → names_key other ≢ names_key scc)
      → not (
          contains
            (scc_key g scc)
            (map (scc_key g) (reportable g tarjan_scc excluded runtime_level)))
        ≡ true
  unfolding scc_key
  apart-fresh scc apart =
      let at_run = reportable g tarjan_scc excluded runtime_level in
      elim (Bool-cases (contains (scc_key g scc) (map (scc_key g) at_run))) [
        | inl seen ↦
            let (other, m, same) = contains-keys (scc_key g scc) at_run seen in
            absurd (apart other ((reportable-IsReported runtime_level other).0 m) same)
        | inr unseen ↦ ground arith
      ]

  pub type_sccs-Announced :
      (scc : List ℕ)
      → Memᴰ scc (type_sccs g tarjan_scc excluded) ↔ Announced true ActionLevel.info scc
  unfolding type_sccs scc_key
  type_sccs-Announced scc =
      let at_run = reportable g tarjan_scc excluded runtime_level in
      let at_type = reportable g tarjan_scc excluded type_level in
      let fresh = λ (s : List ℕ). not (contains (scc_key g s) (map (scc_key g) at_run)) in
      (
        λ m.
            let m' = Mem-retain (has_type_only_internal_edge g) (retain fresh at_type) scc m in
            let typed =
              retain-passes (has_type_only_internal_edge g) (retain fresh at_type) scc m in
            let unseen = retain-passes fresh at_type scc m' in
            by_types refl
              ((reportable-IsReported type_level scc).0 (Mem-retain fresh at_type scc m'))
              (λ other r same. ground (
                arith,
                unseen,
                ap (λ k. contains k (map (scc_key g) at_run)) same,
                keys-contains other at_run ((reportable-IsReported runtime_level other).1 r),
              ))
              ((type_only-HasTypeImport scc).0 typed),
        λ a. elim a [
          | by_types here r apart t ↦
              retain-Mem (has_type_only_internal_edge g) (retain fresh at_type) scc
                ((type_only-HasTypeImport scc).1 t)
                (retain-Mem fresh at_type scc (apart-fresh scc apart)
                  ((reportable-IsReported type_level scc).1 r))
        ],
      )
