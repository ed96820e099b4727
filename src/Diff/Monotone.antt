-- ===== src/Diff/Monotone.antt =====
-- src/diff/filter.rs: what `apply` keeps as a change grows.
use sensez.Prelude.{
  ℕ, ◌≡◌, ◌∙◌, refl, sym, ap, String, Bool, true, false, ◌&&◌, none, some, List, [], ◌∷◌, ◌++◌, map,
  retain, any, ltb, lookup, contains, is_some, string_eq, arith, lookup-upsert, Option-cases, inl,
  inr,
}
use sensez.Report.{
  AnalysisReport, CycleFinding, DeadCodeFinding, BoundaryViolation, CloneClass, CloneOccurrence,
  SmellFinding, spans,
}
use sensez.Report.Totals.{refresh_totals}
use sensez.Brainz.Fingerprint.{Print, key}
use sensez.Brainz.Identity.{cycle_key, dead_code_key, boundary_key, clone_key, smell_key}
use sensez.Brainz.GateMemory.{finding_keys, contains-finding_keys}
use sensez.Diff.{ChangedLines, touches, touches_file, add_range, removed_mentions}
use sensez.Diff.Filter.{
  apply, trace_dead_code, dead_code_provenance, clone_occurrence_touches_diff,
  boundary_import_touches_diff, cycle_module_touches_diff, smell_body_touches_diff, merged_dup_hint,
}
use sensez.Diff.Ranges.{touches-add_range}

any_mono :
    {A : Type 0} (p q : A → Bool) (xs : List A)
    → ((x : A) → p x ≡ true → q x ≡ true)
    → any p xs ≡ true
    → any q xs ≡ true
unfolding any
any_mono p q [] more h = h
any_mono p q (x ∷ xs) more h = ground (arith, more x, any_mono p q xs more, h)

module _ (canon : String → String) (c : ChangedLines) (file : String) (lo hi : ℕ) where
  later : ChangedLines
  unfolding add_range
  later = add_range canon file lo hi c

  touches_more :
      (f : String) (start end : ℕ)
      → touches canon c f start end ≡ true
      → touches canon later f start end ≡ true
  unfolding later
  touches_more f start end h = ground (arith, touches-add_range canon c file f lo hi start end, h)

  file_more : (f : String) → touches_file canon c f ≡ true → touches_file canon later f ≡ true
  unfolding later touches_file add_range
  file_more f h = ground (
    arith,
    h,
    lookup-upsert (canon f) (canon file) [] (λ ranges. ranges ++ (lo, hi) ∷ []) c.files,
  )

  clone_more :
      (f : CloneClass)
      → clone_occurrence_touches_diff canon c f ≡ true
      → clone_occurrence_touches_diff canon later f ≡ true
  unfolding clone_occurrence_touches_diff
  clone_more f h =
      any_mono (λ (o : CloneOccurrence). touches canon c o.file o.start_row o.end_row)
        (λ o. touches canon later o.file o.start_row o.end_row) f.occurrences
        (λ o. touches_more o.file o.start_row o.end_row) h

  smell_more :
      (f : SmellFinding)
      → smell_body_touches_diff canon c f ≡ true
      → smell_body_touches_diff canon later f ≡ true
  unfolding smell_body_touches_diff
  smell_more f h =
      any_mono (λ (start, end). ltb 0 start && touches canon c f.file start end)
        (λ (start, end). ltb 0 start && touches canon later f.file start end) (spans f)
        (λ (start, end) g. ground (arith, g, touches_more f.file start end)) h

  dead_more :
      (f : DeadCodeFinding)
      → is_some (dead_code_provenance canon f c) ≡ true
      → is_some (dead_code_provenance canon f later) ≡ true
  unfolding dead_code_provenance removed_mentions later add_range
  dead_more f h = ground (arith, h, touches_more f.file f.line f.line)

  boundary_more :
      (files : List (String × String)) (f : BoundaryViolation)
      → boundary_import_touches_diff canon files c f ≡ true
      → boundary_import_touches_diff canon files later f ≡ true
  unfolding boundary_import_touches_diff
  boundary_more files f h = elim (Option-cases (lookup f.from_module files)) [
    | inl e ↦ ground (arith, h, e)
    | inr (file', e) ↦ ground (arith, h, e, touches_more file' f.line f.line)
  ]

  cycle_more :
      (files : List (String × String)) (f : CycleFinding)
      → cycle_module_touches_diff canon files c f ≡ true
      → cycle_module_touches_diff canon files later f ≡ true
  unfolding cycle_module_touches_diff
  cycle_more files f h =
      any_mono (λ name. elim (lookup name files) [ none ↦ false | some o ↦ touches_file canon c o ])
        (λ name. elim (lookup name files) [ none ↦ false | some o ↦ touches_file canon later o ])
        f.modules
        (λ name g. elim (Option-cases (lookup name files)) [
          | inl e ↦ ground (arith, g, e)
          | inr (o, e) ↦ ground (arith, g, e, file_more o)
        ])
        h

keys-more :
    {T : Type 0} (f : T → Print) (p q : T → Bool) (xs : List T) (k : String)
    → ((x : T) → p x ≡ true → q x ≡ true)
    → contains k (map key (map f (retain p xs))) ≡ true
    → contains k (map key (map f (retain q xs))) ≡ true
unfolding contains retain
keys-more f p q [] k more h = h
keys-more f p q (x ∷ xs) k more h = ground (arith, more x, keys-more f p q xs k more, h)

keys-same :
    {T : Type 0} (f : T → Print) (g : T → T) (xs : List T)
    → ((x : T) → f (g x) ≡ f x)
    → map key (map f (map g xs)) ≡ map key (map f xs)
keys-same f g [] same = refl
keys-same f g (x ∷ xs) same = cc (same x, keys-same f g xs same)

module _ (canon : String → String) (c : ChangedLines) (x : DeadCodeFinding)
    (xs : List DeadCodeFinding) where
  trace_none :
      dead_code_provenance canon x c ≡ none
      → trace_dead_code canon c (x ∷ xs) ≡ trace_dead_code canon c xs
  unfolding trace_dead_code
  trace_none e = ground arith

  trace_some :
      (reason : String)
      → dead_code_provenance canon x c ≡ some reason
      → trace_dead_code canon c (x ∷ xs) ≡ record x { reason = reason } ∷ trace_dead_code canon c xs
  unfolding trace_dead_code
  trace_some reason e = ground arith

hinted : (String → String) → ChangedLines → CloneClass → CloneClass
hinted canon c f = record f { hint = some (merged_dup_hint canon f c) }

noted : SmellFinding → SmellFinding
noted f = record f { reason = "introduced_or_touched" }

module _ (digest : List String → ℕ) where
  trace_keys :
      (canon : String → String) (c : ChangedLines) (xs : List DeadCodeFinding)
      → map key (map (dead_code_key digest) (trace_dead_code canon c xs))
        ≡ map key
            (map (dead_code_key digest) (retain (λ f. is_some (dead_code_provenance canon f c)) xs))
  unfolding trace_dead_code retain dead_code_key
  trace_keys canon c [] = refl
  trace_keys canon c (x ∷ xs) =
      let rest = trace_keys canon c xs in
      let p : DeadCodeFinding → Bool = λ f. is_some (dead_code_provenance canon f c) in
      let dropped : dead_code_provenance canon x c ≡ none → retain p (x ∷ xs) ≡ retain p xs =
        λ e. ground arith in
      let held : (o : String)
          → dead_code_provenance canon x c ≡ some o
          → retain p (x ∷ xs) ≡ x ∷ retain p xs =
        λ o e. ground arith in
      let keys : List DeadCodeFinding → List String =
        λ ys. map key (map (dead_code_key digest) ys) in
      elim (Option-cases (dead_code_provenance canon x c)) [
        | inl e ↦ ap keys (trace_none canon c x xs e) ∙ (rest ∙ sym (ap keys (dropped e)))
        | inr (reason, e) ↦
            ap keys (trace_some canon c x xs reason e)
            ∙ (ap (◌∷◌ (key (dead_code_key digest x))) rest ∙ sym (ap keys (held reason e)))
      ]

  -- Recording one more range never loses a finding: what `apply` keeps, by its identity, it still
  -- keeps when the change has touched more lines.
  pub apply_more :
      (canon : String → String) (r : AnalysisReport) (c : ChangedLines)
      (module_files : List (String × String)) (file : String) (lo hi : ℕ) (k : String)
      → contains k (finding_keys digest (apply canon r c module_files)) ≡ true
      → contains k (finding_keys digest (apply canon r (add_range canon file lo hi c) module_files))
        ≡ true
  unfolding apply refresh_totals clone_key smell_key later hinted noted
  apply_more canon r c module_files file lo hi k h =
      let c' = add_range canon file lo hi c in
      let same =
        keys-same (clone_key digest) (hinted canon c)
          (retain (clone_occurrence_touches_diff canon c) r.duplication) (λ f. refl) in
      let same' =
        keys-same (clone_key digest) (hinted canon c')
          (retain (clone_occurrence_touches_diff canon c') r.duplication) (λ f. refl) in
      let like =
        keys-same (smell_key digest) noted (retain (smell_body_touches_diff canon c) r.smells)
          (λ f. refl) in
      let like' =
        keys-same (smell_key digest) noted (retain (smell_body_touches_diff canon c') r.smells)
          (λ f. refl) in
      ground (
        arith,
        h,
        contains-finding_keys digest k (apply canon r c module_files),
        contains-finding_keys digest k (apply canon r c' module_files),
        ap (contains k) same,
        ap (contains k) same',
        ap (contains k) like,
        ap (contains k) like',
        ap (contains k) (trace_keys canon c r.dead_code),
        ap (contains k) (trace_keys canon c' r.dead_code),
        keys-more (cycle_key digest) (cycle_module_touches_diff canon module_files c)
            (cycle_module_touches_diff canon module_files c') r.cycles k
            (cycle_more canon c file lo hi module_files),
        keys-more (dead_code_key digest) (λ f. is_some (dead_code_provenance canon f c))
            (λ f. is_some (dead_code_provenance canon f c')) r.dead_code k
            (dead_more canon c file lo hi),
        keys-more (boundary_key digest) (boundary_import_touches_diff canon module_files c)
            (boundary_import_touches_diff canon module_files c') r.boundaries k
            (boundary_more canon c file lo hi module_files),
        keys-more (clone_key digest) (clone_occurrence_touches_diff canon c)
            (clone_occurrence_touches_diff canon c') r.duplication k
            (clone_more canon c file lo hi),
        keys-more (smell_key digest) (smell_body_touches_diff canon c)
            (smell_body_touches_diff canon c') r.smells k (smell_more canon c file lo hi),
      )
