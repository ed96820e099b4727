-- ===== src/Brainz/Triage/Marking.antt =====
-- What a call of `mark` of src/brainz/triage.rs does to the verdict of each finding.
use sensez.Prelude.{
  ℕ, String, ◌≡◌, ◌≢◌, ◌⊎◌, refl, Option, none, some, List, [], ◌∷◌, map, retain, lookup, insert,
  remove, unwrap_or, string_eq, ◌==◌, if◌then◌else◌, arith, Bool, IsKeyed, lookup-retain,
  lookup-insert, lookup-remove, retain-IsKeyed, List-cases, inl, inr, ap, sym, ◌∙◌,
}
use sensez.Report.Pillar.{Pillar, pillar_eq}
use sensez.Brainz.Fingerprint.{AgedEntry, Aged}
use sensez.Brainz.Verdict.{TriageVerdict, clear, verdict_eq}
use sensez.Brainz.Triage.Search.{contains_text}
use sensez.Brainz.Triage.{
  Verdict, Marked, Triage, Outcome, failed, marked, no_match, label_matches, matching, verdict_on,
  mark_all, mark,
}

module _ (to_lowercase : String → String) (now : ℕ) (pillar : Pillar) (verdict : TriageVerdict)
    (remark : Option String) where
  -- The verdict of a finding that is marked.
  abbrev pub mark_of : AgedEntry → Option Verdict
  mark_of e =
      if verdict == clear
      then none
      else some
          (record { verdict = verdict; pillar = pillar; label = e.label; ts = now; note = remark })

  one_mark :
      (key k : String) (e : AgedEntry) (triage : Triage)
      → lookup k (
          if verdict == clear
          then remove key triage
          else insert key (verdict_on to_lowercase now pillar verdict remark e) triage)
        ≡ (if key == k then mark_of e else lookup k triage)
  one_mark key k e triage = ground (
    arith,
    lookup-remove k key triage,
    lookup-insert k key (verdict_on to_lowercase now pillar verdict remark e) triage,
  )

  same_lookup : (j k : String) (m : List (String × AgedEntry)) → j ≡ k → lookup j m ≡ lookup k m
  same_lookup j k m p = ap (λ x. lookup x m) p

  mark_all-lookup :
      (matches : List (String × AgedEntry)) (triage : Triage) (k : String)
      → IsKeyed matches
      → lookup k (mark_all to_lowercase now pillar verdict remark matches triage)
        ≡ (elim (lookup k matches) [ none ↦ lookup k triage | some e ↦ mark_of e ])
  unfolding mark_all lookup
  mark_all-lookup [] triage k h = refl
  mark_all-lookup ((key, e) ∷ matches) triage k h =
      mark_all-lookup matches
        (if verdict == clear
          then remove key triage
          else insert key (verdict_on to_lowercase now pillar verdict remark e) triage)
        k h.1
      ∙ ground
          (arith, one_mark key k e triage, string_eq.decides key k, h.0, same_lookup key k matches)

module _ (to_lowercase : String → String) (now : ℕ) (pillar : Pillar) (pattern : String)
    (verdict : TriageVerdict) (remark : Option String) (aged : Aged) (triage : Triage) where
  abbrev run : Outcome
  run = mark to_lowercase now pillar pattern verdict remark aged triage

  mark-nil :
      matching to_lowercase now pillar pattern aged ≡ []
      → run
        ≡ failed
            (no_match pillar pattern (map (λ (_, e). e.label) (unwrap_or (lookup pillar aged) [])))
  unfolding mark
  mark-nil h = rw (mark, h) refl

  mark-cons :
      (first : String × AgedEntry) (more : List (String × AgedEntry))
      → matching to_lowercase now pillar pattern aged ≡ first ∷ more
      → run
        ≡ marked
            (map (λ (_, e). record { label = e.label; detector = e.class }) (first ∷ more))
            (mark_all to_lowercase now pillar verdict remark (first ∷ more) triage)
  unfolding mark
  mark-cons first more h = rw (mark, h) refl

  lookup-matching :
      (key : String)
      → IsKeyed (unwrap_or (lookup pillar aged) [])
      → lookup key (
          mark_all to_lowercase now pillar verdict remark
            (matching to_lowercase now pillar pattern aged)
            triage)
        ≡ (elim (lookup key (unwrap_or (lookup pillar aged) [])) [
          | none ↦ lookup key triage
          | some e ↦
              if label_matches to_lowercase now pattern e
              then mark_of to_lowercase now pillar verdict remark e
              else lookup key triage
        ])
  unfolding matching
  lookup-matching key h =
      let prints = unwrap_or (lookup pillar aged) [] in
      let hit = λ (x : String × AgedEntry). label_matches to_lowercase now pattern x.1 in
      ground (
        arith,
        mark_all-lookup to_lowercase now pillar verdict remark (retain hit prints) triage key
            (retain-IsKeyed hit prints h),
        lookup-retain hit key prints h,
      )

-- The label holds the pattern, whatever the case of their letters.
abbrev pub names : (String → String) → String → AgedEntry → Bool
names to_lowercase pattern e = contains_text (to_lowercase pattern) (to_lowercase e.label)

-- The findings that a call marks, as it returns them.
abbrev pub marks_of : List (String × AgedEntry) → List Marked
marks_of matches = map (λ (_, e). record { label = e.label; detector = e.class }) matches

not_nil : {x : Marked} {xs ms : List Marked} → ms ≡ x ∷ xs → ms ≢ []
not_nil p q = cc

-- Where the findings of the pillar have distinct keys, there are two cases that exclude each other.
-- Either none of them has a label that matches, and the call fails with a message that lists their
-- labels; or some do, and the call returns those, in order and at least one, and gives each of them
-- the verdict, or takes its verdict away if the call clears, and leaves every other verdict as it
-- was.
pub mark_decides :
    (to_lowercase : String → String) (now : ℕ) (pillar : Pillar) (pattern : String)
    (verdict : TriageVerdict) (remark : Option String) (aged : Aged) (triage : Triage)
    (key : String)
    → IsKeyed (unwrap_or (lookup pillar aged) [])
    → let prints = unwrap_or (lookup pillar aged) [] in
      let hits = retain (λ (_, e). names to_lowercase pattern e) prints in
      let answer = mark to_lowercase now pillar pattern verdict remark aged triage in
      ((hits ≡ []) × (answer ≡ failed (no_match pillar pattern (map (λ (_, e). e.label) prints))))
      ⊎ ((ms : List Marked) × (t : Triage) × (answer ≡ marked ms t)
          × (ms ≡ marks_of hits)
          × (ms ≢ [])
          × (lookup key t ≡ (elim (lookup key prints) [
            | none ↦ lookup key triage
            | some e ↦
                if names to_lowercase pattern e
                then mark_of to_lowercase now pillar verdict remark e
                else lookup key triage
          ])))
unfolding matching label_matches
mark_decides to_lowercase now pillar pattern verdict remark aged triage key h =
    let ms = matching to_lowercase now pillar pattern aged in
    elim (List-cases ms) [
      | inl nothing_hit ↦ inl (
        nothing_hit,
        mark-nil to_lowercase now pillar pattern verdict remark aged triage nothing_hit,
      )
      | inr (first, more, is) ↦
          let t = mark_all to_lowercase now pillar verdict remark (first ∷ more) triage in
          inr (
            marks_of (first ∷ more),
            t,
            mark-cons to_lowercase now pillar pattern verdict remark aged triage first more is,
            ap marks_of (sym is),
            not_nil refl,
            ap (λ xs. lookup key (mark_all to_lowercase now pillar verdict remark xs triage))
                  (sym is)
                ∙ lookup-matching to_lowercase now pillar pattern verdict remark aged triage key h,
          )
    ]
