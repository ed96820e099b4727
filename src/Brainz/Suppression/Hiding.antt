-- ===== src/Brainz/Suppression/Hiding.antt =====
-- `apply_suppressions` of src/brainz/suppression.rs: what is left of a report.
use sensez.Prelude.{
  ◌≡◌, ◌⊎◌, refl, ap, sym, String, true, not, ◌||◌, some, List, [], ◌∷◌, retain, contains, lookup,
  string_eq, ◌==◌, arith, inl, inr, Bool-cases, Option-cases, any-Mem, Mem-any, Mem-retain,
  retain-Mem, retain-passes,
}
use mathlib.Core.Path.{subst}
use mathlib.Core.List.{Memᴰ}
use sensez.Report.Pillar as Pillars
use sensez.Report.Pillar.{Pillar, pillar_eq, rank}
use sensez.Brainz.Fingerprint.{Print, key, detector_name}
use sensez.Brainz.Triage.{Triage, Verdict, ignored_keys}
use sensez.Brainz.Triage.Search.{contains_text}
use sensez.Brainz.Suppression.{matches, hides}

-- Why a finding is hidden: its key has a verdict, or its label holds a pattern that is accepted for
-- its pillar or for its detector. For duplication only the patterns that name a group of files hide.
pub data IsHidden (triaged : Triage) (accept : List (String × List String)) (pillar : Pillar)
    (p : Print) : Type 0 where
  judged : (v : Verdict) → Memᴰ (key p, v) triaged → IsHidden triaged accept pillar p
  accepted :
      (name pattern : String) (pats : List String)
      → (name ≡ Pillars.as_str pillar) ⊎ (name ≡ detector_name p.class)
      → lookup name accept ≡ some pats
      → Memᴰ pattern pats
      → contains_text pattern p.label ≡ true
      → (name ≡ "duplication" → contains_text " + " pattern ≡ true)
      → IsHidden triaged accept pillar p

ignored-Mem :
    (k : String) (triaged : Triage)
    → contains k (ignored_keys triaged) ≡ true
    → (v : Verdict) × Memᴰ (k, v) triaged
unfolding ignored_keys contains
ignored-Mem k [] h = absurd (ground arith)
ignored-Mem k ((j, v) ∷ triaged) h = elim (Bool-cases (j == k)) [
  | inl same ↦ (v, Memᴰ.head (λ i. (sym ((string_eq.decides j k).0 same) i, v)))
  | inr other ↦ let (w, m) = ignored-Mem k triaged (ground arith) in (w, Memᴰ.tail m)
]

Mem-ignored :
    (k : String) (v : Verdict) (triaged : Triage)
    → Memᴰ (k, v) triaged
    → contains k (ignored_keys triaged) ≡ true
unfolding ignored_keys contains
Mem-ignored k v [] m = elim m [ ]
Mem-ignored k v ((j, w) ∷ triaged) (Memᴰ.head same) =
    let p : k ≡ j = ap (λ x. x.0) same in ground (arith, string_eq.decides j k)
Mem-ignored k v ((j, w) ∷ triaged) (Memᴰ.tail later) = ground (arith, Mem-ignored k v triaged later)

module _ (triaged : Triage) (accept : List (String × List String)) (pillar : Pillar)
    (p : Print) where
  abbrev Named : String → Type 0
  Named name = (name ≡ Pillars.as_str pillar) ⊎ (name ≡ detector_name p.class)

  matches-IsHidden :
      (name : String)
      → Named name
      → matches accept (ignored_keys triaged) name p.label ≡ true
      → IsHidden triaged accept pillar p
  unfolding matches
  matches-IsHidden name named h = elim (Option-cases (lookup name accept)) [
    | inl missing ↦ absurd (ground arith)
    | inr (pats, found) ↦
        let kept = λ (q : String). not (name == "duplication") || contains_text " + " q in
        let (pattern, m, holds) =
          any-Mem (λ q. contains_text q p.label) (retain kept pats) (ground arith) in
        let passes = retain-passes kept pats pattern m in
        accepted name pattern pats named found (Mem-retain kept pats pattern m) holds
          (λ q. ground (arith, string_eq.decides name "duplication"))
  ]

  pub hides-IsHidden :
      hides accept (ignored_keys triaged) (Pillars.as_str pillar) p ≡ true
      → IsHidden triaged accept pillar p
  unfolding hides
  hides-IsHidden h = elim (Bool-cases (contains (key p) (ignored_keys triaged))) [
    | inl hit ↦ let (v, m) = ignored-Mem (key p) triaged hit in judged v m
    | inr miss ↦
        elim (Bool-cases (matches accept (ignored_keys triaged) (Pillars.as_str pillar) p.label)) [
          | inl hit ↦ matches-IsHidden (Pillars.as_str pillar) (inl refl) hit
          | inr miss' ↦ matches-IsHidden (detector_name p.class) (inr refl) (ground arith)
        ]
  ]

  accepted-matches :
      (name pattern : String) (pats : List String)
      → lookup name accept ≡ some pats
      → Memᴰ pattern pats
      → contains_text pattern p.label ≡ true
      → (name ≡ "duplication" → contains_text " + " pattern ≡ true)
      → matches accept (ignored_keys triaged) name p.label ≡ true
  unfolding matches
  accepted-matches name pattern pats found m holds group =
      let kept = λ (q : String). not (name == "duplication") || contains_text " + " q in
      let k : kept pattern ≡ true = ground (arith, string_eq.decides name "duplication", group) in
      rw (matches, found)
        (Mem-any (λ q. contains_text q p.label) (retain kept pats) pattern
          (retain-Mem kept pats pattern k m) holds)

  pub IsHidden-hides :
      IsHidden triaged accept pillar p
      → hides accept (ignored_keys triaged) (Pillars.as_str pillar) p ≡ true
  unfolding hides
  IsHidden-hides (judged v m) = ground (arith, Mem-ignored (key p) v triaged m)
  IsHidden-hides (accepted name pattern pats (inl same) found m holds group) =
      let hit = accepted-matches name pattern pats found m holds group in
      let hit' = subst (λ n. matches accept (ignored_keys triaged) n p.label ≡ true) same hit in
      ground arith
  IsHidden-hides (accepted name pattern pats (inr same) found m holds group) =
      let hit = accepted-matches name pattern pats found m holds group in
      let hit' = subst (λ n. matches accept (ignored_keys triaged) n p.label ≡ true) same hit in
      ground arith
