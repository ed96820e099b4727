-- ===== src/Brainz/Suppression/Copies.antt =====
-- The first test of `apply_suppressions` in src/brainz/suppression.rs: which copies of clones it takes out.
use sensez.Prelude.{
  eq_of_some, ℕ, ◌≡◌, ◌≢◌, ◌↔◌, ◌≤◌, ◌<◌, refl, ap, sym, ◌∙◌, String, Bool, true, false, not, none,
  some, List, [], ◌∷◌, any, retain, lookup, length, nat_beq, leb, string_eq, arith, inl, inr,
  Bool-cases, Option-cases, any-Mem, Mem-any, Mem-retain, retain-Mem, retain-passes,
}
use mathlib.Core.Path.{subst, subst⁻¹}
use mathlib.Core.List.{Memᴰ}
use sensez.Report.{AnalysisReport, CloneClass, CloneOccurrence, keep_occurrences}
use sensez.Report.Pillar as Pillars
use sensez.Report.Pillar.{Pillar, pillar_eq, rank}
use sensez.Brainz.Identity.{prints_of}
use sensez.Brainz.Triage.Search.{contains_text}
use sensez.Brainz.Suppression.Paths.{is_under}
use sensez.Brainz.Suppression.{without_accepted, prune_accepted_occurrences, keep_classes}

-- A copy of a clone stands under a path that is accepted for duplication. A pattern that names a group
-- of files is no such path.
pub record IsAccepted (accept : List (String × List String)) (o : CloneOccurrence) : Type 0 where
  pub patterns : List String
  pub path : String
  pub found : lookup "duplication" accept ≡ some patterns
  pub member : Memᴰ path patterns
  pub no_group : contains_text " + " path ≡ false
  pub under : is_under o.file path ≡ true

keep_classes-kept :
    (keep : CloneOccurrence → Bool) (classes : List CloneClass) (c : CloneClass)
    → Memᴰ c (keep_classes keep classes)
    → (o : CloneOccurrence) → Memᴰ o c.occurrences
    → keep o ≡ true
unfolding keep_classes keep_occurrences
keep_classes-kept keep [] c m o k = elim m [ ]
keep_classes-kept keep (class ∷ classes) c m o k =
    elim (Bool-cases (leb 2 (length (retain keep class.occurrences)))) [
      | inl stays ↦ elim (rw stays at m) [
        | Memᴰ.head same ↦
            retain-passes keep class.occurrences o
              (subst (λ (d : CloneClass). Memᴰ o d.occurrences) same k)
        | Memᴰ.tail later ↦ keep_classes-kept keep classes c later o k
      ]
      | inr goes ↦ keep_classes-kept keep classes c (rw goes at m) o k
    ]

all_retained :
    (keep : CloneOccurrence → Bool) (os : List CloneOccurrence)
    → ((o : CloneOccurrence) → Memᴰ o os → keep o ≡ true)
    → retain keep os ≡ os
unfolding retain
all_retained keep [] h = refl
all_retained keep (o ∷ os) h =
    rw (h o (Memᴰ.head refl)) (ap (λ ps. o ∷ ps) (all_retained keep os (λ p m. h p (Memᴰ.tail m))))

abbrev pub trimmed : (CloneOccurrence → Bool) → CloneClass → CloneClass
trimmed keep c = record c { occurrences = retain keep c.occurrences }

keep_classes-trims :
    (keep : CloneOccurrence → Bool) (classes : List CloneClass) (c : CloneClass)
    → Memᴰ c classes
    → 2 ≤ length (retain keep c.occurrences)
    → Memᴰ (trimmed keep c) (keep_classes keep classes)
unfolding keep_classes keep_occurrences
keep_classes-trims keep [] c m two = elim m [ ]
keep_classes-trims keep (d ∷ classes) c (Memᴰ.head same) two =
    let two' : 2 ≤ length (retain keep d.occurrences) =
      subst (λ (e : CloneClass). 2 ≤ length (retain keep e.occurrences)) same two in
    let stays : leb 2 (length (retain keep d.occurrences)) ≡ true = ground arith in
    rw stays (Memᴰ.head (ap (trimmed keep) same))
keep_classes-trims keep (d ∷ classes) c (Memᴰ.tail later) two =
    elim (Bool-cases (leb 2 (length (retain keep d.occurrences)))) [
      | inl stays ↦ rw stays (Memᴰ.tail (keep_classes-trims keep classes c later two))
      | inr goes ↦ rw goes (keep_classes-trims keep classes c later two)
    ]

retain_congr :
    (p q : CloneOccurrence → Bool) (os : List CloneOccurrence)
    → ((o : CloneOccurrence) → p o ≡ q o)
    → retain p os ≡ retain q os
unfolding retain
retain_congr p q [] h = refl
retain_congr p q (o ∷ os) h = ground (arith, h o, retain_congr p q os h)

Mem-length : (xs : List String) (x : String) → Memᴰ x xs → 0 < length xs
Mem-length [] x m = elim m [ ]
Mem-length (y ∷ ys) x m = omega arith

module _ (accept : List (String × List String)) (r : AnalysisReport) where
  prune-spares :
      (patterns : List String) (c : CloneClass) (o : CloneOccurrence) (path : String)
      → Memᴰ c (prune_accepted_occurrences r.duplication patterns)
      → Memᴰ o c.occurrences
      → Memᴰ path patterns
      → contains_text " + " path ≡ false
      → is_under o.file path ≡ false
  unfolding prune_accepted_occurrences
  prune-spares patterns c o path m k p no_group =
      let test = λ (pattern : String). not (contains_text " + " pattern) in
      let paths = retain test patterns in
      let q : Memᴰ path paths = retain-Mem test patterns path (ground arith) p in
      elim (Bool-cases (nat_beq (length paths) 0)) [
        | inl empty ↦ absurd (ground (arith, Mem-length paths path q))
        | inr some_left ↦
            let kept =
              keep_classes-kept (λ o. not (any (λ path. is_under o.file path) paths)) r.duplication
                c (rw some_left at m) o k in
            elim (Bool-cases (is_under o.file path)) [
              | inl under ↦
                  absurd (
                    ground (arith, kept, Mem-any (λ path. is_under o.file path) paths path q under))
              | inr not_under ↦ not_under
            ]
      ]

  without_accepted-found :
      (patterns : List String)
      → lookup "duplication" accept ≡ some patterns
      → (let w = without_accepted accept r in w.duplication)
        ≡ prune_accepted_occurrences r.duplication patterns
  unfolding without_accepted
  without_accepted-found patterns found = rw (without_accepted, found) refl

  pub without_accepted-spares :
      (c : CloneClass) (o : CloneOccurrence)
      → (let w = without_accepted accept r in Memᴰ c w.duplication)
      → Memᴰ o c.occurrences
      → ¬ IsAccepted accept o
  without_accepted-spares c o m k a =
      let m' = subst (Memᴰ c) (without_accepted-found a.patterns a.found) m in
      let clear = prune-spares a.patterns c o a.path m' k a.member a.no_group in
      ground (arith, clear, a.under)

  without_accepted-none : lookup "duplication" accept ≡ none → r ≡ without_accepted accept r
  unfolding without_accepted
  without_accepted-none missing = rw (without_accepted, missing) refl

  -- `spared` tells the copies that stand under no accepted path.
  module _ (spared : CloneOccurrence → Bool)
      (decides : (o : CloneOccurrence) → (spared o ≡ false) ↔ IsAccepted accept o) where
    untouched :
        (c : CloneClass) → ((o : CloneOccurrence) → ¬ IsAccepted accept o) → c ≡ trimmed spared c
    untouched c free =
        let all_spared : (o : CloneOccurrence) → Memᴰ o c.occurrences → spared o ≡ true = λ o k.
          elim (Bool-cases (spared o)) [
            | inl kept ↦ kept
            | inr gone ↦ absurd (free o ((decides o).0 gone))
          ] in
        λ i. record c { occurrences = sym (all_retained spared c.occurrences all_spared) i }

    prune-trims :
        (patterns : List String) (c : CloneClass)
        → lookup "duplication" accept ≡ some patterns
        → Memᴰ c r.duplication
        → 2 ≤ length (retain spared c.occurrences)
        → Memᴰ (trimmed spared c) (prune_accepted_occurrences r.duplication patterns)
    unfolding prune_accepted_occurrences
    prune-trims patterns c found m two =
        let test = λ (pattern : String). not (contains_text " + " pattern) in
        let paths = retain test patterns in
        let hit = λ (o : CloneOccurrence). any (λ path. is_under o.file path) paths in
        let listed : (o : CloneOccurrence) → (a : IsAccepted accept o) → Memᴰ a.path paths = λ o a.
          retain-Mem test patterns a.path (ground (arith, a.no_group))
            (subst (Memᴰ a.path) (eq_of_some (sym a.found ∙ found)) a.member) in
        let agree : (o : CloneOccurrence) → spared o ≡ not (hit o) = λ o.
          elim (Bool-cases (hit o)) [
            | inl under_one ↦
                let (path, q, under) = any-Mem (λ path. is_under o.file path) paths under_one in
                let gone = (decides o).1 record {
                  patterns = patterns;
                  path = path;
                  found = found;
                  member = Mem-retain test patterns path q;
                  no_group = ground (arith, retain-passes test patterns path q);
                  under = under;
                } in
                ground (arith, gone, under_one)
            | inr clear ↦ elim (Bool-cases (spared o)) [
              | inl kept ↦ ground (arith, kept, clear)
              | inr gone ↦
                  let a = (decides o).0 gone in
                  absurd (
                    ground (
                      arith,
                      clear,
                      Mem-any (λ path. is_under o.file path) paths a.path (listed o a) a.under,
                    ))
            ]
          ] in
        elim (Bool-cases (nat_beq (length paths) 0)) [
          | inl empty ↦ rw empty (
              subst (λ d. Memᴰ d r.duplication)
                (untouched c (λ o a. ground (arith, empty, Mem-length paths a.path (listed o a))))
                m)
          | inr some_left ↦ rw some_left (
              let same = retain_congr spared (λ o. not (hit o)) c.occurrences agree in
              subst⁻¹
                (λ os.
                  Memᴰ (record c { occurrences = os })
                    (keep_classes (λ o. not (hit o)) r.duplication))
                same
                (keep_classes-trims (λ o. not (hit o)) r.duplication c m
                  (subst (λ os. 2 ≤ length os) same two)))
        ]

    pub without_accepted-trims :
        (c : CloneClass)
        → Memᴰ c r.duplication
        → 2 ≤ length (retain spared c.occurrences)
        → (let w = without_accepted accept r in Memᴰ (trimmed spared c) w.duplication)
    without_accepted-trims c m two = elim (Option-cases (lookup "duplication" accept)) [
      | inl missing ↦
          subst (λ (w : AnalysisReport). Memᴰ (trimmed spared c) w.duplication)
            (without_accepted-none missing)
            (subst (λ d. Memᴰ d r.duplication)
              (untouched c (λ o a. ground (arith, missing, a.found))) m)
      | inr (patterns, found) ↦
          subst⁻¹ (Memᴰ (trimmed spared c)) (without_accepted-found patterns found)
            (prune-trims patterns c found m two)
    ]

  pub without_accepted-others :
      (digest : List String → ℕ) (pillar : Pillar)
      → pillar ≢ Pillars.duplication
      → prints_of digest (without_accepted accept r) pillar ≡ prints_of digest r pillar
  unfolding without_accepted prints_of
  without_accepted-others digest pillar apart = elim (Option-cases (lookup "duplication" accept)) [
    | inl missing ↦ ap (λ w. prints_of digest w pillar) (sym (without_accepted-none missing))
    | inr (patterns, found) ↦ rw (without_accepted, found) (by_pillar pillar apart patterns)
  ]
    where
      by_pillar :
          (pillar : Pillar)
          → pillar ≢ Pillars.duplication
          → (patterns : List String)
          → prints_of digest
              (record r { duplication = prune_accepted_occurrences r.duplication patterns })
              pillar
            ≡ prints_of digest r pillar
      by_pillar Pillars.cycles apart patterns = refl
      by_pillar Pillars.dead_code apart patterns = refl
      by_pillar Pillars.boundaries apart patterns = refl
      by_pillar Pillars.duplication apart patterns = absurd (apart refl)
      by_pillar Pillars.smells apart patterns = refl
