-- ===== src/Brainz/Staleness.antt =====
-- src/brainz/staleness.rs: the findings that are old enough for triage.
use sensez.Prelude.{
  ℕ, ◌+◌, ◌-◌, ◌/◌, ◌≤◌, String, Bool, false, not, ◌&&◌, List, [], ◌∷◌, ◌++◌, ◌≡◌, refl, arith, ltb,
  ◌*◌, Bool, map, map-append, retain, retain-append, sort-perm, if◌then◌else◌, contains, string_eq,
  sort, All, IsSorted, sort-IsSorted, All-sort,
}
use mathlib.Core.Path.{subst, subst⁻¹}
use mathlib.Core.List.{Perm}
use sensez.Report.Pillar
use sensez.Report.Pillar.{Pillar}
use sensez.Brainz.Fingerprint.{AgedEntry, Aged}

-- `STALE_AFTER_SECS`
abbrev pub stale_after_secs : ℕ
stale_after_secs = 604800

-- One row: pillar, key, label and whole days unresolved.
pub record Stale : Type 0 where
  pub pillar : String
  pub key : String
  pub label : String
  pub days : ℕ

module _ (now : ℕ) (ignore : List String) where
  unfoldable pub is_stale : String × AgedEntry → Bool
  is_stale (k, e) = ltb stale_after_secs (now - e.first_seen) && not (contains k ignore)

  -- The inner loop.
  unfoldable pub stale_of : Pillar → List (String × AgedEntry) → List Stale
  unfolding is_stale
  stale_of pillar [] = []
  stale_of pillar ((k, e) ∷ prints) =
      let rest = stale_of pillar prints in
      if is_stale (k, e)
      then record {
        pillar = Pillar.as_str pillar;
        key = k;
        label = e.label;
        days = (now - e.first_seen) / 86400;
      }
        ∷ rest
      else rest

  unfoldable pub stale_rows : Aged → List Stale
  stale_rows [] = []
  stale_rows ((pillar, prints) ∷ aged) = stale_of pillar prints ++ stale_rows aged

  -- `sort_by_key(Reverse(days))`
  abbrev pub older : Stale → Stale → Bool
  older a b = ltb b.days a.days

  unfoldable pub stale_entries : Aged → List Stale
  stale_entries aged = sort older (stale_rows aged)

  -- A carried finding waits for triage: it was first seen more than seven days ago, and its key
  -- has no verdict.
  abbrev pub waits : Pillar × String × AgedEntry → Bool
  waits (pillar, k, e) = ltb (e.first_seen + 7 * 24 * 60 * 60) now && not (contains k ignore)

  -- What the list says of it.
  abbrev pub row_of : Pillar × String × AgedEntry → Stale
  row_of (pillar, k, e) = record {
    pillar = Pillar.as_str pillar;
    key = k;
    label = e.label;
    days = (now - e.first_seen) / 86400;
  }

  -- Every carried finding, with its pillar.
  abbrev pub of_pillar : Pillar → List (String × AgedEntry) → List (Pillar × String × AgedEntry)
  of_pillar pillar prints = map (λ (k, e). (pillar, k, e)) prints

  unfoldable pub carried : Aged → List (Pillar × String × AgedEntry)
  carried [] = []
  carried ((pillar, prints) ∷ aged) = of_pillar pillar prints ++ carried aged

  -- A row is at least seven whole days old, and its key was not triaged.
  abbrev pub IsDue : Stale → Type 0
  IsDue row = (7 ≤ row.days) × (contains row.key ignore ≡ false)

  is_stale-waits :
      (pillar : Pillar) (k : String) (e : AgedEntry) → is_stale (k, e) ≡ waits (pillar, k, e)
  unfolding is_stale
  is_stale-waits pillar k e = ground arith

  stale_of-waits :
      (pillar : Pillar) (prints : List (String × AgedEntry))
      → stale_of pillar prints ≡ map row_of (retain waits (of_pillar pillar prints))
  unfolding stale_of retain
  stale_of-waits pillar [] = refl
  stale_of-waits pillar ((k, e) ∷ prints) =
      ground (arith, is_stale-waits pillar k e, stale_of-waits pillar prints)

  stale_rows-waits : (aged : Aged) → stale_rows aged ≡ map row_of (retain waits (carried aged))
  unfolding stale_rows carried retain
  stale_rows-waits [] = refl
  stale_rows-waits ((pillar, prints) ∷ aged) = cc (
    stale_of-waits pillar prints,
    stale_rows-waits aged,
    retain-append waits (of_pillar pillar prints) (carried aged),
    map-append row_of (retain waits (of_pillar pillar prints)) (retain waits (carried aged)),
  )

  IsDue-waits :
      (entries : List (Pillar × String × AgedEntry)) → All IsDue (map row_of (retain waits entries))
  unfolding retain
  IsDue-waits [] = tt
  IsDue-waits ((pillar, k, e) ∷ entries) = ground (arith, IsDue-waits entries)

  -- The list for triage stands in order of age, oldest first. It is a rearrangement of one row for
  -- each carried finding that was first seen more than seven days ago and has no verdict, with its
  -- pillar, key, label and age in whole days; so each row is at least seven days old.
  pub stale_entries-IsDue :
      (aged : Aged)
      → IsSorted older (stale_entries aged)
        × Perm (stale_entries aged) (map row_of (retain waits (carried aged)))
        × All IsDue (stale_entries aged)
  unfolding stale_entries
  stale_entries-IsDue aged =
      let rows = stale_rows-waits aged in
      (
        sort-IsSorted older (λ x y h. ground arith) (λ x y z h h'. ground arith) (stale_rows aged),
        subst (Perm (sort older (stale_rows aged))) rows (sort-perm older (stale_rows aged)),
        All-sort older IsDue (stale_rows aged)
            (subst⁻¹ (All IsDue) rows (IsDue-waits (carried aged))),
      )
