-- ===== src/Brainz/Aging/Presence.antt =====
-- The entries that one scan carries forward, and when each was first seen.
use mathlib.Core.Option
use sensez.Prelude.{
  ℕ, String, Bool, Option, none, some, List, [], ◌∷◌, ◌≡◌, refl, ap, ◌∙◌, if◌then◌else◌, lookup,
  insert, lookup-insert, unwrap_or, is_some, string_eq, any, ◌==◌, arith, IsKeyed,
}
use sensez.Report.Pillar.{Pillar, pillar_eq}
use sensez.Brainz.Fingerprint.{Print, key, AgedEntry, Prints, Aged, ResolvedHistory}
use sensez.Brainz.Aging.{
  Visit, Aging, visit_print, visit_prints, age_pillar, age_pillars, age, active,
}

-- The scan reports a finding with this key.
unfoldable pub present : String → List Print → Bool
present k prints = any (λ p. key p == k) prints

abbrev pub seen_at : Option AgedEntry → Option ℕ
seen_at = Option.map (λ (e : AgedEntry). e.first_seen)

-- When the key was first seen, as of a scan at `now`.
abbrev pub since : ℕ → List (String × AgedEntry) → String → ℕ
since now old k = unwrap_or (seen_at (lookup k old)) now

-- The entries alone, without the tallies.
unfoldable pub entries :
    ℕ
    → List (String × AgedEntry)
    → List Print
    → List (String × AgedEntry)
    → List (String × AgedEntry)
entries now old [] m = m
entries now old (p ∷ ps) m = entries now old ps (
    insert (key p) (record { first_seen = since now old (key p); label = p.label; class = p.class })
      m)

pub visit_prints-entry :
    (now : ℕ) (old : List (String × AgedEntry)) (ps : List Print) (v : Visit)
    → (visit_prints now old ps v).entry ≡ entries now old ps v.entry
unfolding visit_prints visit_print entries
visit_prints-entry now old [] v = refl
visit_prints-entry now old (p ∷ ps) v = visit_prints-entry now old ps (visit_print now old p v)

pub seen_at-entries :
    (now : ℕ) (old : List (String × AgedEntry)) (k : String) (ps : List Print)
    (m : List (String × AgedEntry))
    → seen_at (lookup k (entries now old ps m))
      ≡ (if present k ps then some (since now old k) else seen_at (lookup k m))
unfolding entries present any
seen_at-entries now old k [] m = refl
seen_at-entries now old k (p ∷ ps) m =
    let e : AgedEntry = record {
      first_seen = since now old (key p);
      label = p.label;
      class = p.class;
    } in
    seen_at-entries now old k ps (insert (key p) e m)
    ∙ ground (arith, lookup-insert k (key p) e m, string_eq.decides (key p) k)

pub is_some-entries :
    (now : ℕ) (old : List (String × AgedEntry)) (k : String) (ps : List Print)
    → is_some (lookup k (entries now old ps [])) ≡ present k ps
unfolding lookup
is_some-entries now old k ps = ground (arith, seen_at-entries now old k ps [])

-- The first visit of a pillar starts from no entries.
pub is_some-visit_prints :
    (now : ℕ) (old : List (String × AgedEntry)) (k : String) (ps : List Print) (v : Visit)
    → v.entry ≡ []
    → is_some (lookup k (visit_prints now old ps v).entry) ≡ present k ps
is_some-visit_prints now old k ps v e =
    ap (λ m. is_some (lookup k m)) (visit_prints-entry now old ps v ∙ ap (entries now old ps) e)
    ∙ is_some-entries now old k ps

module _ (prev : Aged) (now : ℕ) (ignore : List String) where
  age_pillar-aged :
      (p q : Pillar) (ps : List Print) (a : Aging)
      → lookup q (age_pillar prev now ignore (p, ps) a).aged ≡ (
          if p == q
          then some (entries now (unwrap_or (lookup p prev) []) ps [])
          else lookup q a.aged)
  unfolding age_pillar
  age_pillar-aged p q ps a =
      let old = unwrap_or (lookup p prev) [] in
      let v : Visit = record { entry = []; reintroduced = a.reintroduced; history = a.history } in
      lookup-insert q p (visit_prints now old ps v).entry a.aged
      ∙ ap (λ m. if p == q then some m else lookup q a.aged) (visit_prints-entry now old ps v)

  age_pillars-aged :
      (q : Pillar) (current : Prints) (a : Aging)
      → IsKeyed current
      → lookup q (age_pillars prev now ignore current a).aged ≡ (elim (lookup q current) [
        | none ↦ lookup q a.aged
        | some ps ↦ some (entries now (unwrap_or (lookup q prev) []) ps [])
      ])
  unfolding age_pillars lookup
  age_pillars-aged q [] a h = refl
  age_pillars-aged q ((p, ps) ∷ current) a h =
      age_pillars-aged q current (age_pillar prev now ignore (p, ps) a) h.1
      ∙ ground (arith, age_pillar-aged p q ps a, h.0, pillar_eq.decides p q)

-- After a scan the carried entries of a pillar are exactly the findings that it reports now; one
-- that the last scan had keeps the time when it was first seen, and a new one is first seen now.
pub age-first_seen :
    (prev : Aged) (current : Prints) (history : ResolvedHistory) (now : ℕ) (ignore : List String)
    (pillar : Pillar) (prints : List Print)
    → IsKeyed current
    → lookup pillar current ≡ some prints
    → (entry : List (String × AgedEntry)) × (lookup pillar
          (age prev current history now ignore).aged
        ≡ some entry)
      × ((k : String)
          → seen_at (lookup k entry) ≡ (
              if present k prints
              then some (since now (unwrap_or (lookup pillar prev) []) k)
              else none))
unfolding age lookup
age-first_seen prev current history now ignore pillar prints keyed found =
    let old = unwrap_or (lookup pillar prev) [] in
    (
      entries now old prints [],
      ground (
        arith,
        found,
        age_pillars-aged prev now ignore pillar current
            (record { aged = []; resolved = []; reintroduced = []; history = active now history })
            keyed,
      ),
      λ k. seen_at-entries now old k prints [],
    )
