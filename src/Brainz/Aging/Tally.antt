-- ===== src/Brainz/Aging/Tally.antt =====
-- The counts of resolved findings, over one pillar and over a scan.
use sensez.Prelude.{
  ℕ, suc, ◌+◌, ◌-◌, String, Option, none, some, List, [], ◌∷◌, ◌≡◌, refl, ap, ◌∙◌, lookup, insert,
  upsert, unwrap_or, string_eq, arith, count, count_congr,
}
use sensez.Report.Pillar.{Pillar, pillar_eq}
use sensez.Brainz.Events.{Resolved}
use sensez.Brainz.Fingerprint.{Print, Prints, detector_name, AgedEntry, Aged, ResolvedHistory}
use sensez.Brainz.Aging.{
  Visit, Aging, Tallies, tally, visit_prints, visit_old, is_gone, age_pillar, age_pillars, age,
  active,
}
use sensez.Brainz.Aging.Presence.{is_some-visit_prints}
use sensez.Brainz.Aging.Bank.{vanished}

-- The findings counted in all detectors together.
unfoldable pub total : Tallies → ℕ
total [] = 0
total ((_, r) ∷ m) = r.count + total m

abbrev counted : Option Resolved → ℕ
counted none = 0
counted (some r) = r.count

total-insert :
    (class : String) (r : Resolved) (m : Tallies)
    → total (insert class r m) + counted (lookup class m) ≡ total m + r.count
unfolding total insert lookup
total-insert class r [] = omega arith
total-insert class r ((c, s) ∷ m) = ground (arith, total-insert class r m)

pub total-tally :
    (class : String) (secs : ℕ) (m : Tallies) → total (tally class secs m) ≡ suc (total m)
unfolding tally upsert
total-tally class secs m =
    let t = unwrap_or (lookup class m) (record { count = 0; secs_total = 0 }) in
    ground (
      arith,
      total-insert class (record { count = t.count + 1; secs_total = t.secs_total + secs }) m,
    )

total-visit_old :
    (now : ℕ) (entry : List (String × AgedEntry)) (ignore : List String)
    (old : List (String × AgedEntry)) (resolved : Tallies) (history : ResolvedHistory)
    → total (visit_old now entry ignore old (resolved, history)).0
      ≡ total resolved + count (λ (k, _). is_gone entry ignore k) old
unfolding visit_old count
total-visit_old now entry ignore [] resolved history = omega arith
total-visit_old now entry ignore ((k, e) ∷ old) resolved history =
    let resolved' = tally (detector_name e.class) (now - e.first_seen) resolved in
    let history' = insert k (record { class = e.class; resolved_ts = now }) history in
    ground (
      arith,
      total-tally (detector_name e.class) (now - e.first_seen) resolved,
      total-visit_old now entry ignore old resolved' history',
      total-visit_old now entry ignore old resolved history,
    )

-- The findings of the last scan of a pillar that this scan does not report and nobody triaged.
unfoldable pub vanished_count : Aged → List String → Pillar × List Print → ℕ
vanished_count prev ignore (pillar, prints) =
    count (λ (k, _). vanished ignore prints k) (unwrap_or (lookup pillar prev) [])

total-age_pillar :
    (prev : Aged) (now : ℕ) (ignore : List String) (p : Pillar × List Print) (a : Aging)
    → total (age_pillar prev now ignore p a).resolved
      ≡ total a.resolved + vanished_count prev ignore p
unfolding age_pillar vanished_count is_gone
total-age_pillar prev now ignore (pillar, prints) a =
    let old = unwrap_or (lookup pillar prev) [] in
    let v : Visit = record { entry = []; reintroduced = a.reintroduced; history = a.history } in
    let seen = visit_prints now old prints v in
    total-visit_old now seen.entry ignore old a.resolved seen.history
    ∙ ap (λ n. total a.resolved + n)
        (count_congr (λ (k, _). is_gone seen.entry ignore k) (λ (k, _). vanished ignore prints k)
          old (λ (k, _). rw (is_some-visit_prints now old k prints v refl)))

unfoldable pub vanished_total : Aged → List String → Prints → ℕ
vanished_total prev ignore [] = 0
vanished_total prev ignore (p ∷ ps) = vanished_count prev ignore p + vanished_total prev ignore ps

total-age_pillars :
    (prev : Aged) (now : ℕ) (ignore : List String) (current : Prints) (a : Aging)
    → total (age_pillars prev now ignore current a).resolved
      ≡ total a.resolved + vanished_total prev ignore current
unfolding age_pillars vanished_total
total-age_pillars prev now ignore [] a = omega arith
total-age_pillars prev now ignore (p ∷ ps) a = omega (
  arith,
  total-age_pillar prev now ignore p a,
  total-age_pillars prev now ignore ps (age_pillar prev now ignore p a),
)

-- A scan counts as resolved, over all detectors, exactly the findings that the last scan of the
-- same pillar had, that this scan does not report and that the user did not triage.
pub age-resolved :
    (prev : Aged) (current : Prints) (history : ResolvedHistory) (now : ℕ) (ignore : List String)
    → total (age prev current history now ignore).resolved ≡ vanished_total prev ignore current
unfolding age total
age-resolved prev current history now ignore = omega (
  arith,
  total-age_pillars prev now ignore current
      (record { aged = []; resolved = []; reintroduced = []; history = active now history }),
)
