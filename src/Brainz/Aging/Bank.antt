-- ===== src/Brainz/Aging/Bank.antt =====
-- The bank of resolved findings over one pillar.
use sensez.Prelude.{
  ℕ, String, Bool, true, false, Option, none, some, List, [], ◌∷◌, ◌≡◌, refl, ◌∙◌, if◌then◌else◌,
  lookup, insert, lookup-insert, lookup-remove, unwrap_or, string_eq, any, ◌||◌, ◌-◌, arith,
  IsKeyed, contains,
}
use sensez.Report.Pillar.{Pillar, pillar_eq}
use sensez.Brainz.Fingerprint.{
  Print, key, detector_name, AgedEntry, ResolvedRecord, Aged, ResolvedHistory,
}
use sensez.Brainz.Aging.{
  Visit, Aging, Tallies, tally, visit_print, visit_prints, visit_old, is_gone, age_pillar,
}
use sensez.Brainz.Aging.Presence.{present, is_some-visit_prints}

history-visit_prints :
    (now : ℕ) (old : List (String × AgedEntry)) (k : String) (ps : List Print) (v : Visit)
    → lookup k (visit_prints now old ps v).history
      ≡ (if present k ps then none else lookup k v.history)
unfolding visit_prints visit_print present any
history-visit_prints now old k [] v = refl
history-visit_prints now old k (p ∷ ps) v =
    history-visit_prints now old k ps (visit_print now old p v)
    ∙ ground (arith, lookup-remove k (key p) v.history, string_eq.decides (key p) k)

-- What the bank holds for a key of the last scan: that it was resolved now, if it is gone.
abbrev pub banked : ℕ → Bool → Option AgedEntry → Option ResolvedRecord → Option ResolvedRecord
banked now gone none before = before
banked now gone (some e) before =
    if gone then some (record { class = e.class; resolved_ts = now }) else before

history-visit_old :
    (now : ℕ) (entry : List (String × AgedEntry)) (ignore : List String) (k : String)
    (old : List (String × AgedEntry)) (resolved : Tallies) (history : ResolvedHistory)
    → IsKeyed old
    → lookup k (visit_old now entry ignore old (resolved, history)).1
      ≡ banked now (is_gone entry ignore k) (lookup k old) (lookup k history)
unfolding visit_old lookup
history-visit_old now entry ignore k [] resolved history h = refl
history-visit_old now entry ignore k ((j, e) ∷ old) resolved history h = ground (
  arith,
  h.0,
  string_eq.decides j k,
  lookup-insert k j (record { class = e.class; resolved_ts = now }) history,
  history-visit_old now entry ignore k old
      (tally (detector_name e.class) (now - e.first_seen) resolved)
      (insert j (record { class = e.class; resolved_ts = now }) history) h.1,
  history-visit_old now entry ignore k old resolved history h.1,
)

-- A key is gone if this scan does not report it and the user did not triage it.
abbrev pub vanished : List String → List Print → String → Bool
vanished ignore prints k = if present k prints || contains k ignore then false else true

-- After a pillar is aged, the bank holds for each key: that it was resolved now, if the last scan
-- of the pillar had it, this scan does not and it was not triaged; nothing, if this scan reports
-- it; and what it held before in every other case.
pub age_pillar-history :
    (prev : Aged) (now : ℕ) (ignore : List String) (pillar : Pillar) (prints : List Print)
    (a : Aging) (k : String)
    → IsKeyed (unwrap_or (lookup pillar prev) [])
    → lookup k (age_pillar prev now ignore (pillar, prints) a).history
      ≡ banked now
          (vanished ignore prints k)
          (lookup k (unwrap_or (lookup pillar prev) []))
          (if present k prints then none else lookup k a.history)
unfolding age_pillar is_gone
age_pillar-history prev now ignore pillar prints a k keyed =
    let old = unwrap_or (lookup pillar prev) [] in
    let v : Visit = record { entry = []; reintroduced = a.reintroduced; history = a.history } in
    let seen = visit_prints now old prints v in
    history-visit_old now seen.entry ignore k old a.resolved seen.history keyed
    ∙ rw (history-visit_prints now old k prints v, is_some-visit_prints now old k prints v refl)
