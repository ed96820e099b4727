-- ===== src/Brainz/Aging.antt =====
-- src/brainz/aging.rs: what one scan derives from the scan before it and from the bank of
-- resolved findings. Times are in seconds.
pub mod Presence
pub mod Bank
pub mod Tally
use sensez.Prelude.{
  ℕ, ◌+◌, ◌-◌, String, Bool, true, false, Option, none, some, List, [], ◌∷◌, leb, if◌then◌else◌,
  ◌||◌, contains, lookup, insert, remove, upsert, unwrap_or, is_some, retain, string_eq,
}
use mathlib.Core.Option
use sensez.Report.Pillar.{Pillar, pillar_eq}
use sensez.Brainz.Events.{Resolved}
use sensez.Brainz.Fingerprint.{
  Print, key, detector_name, AgedEntry, ResolvedRecord, Prints, Aged, ResolvedHistory,
}

-- `REINTRO_WINDOW_SECS`
abbrev pub reintro_window_secs : ℕ
reintro_window_secs = 2592000

abbrev pub Tallies : Type 0
Tallies = List (String × Resolved)

pub record Aging : Type 0 where
  pub aged : Aged
  pub resolved : Tallies
  pub reintroduced : Tallies
  pub history : ResolvedHistory

-- `entry(class).or_default()`, one more finding that took `secs`.
unfoldable pub tally : String → ℕ → Tallies → Tallies
tally class secs =
    upsert class (record { count = 0; secs_total = 0 })
      (λ t. record { count = t.count + 1; secs_total = t.secs_total + secs })

-- Records too old to count as a reintroduction are dropped first.
unfoldable pub active : ℕ → ResolvedHistory → ResolvedHistory
active now = retain (λ (_, r). leb (now - r.resolved_ts) reintro_window_secs)

-- The state of the loop over one pillar: its new entries, and what all pillars share.
pub record Visit : Type 0 where
  pub entry : List (String × AgedEntry)
  pub reintroduced : Tallies
  pub history : ResolvedHistory

-- The first body: a finding that is present now.
unfoldable pub visit_print : ℕ → List (String × AgedEntry) → Print → Visit → Visit
visit_print now old print v =
    let k = key print in
    let first_seen = unwrap_or (Option.map (λ (e : AgedEntry). e.first_seen) (lookup k old)) now in
    record {
      entry =
          insert k (record { first_seen = first_seen; label = print.label; class = print.class })
            v.entry;
      reintroduced = elim (lookup k v.history) [
        | none ↦ v.reintroduced
        | some rec ↦ tally (detector_name print.class) (now - rec.resolved_ts) v.reintroduced
      ];
      history = remove k v.history;
    }

unfoldable pub visit_prints : ℕ → List (String × AgedEntry) → List Print → Visit → Visit
visit_prints now old [] v = v
visit_prints now old (p ∷ ps) v = visit_prints now old ps (visit_print now old p v)

-- A finding of the last scan that is gone now, unless the user triaged it.
unfoldable pub is_gone : List (String × AgedEntry) → List String → String → Bool
is_gone entry ignore k = if is_some (lookup k entry) || contains k ignore then false else true

-- The second body: count what is gone, and bank it.
unfoldable pub visit_old :
    ℕ
    → List (String × AgedEntry)
    → List String
    → List (String × AgedEntry)
    → Tallies × ResolvedHistory
    → Tallies × ResolvedHistory
visit_old now entry ignore [] banked = banked
visit_old now entry ignore ((k, gone) ∷ old) (resolved, history) = visit_old now entry ignore old (
    if is_gone entry ignore k
    then (
      tally (detector_name gone.class) (now - gone.first_seen) resolved,
      insert k (record { class = gone.class; resolved_ts = now }) history,
    )
    else (resolved, history))

-- The body of the loop over the pillars.
unfoldable pub age_pillar : Aged → ℕ → List String → Pillar × List Print → Aging → Aging
age_pillar prev now ignore (pillar, prints) a =
    let old = unwrap_or (lookup pillar prev) [] in
    let v =
      visit_prints now old prints
        (record { entry = []; reintroduced = a.reintroduced; history = a.history }) in
    let (resolved, history) = visit_old now v.entry ignore old (a.resolved, v.history) in
    record {
      aged = insert pillar v.entry a.aged;
      resolved = resolved;
      reintroduced = v.reintroduced;
      history = history;
    }

unfoldable pub age_pillars : Aged → ℕ → List String → Prints → Aging → Aging
age_pillars prev now ignore [] a = a
age_pillars prev now ignore (p ∷ ps) a =
    age_pillars prev now ignore ps (age_pillar prev now ignore p a)

unfoldable pub age : Aged → Prints → ResolvedHistory → ℕ → List String → Aging
age prev current history now ignore =
    age_pillars prev now ignore current
      (record { aged = []; resolved = []; reintroduced = []; history = active now history })
