-- ===== src/Gate/Repeats/Status.antt =====
-- What src/mcp/repeats.rs promises for one finding: the life of its key, whatever the rest of the
-- state holds.
use sensez.Prelude.{
  ℕ, ◌+◌, ◌≡◌, ◌∙◌, sym, ap, refl, String, Bool, true, false, none, some, leb, if◌then◌else◌,
  lookup, insert, remove, contains, add, unwrap_or, string_eq, ◌==◌, arith, Bool-cases,
  Option-cases, inl, inr, ==_self, lookup-insert, lookup-remove, contains-add,
}
use sensez.Gate.Repeats.{
  RepeatState, Deferred, visit, repeat_or_defer, saturating_add, defer_expiry_secs,
}
use sensez.Gate.Repeats.Branches.{
  shown_count, repeat_show, repeat_first, repeat_again, visit_expired, visit_waits, visit_barred,
  visit_open,
}

-- Shown so far `count` times; held back until a time; held back for good.
pub data Status : Type 0 where
  seen : (again : Bool) (count : ℕ) → Status
  held : (until : ℕ) → Status
  barred : Status

unfoldable pub status_of : String → RepeatState → Status
status_of k s = elim (lookup k s.deferred) [
  | none ↦ seen (contains k s.expired_once) (unwrap_or (lookup k s.counts) 0)
  | some d ↦ elim d.expires_at [ none ↦ barred | some t ↦ held t ]
]

-- One report of the finding: what becomes of it, and whether it is shown.
unfoldable pub turn : ℕ → ℕ → Status → Status × Bool
turn limit now (seen again n) =
    if leb limit n
    then (if again then barred else held (saturating_add now defer_expiry_secs), false)
    else (seen again (n + 1), true)
turn limit now (held t) = if leb t now then (seen true 1, true) else (held t, false)
turn limit now barred = (barred, false)

deferral : Deferred → Status
deferral d = elim d.expires_at [ none ↦ barred | some t ↦ held t ]

defer_lem :
    (j k : String) (d : Deferred) (s : RepeatState)
    → status_of j (record s { deferred = insert k d s.deferred })
      ≡ (if k == j then deferral d else status_of j s)
unfolding status_of deferral
defer_lem j k d s = ground (arith, lookup-insert j k d s.deferred)

count_lem :
    (j k : String) (n : ℕ) (s : RepeatState)
    → lookup k s.deferred ≡ none
    → status_of j (record s { counts = insert k n s.counts })
      ≡ (if k == j then seen (contains k s.expired_once) n else status_of j s)
unfolding status_of
count_lem j k n s h = elim (Bool-cases (k == j)) [
  | inl same ↦
      rw (sym ((string_eq.decides k j).0 same))
        (ground (arith, lookup-insert k k n s.counts, ==_self k))
  | inr differs ↦ ground (arith, lookup-insert j k n s.counts)
]

expire_lem :
    (j k : String) (s : RepeatState)
    → status_of j (record {
      counts = insert k 1 s.counts;
      deferred = remove k s.deferred;
      expired_once = add k s.expired_once;
    })
      ≡ (if k == j then seen true 1 else status_of j s)
unfolding status_of
expire_lem j k s = ground (
  arith,
  lookup-insert j k 1 s.counts,
  lookup-remove j k s.deferred,
  contains-add j k s.expired_once,
)

status_none :
    (k : String) (s : RepeatState)
    → lookup k s.deferred ≡ none
    → status_of k s ≡ seen (contains k s.expired_once) (unwrap_or (lookup k s.counts) 0)
unfolding status_of
status_none k s h = ground arith

Agrees : ℕ → ℕ → String → String → RepeatState → RepeatState × Bool → Type 0
Agrees limit now k j s out =
    (out.1 ≡ (turn limit now (status_of k s)).1)
    × (status_of j out.0 ≡ (if k == j then (turn limit now (status_of k s)).0 else status_of j s))

repeat-turn :
    (limit now : ℕ) (k j : String) (s : RepeatState)
    → lookup k s.deferred ≡ none
    → Agrees limit now k j s (repeat_or_defer limit now k s)
unfolding turn shown_count Agrees deferral
repeat-turn limit now k j s h = elim (Bool-cases (leb limit (shown_count k s))) [
  | inr less ↦
      rw (repeat_show limit now k s h less)
        (rw (status_none k s h) (rw less (refl, count_lem j k (shown_count k s + 1) s h)))
  | inl enough ↦ elim (Bool-cases (contains k s.expired_once)) [
    | inl again ↦ rw (repeat_again limit now k s h enough again) (
        rw (status_none k s h)
          (rw enough (rw again (refl, defer_lem j k (record { expires_at = none }) s))))
    | inr first ↦
        let t = saturating_add now defer_expiry_secs in
        rw (repeat_first limit now k s h enough first) (
          rw (status_none k s h)
            (rw enough (rw first (refl, defer_lem j k (record { expires_at = some t }) s))))
  ]
]

status_some :
    (k : String) (d : Deferred) (s : RepeatState)
    → lookup k s.deferred ≡ some d
    → status_of k s ≡ deferral d
unfolding status_of deferral
status_some k d s h = ground arith

-- A finding whose status stays leaves every status alone.
stays :
    (k j : String) (s : RepeatState) (o : Status)
    → status_of k s ≡ o
    → status_of j s ≡ (if k == j then o else status_of j s)
stays k j s o e = elim (Bool-cases (k == j)) [
  | inl same ↦ rw same (ap (λ z. status_of z s) (sym ((string_eq.decides k j).0 same)) ∙ e)
  | inr differs ↦ rw differs refl
]

-- The code on the maps and sets does to the finding's own status what `turn` says, answers as
-- `turn` does, and leaves the status of every other finding alone.
pub visit-turn :
    (limit now : ℕ) (k j : String) (s : RepeatState)
    → ((visit limit now k s).1 ≡ (turn limit now (status_of k s)).1)
      × (status_of j (visit limit now k s).0
          ≡ (if k == j then (turn limit now (status_of k s)).0 else status_of j s))
unfolding turn deferral Agrees
visit-turn limit now k j s = elim (Option-cases (lookup k s.deferred)) [
  | inl h ↦ rw (visit_open limit now k s h) (repeat-turn limit now k j s h)
  | inr (d, h) ↦ elim (Option-cases d.expires_at) [
    | inl e ↦
        let o : status_of k s ≡ barred = status_some k d s h ∙ ground arith in
        rw (visit_barred limit now k d s h e) (rw o (refl, stays k j s barred o))
    | inr (t, e) ↦
        let o : status_of k s ≡ held t = status_some k d s h ∙ ground arith in
        elim (Bool-cases (leb t now)) [
          | inl late ↦
              rw (visit_expired limit now k d t s h e late)
                (rw o (rw late (refl, expire_lem j k s)))
          | inr early ↦
              rw (visit_waits limit now k d t s h e early)
                (rw o (rw early (refl, stays k j s (held t) o)))
        ]
  ]
]
