-- ===== src/Gate/Repeats/Branches.antt =====
-- src/mcp/repeats.rs: each branch of the closure of `retain_allowed`.
use sensez.Prelude.{
  ℕ, ◌+◌, ◌≡◌, String, true, false, none, some, leb, lookup, insert, remove, contains, add,
  unwrap_or, string_eq, arith,
}
use sensez.Gate.Repeats.{
  RepeatState, Deferred, visit, repeat_or_defer, saturating_add, defer_expiry_secs,
}

unfoldable pub shown_count : String → RepeatState → ℕ
shown_count k s = unwrap_or (lookup k s.counts) 0

pub repeat_held :
    (limit now : ℕ) (k : String) (d : Deferred) (s : RepeatState)
    → lookup k s.deferred ≡ some d
    → repeat_or_defer limit now k s ≡ (s, false)
unfolding repeat_or_defer
repeat_held limit now k d s h = ground arith

pub repeat_show :
    (limit now : ℕ) (k : String) (s : RepeatState)
    → lookup k s.deferred ≡ none
    → leb limit (shown_count k s) ≡ false
    → repeat_or_defer limit now k s
      ≡ (record s { counts = insert k (shown_count k s + 1) s.counts }, true)
unfolding repeat_or_defer shown_count
repeat_show limit now k s h less = ground arith

pub repeat_first :
    (limit now : ℕ) (k : String) (s : RepeatState)
    → lookup k s.deferred ≡ none
    → leb limit (shown_count k s) ≡ true
    → contains k s.expired_once ≡ false
    → repeat_or_defer limit now k s ≡ (
      record s {
        deferred =
            insert k
              (record { expires_at = some (saturating_add now defer_expiry_secs) })
              s.deferred;
      },
      false,
    )
unfolding repeat_or_defer shown_count
repeat_first limit now k s h enough first = ground arith

pub repeat_again :
    (limit now : ℕ) (k : String) (s : RepeatState)
    → lookup k s.deferred ≡ none
    → leb limit (shown_count k s) ≡ true
    → contains k s.expired_once ≡ true
    → repeat_or_defer limit now k s
      ≡ (record s { deferred = insert k (record { expires_at = none }) s.deferred }, false)
unfolding repeat_or_defer shown_count
repeat_again limit now k s h enough again = ground arith

pub visit_expired :
    (limit now : ℕ) (k : String) (d : Deferred) (t : ℕ) (s : RepeatState)
    → lookup k s.deferred ≡ some d
    → d.expires_at ≡ some t
    → leb t now ≡ true
    → visit limit now k s ≡ (
      record {
        counts = insert k 1 s.counts;
        deferred = remove k s.deferred;
        expired_once = add k s.expired_once;
      },
      true,
    )
unfolding visit
visit_expired limit now k d t s h e late = ground arith

pub visit_waits :
    (limit now : ℕ) (k : String) (d : Deferred) (t : ℕ) (s : RepeatState)
    → lookup k s.deferred ≡ some d
    → d.expires_at ≡ some t
    → leb t now ≡ false
    → visit limit now k s ≡ (s, false)
unfolding visit
visit_waits limit now k d t s h e early = ground (arith, repeat_held limit now k d s h)

pub visit_barred :
    (limit now : ℕ) (k : String) (d : Deferred) (s : RepeatState)
    → lookup k s.deferred ≡ some d
    → d.expires_at ≡ none
    → visit limit now k s ≡ (s, false)
unfolding visit
visit_barred limit now k d s h e = ground (arith, repeat_held limit now k d s h)

pub visit_open :
    (limit now : ℕ) (k : String) (s : RepeatState)
    → lookup k s.deferred ≡ none
    → visit limit now k s ≡ repeat_or_defer limit now k s
unfolding visit
visit_open limit now k s h = ground arith
