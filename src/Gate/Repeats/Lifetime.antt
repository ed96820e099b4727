-- ===== src/Gate/Repeats/Lifetime.antt =====
-- How often src/mcp/repeats.rs lets one finding through, over all turns of a session.
use sensez.Prelude.{
  ℕ, suc, ◌+◌, ◌-◌, ◌≤◌, ◌≡◌, ap, max, String, true, false, ◌&&◌, List, [], ◌∷◌, if◌then◌else◌,
  string_eq, ◌==◌, arith, Bool-cases, inl, inr,
}
use sensez.Gate.Repeats.{RepeatState, visit}
use sensez.Gate.Repeats.Status.{Status, seen, held, barred, status_of, turn, visit-turn}

-- How many of the visits, each a time and a key, show the finding `k`.
unfoldable pub shown_times : ℕ → String → List (ℕ × String) → RepeatState → ℕ
shown_times limit k [] s = 0
shown_times limit k ((now, j) ∷ visits) s =
    let (s', keep) = visit limit now j s in
    let rest = shown_times limit k visits s' in if j == k && keep then suc rest else rest

-- How often a finding with a status can still be shown.
unfoldable pub left : ℕ → Status → ℕ
left limit (seen true n) = limit - n
left limit (seen false n) = limit - n + max 1 limit
left limit (held _) = max 1 limit
left limit barred = 0

turn-left :
    (limit now : ℕ) (o : Status)
    → (if (turn limit now o).1 then 1 else 0) + left limit (turn limit now o).0 ≤ left limit o
unfolding turn left
turn-left limit now (seen true n) = ground arith
turn-left limit now (seen false n) = ground arith
turn-left limit now (held t) = ground arith
turn-left limit now barred = ground arith

-- From any state, however the visits of this finding and of others fall and whenever they happen,
-- a finding is shown at most as often as its status has left: never once it is barred, at most
-- `max 1 limit` times while it is held, and at most `limit + max 1 limit` times when it is new.
pub shown_times-left :
    (limit : ℕ) (k : String) (visits : List (ℕ × String)) (s : RepeatState)
    → shown_times limit k visits s ≤ left limit (status_of k s)
unfolding shown_times
shown_times-left limit k [] s = omega arith
shown_times-left limit k ((now, j) ∷ visits) s =
    let s' = (visit limit now j s).0 in
    let (keep, next) = visit-turn limit now j k s in
    let rest = shown_times-left limit k visits s' in
    elim (Bool-cases (j == k)) [
      | inl same ↦
          let e : j ≡ k = (string_eq.decides j k).0 same in
          ground (
            arith,
            turn-left limit now (status_of j s),
            keep,
            next,
            same,
            rest,
            ap (λ z. status_of z s) e,
          )
      | inr differs ↦ ground (arith, next, differs, rest)
    ]
