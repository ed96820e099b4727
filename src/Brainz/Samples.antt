-- ===== src/Brainz/Samples.antt =====
-- Two prints of dead code over three scans.
use sensez.Prelude.{
  ℕ, ◌≡◌, refl, String, none, some, List, [], ◌∷◌, map, retain, lookup, unwrap_or, string_eq,
  if◌then◌else◌, IsSorted, IsKeyed, All,
}
use mathlib.Core.List.{Perm}
use sensez.Report.Pillar as Pillars
use sensez.Report.Pillar.{Pillar, pillar_eq, rank}
use sensez.Brainz.Fingerprint
use sensez.Brainz.Fingerprint.{
  Print, Prints, Aged, AgedEntry, ResolvedHistory, ResolvedRecord, key, hex, detector_name,
}
use sensez.Brainz.Aging.{age, age_pillar, Aging}
use sensez.Brainz.Aging.Presence.{present, seen_at, since, age-first_seen}
use sensez.Brainz.Aging.Bank.{banked, vanished, age_pillar-history}
use sensez.Brainz.Aging.Tally.{total, vanished_total, age-resolved}
use sensez.Brainz.Staleness.{
  stale_entries, stale_entries-IsDue, older, IsDue, waits, row_of, carried,
}

abbrev print : ℕ → String → Print
print hash label = record {
  hash = hash;
  namespace = Pillars.dead_code;
  label = label;
  class = Fingerprint.dead_code "function";
}

abbrev entry : ℕ → AgedEntry
entry first_seen = record {
  first_seen = first_seen;
  label = "m::f";
  class = Fingerprint.dead_code "function";
}

-- The print 10 was there at the last scan.
abbrev before : Aged
before = (Pillars.dead_code, ("a", entry 100) ∷ []) ∷ []

abbrev now_there : Prints
now_there = (Pillars.dead_code, print 11 "m::g" ∷ []) ∷ []

before-IsKeyed : IsKeyed (unwrap_or (lookup Pillars.dead_code before) [])
unfolding lookup rank
before-IsKeyed = (refl, tt)

key-test : key (print 10 "m::f") ≡ "a"
unfolding key hex
key-test = refl

abbrev fresh_aging : Aging
fresh_aging = record { aged = []; resolved = []; reintroduced = []; history = [] }

age_pillar-history_example :
    lookup "a"
      (age_pillar before 500 [] (Pillars.dead_code, print 11 "m::g" ∷ []) fresh_aging).history
    ≡ banked 500
        (vanished [] (print 11 "m::g" ∷ []) "a")
        (lookup "a" (unwrap_or (lookup Pillars.dead_code before) []))
        (if present "a" (print 11 "m::g" ∷ []) then none else lookup "a" fresh_aging.history)
age_pillar-history_example =
    age_pillar-history before 500 [] Pillars.dead_code (print 11 "m::g" ∷ []) fresh_aging "a"
      before-IsKeyed

now_there-IsKeyed : IsKeyed now_there
unfolding lookup
now_there-IsKeyed = (refl, tt)

now_there-found : lookup Pillars.dead_code now_there ≡ some (print 11 "m::g" ∷ [])
unfolding lookup rank
now_there-found = refl

age-first_seen_example :
    (m : List (String × AgedEntry)) × (lookup Pillars.dead_code
        (age before now_there [] 500 []).aged
      ≡ some m)
    × ((k : String)
        → seen_at (lookup k m) ≡ (
            if present k (print 11 "m::g" ∷ [])
            then some (since 500 (unwrap_or (lookup Pillars.dead_code before) []) k)
            else none))
age-first_seen_example =
    age-first_seen before now_there [] 500 [] Pillars.dead_code (print 11 "m::g" ∷ [])
      now_there-IsKeyed now_there-found

age-resolved_example :
    total (age before now_there [] 500 []).resolved ≡ vanished_total before [] now_there
age-resolved_example = age-resolved before now_there [] 500 []

stale_entries-IsDue_example :
    IsSorted (older 2000000 []) (stale_entries 2000000 [] before)
    × Perm
        (stale_entries 2000000 [] before)
        (map (row_of 2000000 []) (retain (waits 2000000 []) (carried 2000000 [] before)))
    × All (IsDue 2000000 []) (stale_entries 2000000 [] before)
stale_entries-IsDue_example = stale_entries-IsDue 2000000 [] before
