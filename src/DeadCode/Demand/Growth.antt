-- ===== src/DeadCode/Demand/Growth.antt =====
-- How the demand of src/noze/dead_code/demand.rs grows: by what was missing, and never shrinks.
use sensez.Prelude.{
  ℕ, suc, ◌+◌, ◌≤◌, ◌<◌, ◌≡◌, refl, String, Bool, true, false, not, ◌||◌, List, [], ◌∷◌, arith,
  length, length-append, count, contains, contains-add, add, extend_set, string_eq, nat_beq_iff,
  if◌then◌else◌, All, ap, Bool-cases, inl, inr,
}
use sensez.DeadCode.Demand.{Demand, merged, absorb_demand}

pub contains-extend_set :
    (n : String) (xs set : List String)
    → contains n (extend_set xs set) ≡ (contains n xs || contains n set)
unfolding extend_set contains
contains-extend_set n [] set = refl
contains-extend_set n (x ∷ xs) set =
    ground (arith, contains-extend_set n xs (add x set), contains-add n x set)

add_old : (x : String) (set : List String) → contains x set ≡ true → add x set ≡ set
unfolding add
add_old x set old = rw old refl

length-add_new :
    (x : String) (set : List String)
    → contains x set ≡ false
    → length (add x set) ≡ suc (length set)
unfolding add
length-add_new x set new = rw new (omega (arith, length-append set (x ∷ [])))

pub length-add_le : (x : String) (set : List String) → length set ≤ length (add x set)
unfolding add
length-add_le x set = ground (arith, length-append set (x ∷ []))

pub length-extend_le : (xs set : List String) → length set ≤ length (extend_set xs set)
unfolding extend_set
length-extend_le [] set = omega arith
length-extend_le (x ∷ xs) set = omega (arith, length-extend_le xs (add x set), length-add_le x set)

-- A set that did not grow is the same list.
pub extend_same :
    (xs set : List String) → length (extend_set xs set) ≡ length set → extend_set xs set ≡ set
unfolding extend_set
extend_same [] set h = refl
extend_same (x ∷ xs) set h = elim (Bool-cases (contains x set)) [
  | inl old ↦ rw (add_old x set old) (extend_same xs set (rw (add_old x set old) at h))
  | inr new ↦ absurd (omega (arith, h, length-extend_le xs (add x set), length-add_new x set new))
]

pub extend_subset :
    (xs set : List String) → All (λ x. contains x set ≡ true) xs → extend_set xs set ≡ set
unfolding extend_set add
extend_subset [] set h = refl
extend_subset (x ∷ xs) set h = rw h.0 (extend_subset xs set h.1)

-- The names of `all` that a set lacks.
pub missing : (all set : List String) → ℕ
missing all set = count (λ u. not (contains u set)) all

missing-add_le :
    (all : List String) (x : String) (set : List String) → missing all (add x set) ≤ missing all set
unfolding missing count
missing-add_le [] x set = omega arith
missing-add_le (u ∷ all) x set = ground (arith, missing-add_le all x set, contains-add u x set)

missing-add_lt :
    (all : List String) (x : String) (set : List String)
    → contains x all ≡ true
    → contains x set ≡ false
    → missing all (add x set) < missing all set
unfolding missing count contains
missing-add_lt [] x set known new = cc
missing-add_lt (u ∷ all) x set known new = ground (
  arith,
  missing-add_le all x set,
  missing-add_lt all x set,
  contains-add u x set,
  string_eq.decides u x,
  string_eq.decides x u,
  same_contains,
)
  where
    same_contains : u ≡ x → contains u set ≡ contains x set
    same_contains p = ap (λ y. contains y set) p

missing-add :
    (all : List String) (x : String) (set : List String)
    → contains x all ≡ true
    → missing all (add x set) + length (add x set) ≤ missing all set + length set
missing-add all x set known = elim (Bool-cases (contains x set)) [
  | inl old ↦ rw (add_old x set old) (omega arith)
  | inr new ↦ omega (arith, missing-add_lt all x set known new, length-add_new x set new)
]

pub missing-extend_set :
    (all xs set : List String)
    → All (λ x. contains x all ≡ true) xs
    → missing all (extend_set xs set) + length (extend_set xs set) ≤ missing all set + length set
unfolding extend_set
missing-extend_set all [] set h = omega arith
missing-extend_set all (x ∷ xs) set h =
    omega (arith, missing-extend_set all xs (add x set) h.1, missing-add all x set h.0)

-- What one side of a demand can still grow by.
pub room : List String → Demand → ℕ
room all d = missing all d.names + (if d.all then 0 else 1)

count_le : (p : String → Bool) (xs : List String) → count p xs ≤ length xs
unfolding count
count_le p [] = omega arith
count_le p (x ∷ xs) = ground (arith, count_le p xs)

pub room_le : (all : List String) (d : Demand) → room all d ≤ length all + 1
unfolding room missing
room_le all d = ground (arith, count_le (λ u. not (contains u d.names)) all)

abbrev pub Within : List String → Demand → Type 0
Within all d = All (λ n. contains n all ≡ true) d.names

pub absorb_demand-room :
    (all : List String) (d other : Demand)
    → Within all other
    → room all (absorb_demand d other).0 + (if (absorb_demand d other).1 then 1 else 0) ≤ room all d
unfolding room absorb_demand merged
absorb_demand-room all d other h = ground (
  arith,
  missing-extend_set all other.names d.names h,
  length-extend_le other.names d.names,
  nat_beq_iff (length d.names) (length (extend_set other.names d.names)),
)

-- A demand that reports nothing new is what it was.
pub absorb_same :
    (d other : Demand) → (absorb_demand d other).1 ≡ false → (absorb_demand d other).0 ≡ d
unfolding absorb_demand merged
absorb_same d other h =
    let names : extend_set other.names d.names ≡ d.names =
      extend_same other.names d.names
        (ground (arith, nat_beq_iff (length d.names) (length (extend_set other.names d.names)))) in
    let all : (d.all || other.all) ≡ d.all = ground arith in cc (names, all)
