-- ===== src/Smells/UnionFind.antt =====
-- src/noze/smells/union_find.rs: union-find over a slice, with path halving and no rank. `none`
-- stands for an index out of range or for fuel that ran out.
pub mod Rooted
pub mod Finding
pub mod Merging
use sensez.Prelude.{
  ℕ, zero, suc, Bool, Option, none, some, List, get_elem?, set, length, nat_beq, if◌then◌else◌,
}

-- The loop of `find`: the slice after the walk, and the root.
unfoldable pub find_loop : ℕ → List ℕ → ℕ → Option (List ℕ × ℕ)
find_loop zero parent node = none
find_loop (suc fuel) parent node = elim (get_elem? parent node) [
  | none ↦ none
  | some up ↦
      let next : Option (List ℕ × ℕ) = elim (get_elem? parent up) [
        | none ↦ none
        | some grand ↦ find_loop fuel (set parent node grand) grand
      ] in
      if nat_beq up node then some (parent, node) else next
]

-- A tree is at most as deep as the slice is long.
unfoldable pub find_root : List ℕ → ℕ → Option (List ℕ × ℕ)
find_root parent x = find_loop (suc (length parent)) parent x

unfoldable pub union : List ℕ → ℕ → ℕ → Option (List ℕ)
union parent a b = elim (find_root parent a) [
  | none ↦ none
  | some (p, ra) ↦ elim (find_root p b) [
    | none ↦ none
    | some (q, rb) ↦ some (if nat_beq ra rb then q else set q ra rb)
  ]
]
