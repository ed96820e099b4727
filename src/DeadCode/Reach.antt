-- ===== src/DeadCode/Reach.antt =====
-- src/noze/dead_code/reach.rs: the walk over the import graph from production and test roots.
pub mod Closure
pub mod Work
pub mod Verdict
use sensez.Prelude.{
  ℕ, zero, suc, ◌+◌, ◌≡◌, Bool, true, false, not, ◌&&◌, ◌||◌, Option, none, some, List, [], ◌∷◌,
  ◌++◌, any, retain, length, contains, nat_eq, nat_beq, if◌then◌else◌, map,
}
use sensez.Graph.{CodebaseGraph, successors, predecessors}

-- `Role` of roots.rs
pub data Role : Type 0 where
  prod_root test_source module_role : Role

abbrev pub role_eq : Role → Role → Bool
role_eq prod_root prod_root = true
role_eq test_source test_source = true
role_eq module_role module_role = true
role_eq _ _ = false

-- `Vec::extend` on a stack whose top is the head of the list.
unfoldable pub push_all {ℓ} : {A : Type ℓ} → List A → List A → List A
push_all [] stack = stack
push_all (x ∷ xs) stack = push_all xs (x ∷ stack)

pub record Reach : Type 0 where
  pub prod : List ℕ
  pub orphans : List ℕ

module _ (g : CodebaseGraph) where
  unfoldable pub internal : List ℕ → List ℕ
  internal = retain (λ n. let node = g.node n in not node.is_external)

  -- The neighbours that a visit of `idx` pushes.
  unfoldable pub unseen : List ℕ → ℕ → List ℕ
  unfolding internal
  unseen seen idx = retain (λ n. not (contains n seen)) (internal (successors g idx))

  -- The `while` loop; `none` means that the fuel ran out.
  unfoldable pub walk_from : ℕ → List ℕ → List ℕ → Option (List ℕ)
  walk_from fuel seen [] = some seen
  walk_from zero seen (idx ∷ stack) = none
  walk_from (suc fuel) seen (idx ∷ stack) =
      let skip = walk_from fuel seen stack in
      let seen' = idx ∷ seen in
      let visit = walk_from fuel seen' (push_all (unseen seen' idx) stack) in
      if contains idx seen then skip else visit

  -- Every pop takes a root or what one visit of a node pushed.
  unfoldable pub out_degrees : ℕ → ℕ
  out_degrees zero = 0
  out_degrees (suc n) = length (successors g n) + out_degrees n

  unfoldable pub reach_from : List ℕ → Option (List ℕ)
  reach_from roots = walk_from (length roots + out_degrees g.size) [] (push_all roots [])

  unfoldable pub has_internal_importer : ℕ → Bool
  has_internal_importer idx =
      any (λ source. not (nat_beq source idx) && (let node = g.node source in not node.is_external))
        (predecessors g idx)

  unfoldable pub with_role : Role → List (ℕ × Role) → List ℕ
  with_role role roles = map (λ (idx, _). idx) (retain (λ (_, r). role_eq r role) roles)

  unfoldable pub unimported : List (ℕ × Role) → List ℕ
  unimported roles = retain (λ idx. not (has_internal_importer idx)) (with_role module_role roles)

  unfoldable pub islands : List (ℕ × Role) → List ℕ → List ℕ → List ℕ
  islands roles prod test =
      retain (λ idx. not (contains idx prod) && not (contains idx test))
        (with_role module_role roles)

  -- `walk`
  unfoldable pub walk : List (ℕ × Role) → Option Reach
  walk roles = elim (reach_from (with_role prod_root roles ++ unimported roles)) [
    | none ↦ none
    | some prod ↦ elim (reach_from (with_role test_source roles)) [
      | none ↦ none
      | some test ↦
          let apart = islands roles prod test in
          some (record { prod = prod ++ apart; orphans = unimported roles ++ apart })
    ]
  ]
