-- ===== src/Lsp/Schedule/Taking.antt =====
-- What `take_pending` does: it starts a waiting workspace while there is room, or nothing changes.
use sensez.Prelude.{
  ◌≤◌, ◌<◌, ◌≡◌, String, true, false, none, some, arith, find, lookup, insert, string_eq, IsKeyed,
  All, All-sort, All-Mem, count, count-sort, eq_of_some, sym, ap, ◌∙◌, ◌↔◌, Bool, [], ◌∷◌, refl,
  find-passes, leb→le, ◌⊎◌, inl, inr, Option-cases, Bool-cases, leb,
}
use mathlib.Core.Path.{subst}
use mathlib.Core.List.{Memᴰ}
use sensez.Paths.{path_before}
use sensez.Lsp.Schedule.{
  Workspace, Workspaces, running, is_waiting, by_path, take_pending, max_concurrent_scans,
}

pub record Taken (m : Workspaces) : Type 0 where
  pub key : String
  pub workspace : Workspace
  pub found : lookup key m ≡ some workspace
  pub waits : workspace.pending ≡ true
  pub idle : workspace.running ≡ false
  pub room : running m < max_concurrent_scans
  pub result : take_pending m ≡ (
    insert key (record workspace { pending = false; running = true }) m,
    some (workspace.path, workspace.generation),
  )

Mem-lookup :
    (m : Workspaces) (k : String) (w : Workspace) → IsKeyed m → Memᴰ (k, w) m → lookup k m ≡ some w
unfolding lookup
Mem-lookup [] k w h i = elim i [ ]
Mem-lookup ((j, v) ∷ m) k w h (Memᴰ.head same) =
    ground (arith, string_eq.decides j k, ap (λ x. x.0) same, ap (λ x. x.1) same)
Mem-lookup ((j, v) ∷ m) k w h (Memᴰ.tail later) =
    ground (arith, Mem-lookup m k w h.1 later, h.0, string_eq.decides j k, same_lookup)
  where
    same_lookup : j ≡ k → lookup j m ≡ lookup k m
    same_lookup p = ap (λ x. lookup x m) p

find-All :
    (P : String × Workspace → Type 0) (p : String × Workspace → Bool) (m : Workspaces)
    (x : String × Workspace)
    → find p m ≡ some x
    → All P m
    → P x
unfolding find
find-All P p [] x q h = absurd (ground arith)
find-All P p (y ∷ m) x q h = elim (Bool-cases (p y)) [
  | inl hit ↦ subst P (eq_of_some (ground (arith, hit, q))) h.0
  | inr miss ↦ find-All P p m x (ground (arith, miss, q)) h.1
]

-- Whether the search finds anything does not depend on the order.
find-none-count :
    (p : String × Workspace → Bool) (m : Workspaces) → (find p m ≡ none) ↔ (count p m ≡ 0)
unfolding find count
find-none-count p [] = ground arith
find-none-count p (y ∷ m) = ground (arith, find-none-count p m)

by_path-lookup :
    (m : Workspaces) (k : String) (w : Workspace)
    → IsKeyed m
    → find is_waiting (by_path m) ≡ some (k, w)
    → lookup k m ≡ some w
by_path-lookup m k w h q =
    let before = λ (x y : String × Workspace). path_before x.0 y.0 in
    find-All (λ x. lookup x.0 m ≡ some x.1) is_waiting (by_path m) (k, w) q
      (All-sort before (λ x. lookup x.0 m ≡ some x.1) m
        (All-Mem (λ x. lookup x.0 m ≡ some x.1) m (λ x i. Mem-lookup m x.0 x.1 h i)))

by_path-none : (m : Workspaces) → find is_waiting (by_path m) ≡ none → find is_waiting m ≡ none
by_path-none m q =
    let before = λ (x y : String × Workspace). path_before x.0 y.0 in
    (find-none-count is_waiting m).1
      (sym (count-sort before is_waiting m) ∙ (find-none-count is_waiting (by_path m)).0 q)

pub take_pending-cases :
    (m : Workspaces)
    → IsKeyed m
    → ((take_pending m ≡ (m, none))
        × ((find is_waiting m ≡ none) ⊎ (max_concurrent_scans ≤ running m)))
      ⊎ Taken m
unfolding take_pending
take_pending-cases m h = elim (Bool-cases (leb max_concurrent_scans (running m))) [
  | inl full ↦ inl (rw full, inr (leb→le _ _ full))
  | inr free ↦ elim (Option-cases (find is_waiting (by_path m))) [
    | inl nothing ↦ inl (rw (free, nothing) refl, inl (by_path-none m nothing))
    | inr ((k, w), some_waiting) ↦
        let passes = find-passes is_waiting (by_path m) (k, w) some_waiting in
        inr (record {
          key = k;
          workspace = w;
          found = by_path-lookup m k w h some_waiting;
          waits = ground arith;
          idle = ground arith;
          room = ground arith;
          result = rw (free, some_waiting);
        })
  ]
]
