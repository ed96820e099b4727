-- ===== src/Cycles/Closing.antt =====
-- What the map of predecessors in src/noze/cycles.rs says of the closed walks through the start.
use mathlib.Core.List.{Memᴰ}
use sensez.Prelude.{
  ℕ, suc, ◌+◌, ◌≤◌, ◌≡◌, ◌≢◌, ◌⊎◌, refl, true, none, List, [], ◌∷◌, arith, length, lookup, is_some,
  contains, nat_eq, nat_beq_iff, inl, inr, ap,
}
use sensez.Graph.{CodebaseGraph, Edge, ImportPhase}
use sensez.Cycles.{followed}
use sensez.Cycles.Walks.{Ordered-at, Chain-unique, Walk, Chain, here}
use sensez.Cycles.Search.{Inv, is_met}

module _ (g : CodebaseGraph) (scc : List ℕ) (phases : List ImportPhase) (start : ℕ) where
  -- A closed walk is longer than the module in hand is far: it leaves what was expanded, by the
  -- module in hand or one of the queue.
  module _ (prev : List (ℕ × Edge)) (queue : List ℕ) (node depth : ℕ) (todo : List Edge)
      (i : Inv g scc phases start prev queue node depth todo) where
    met_Walk :
        (k m v : ℕ) (c : List Edge)
        → Chain g scc phases start prev k v
        → k ≤ m
        → is_met g scc phases start v prev ≡ true
        → (c ≢ []) ⊎ (is_some (lookup v prev) ≡ true)
        → Walk g scc phases v c start
        → suc depth ≤ m + length c
    met_Walk k m v [] chain le met (inl some_edge) w = absurd (some_edge refl)
    met_Walk k m v [] chain le met (inr linked) w =
        ground (arith, i.unset, ap (λ x. lookup x prev) w)
    met_Walk k m v (e ∷ c) chain le met goes_on (from, follows, w) =
        elim (i.expanded v e met follows) [
          | inl queued ↦
              let (n, far, chain') =
                Ordered-at g scc phases start prev depth (suc depth) queue v i.ordered queued in
              omega (arith, Chain-unique g scc phases start chain chain' refl)
          | inr (inl (here_now, left)) ↦
              omega (arith, Chain-unique g scc phases start chain i.in_hand here_now)
          | inr (inr x) ↦
              let same = Chain-unique g scc phases start chain x.near_chain refl in
              let rest =
                met_Walk x.far (suc m) e.target c x.far_chain (omega (arith, same, x.far_le))
                  (ground (arith, x.linked)) (inr x.linked) w in
              omega (arith, rest)
        ]

    pub shorter : (c : List Edge) → c ≢ [] → Walk g scc phases start c start → suc depth ≤ length c
    shorter c some_edge w =
        let bound =
          met_Walk 0 0 start c here (omega arith) (ground (arith, nat_beq_iff start start))
            (inl some_edge) w in
        omega (arith, bound)

  -- What remains once the queue is empty.
  pub record IsStuck (prev : List (ℕ × Edge)) : Type 0 where
    unset : lookup start prev ≡ none
    linked :
        (v : ℕ) (e : Edge)
        → is_met g scc phases start v prev ≡ true
        → Memᴰ e (followed g scc phases v)
        → is_some (lookup e.target prev) ≡ true

  pub IsStuck-end :
      (prev : List (ℕ × Edge)) (node depth : ℕ)
      → Inv g scc phases start prev [] node depth []
      → IsStuck prev
  unfolding contains
  IsStuck-end prev node depth i = record {
    unset = i.unset;
    linked = λ v e m follows. elim (i.expanded v e m follows) [
      | inl queued ↦ cc
      | inr (inl (here_now, nothing)) ↦ elim nothing [ ]
      | inr (inr x) ↦ x.linked
    ];
  }

  stuck-Walk :
      (prev : List (ℕ × Edge)) (u : ℕ) (c : List Edge)
      → IsStuck prev
      → is_some (lookup u prev) ≡ true
      → ¬ Walk g scc phases u c start
  stuck-Walk prev u [] i met w = ground (arith, i.unset, ap (λ x. lookup x prev) w)
  stuck-Walk prev u (e ∷ c) i met (from, follows, w) =
      stuck-Walk prev e.target c i (i.linked u e (ground arith) follows) w

  pub no_loop :
      (prev : List (ℕ × Edge))
      → IsStuck prev
      → (c : List Edge) → c ≢ []
      → ¬ Walk g scc phases start c start
  no_loop prev i [] some_edge w = some_edge refl
  no_loop prev i (e ∷ c) some_edge (from, follows, w) =
      stuck-Walk prev e.target c i
        (i.linked start e (ground (arith, nat_beq_iff start start)) follows) w
