-- ===== src/Cycles/Search.antt =====
-- The breadth-first search of src/noze/cycles.rs: what one scan of a module's edges keeps.
use mathlib.Core.List.{Memᴰ}
use mathlib.Core.Path.{subst, subst⁻¹, subst₂}
use sensez.Prelude.{
  ℕ, zero, suc, ◌+◌, ◌≤◌, ◌<◌, ◌≡◌, ◌≢◌, ◌⊎◌, refl, Bool, true, ◌||◌, none, List, [], ◌∷◌, ◌++◌,
  arith, length, lookup, insert, lookup-insert, is_some, contains, contains-append, nat_eq, nat_beq,
  nat_beq_iff, if◌then◌else◌, Bool-cases, inl, inr, ap, sym,
}
use sensez.Graph.{CodebaseGraph, Edge, ImportPhase}
use sensez.Cycles.{followed}
use sensez.Cycles.Walks.{
  length-insert_new, Chain, back, Chain-insert, Chain-unique, Ordered, Ordered-append,
  Ordered-insert,
}

-- The modules below `n` that have no predecessor.
pub unlinked : ℕ → List (ℕ × Edge) → ℕ
unlinked zero prev = 0
unlinked (suc n) prev = (if is_some (lookup n prev) then 0 else 1) + unlinked n prev

unlinked-insert_ge :
    (n t : ℕ) (e : Edge) (prev : List (ℕ × Edge))
    → n ≤ t
    → unlinked n (insert t e prev) ≡ unlinked n prev
unfolding unlinked
unlinked-insert_ge zero t e prev h = refl
unlinked-insert_ge (suc n) t e prev h =
    ground (arith, unlinked-insert_ge n t e prev, lookup-insert n t e prev, nat_beq_iff t n)

pub unlinked-insert :
    (n t : ℕ) (e : Edge) (prev : List (ℕ × Edge))
    → t < n
    → lookup t prev ≡ none
    → suc (unlinked n (insert t e prev)) ≡ unlinked n prev
unfolding unlinked
unlinked-insert zero t e prev h new = absurd (omega arith)
unlinked-insert (suc n) t e prev h new = ground (
  arith,
  unlinked-insert n t e prev,
  unlinked-insert_ge n t e prev,
  lookup-insert n t e prev,
  nat_beq_iff t n,
  same_lookup,
)
  where
    same_lookup : t ≡ n → lookup t prev ≡ lookup n prev
    same_lookup p = ap (λ x. lookup x prev) p

pub unlinked-nil : (n : ℕ) → unlinked n [] ≡ n
unfolding unlinked lookup
unlinked-nil zero = refl
unlinked-nil (suc n) = omega (arith, unlinked-nil n)

module _ (g : CodebaseGraph) (scc : List ℕ) (phases : List ImportPhase) (start : ℕ) where
  -- A module that the search has met.
  abbrev pub is_met : ℕ → List (ℕ × Edge) → Bool
  is_met v prev = nat_beq v start || is_some (lookup v prev)

  -- The end of an edge was met no more than one step behind its start.
  pub record Expanded (prev : List (ℕ × Edge)) (v : ℕ) (e : Edge) : Type 0 where
    pub linked : is_some (lookup e.target prev) ≡ true
    pub near : ℕ
    pub near_chain : Chain g scc phases start prev near v
    pub far : ℕ
    pub far_chain : Chain g scc phases start prev far e.target
    pub far_le : far ≤ suc near

  -- In the middle of the scan of `node`, `depth` steps behind the start, of whose edges `todo` are
  -- left.
  pub record Inv (prev : List (ℕ × Edge)) (queue : List ℕ) (node depth : ℕ) (todo : List Edge)
      : Type 0 where
    pub unset : lookup start prev ≡ none
    pub chains :
        (v : ℕ)
        → is_met v prev ≡ true
        → (n : ℕ) × (n ≤ length prev) × (n ≤ suc depth) × Chain g scc phases start prev n v
    pub ordered : Ordered g scc phases start prev depth (suc depth) queue
    pub in_hand : Chain g scc phases start prev depth node
    pub waiting : (v : ℕ) → contains v queue ≡ true → is_met v prev ≡ true
    pub expanded :
        (v : ℕ) (e : Edge)
        → is_met v prev ≡ true
        → Memᴰ e (followed g scc phases v)
        → (contains v queue ≡ true) ⊎ ((v ≡ node) × Memᴰ e todo) ⊎ Expanded prev v e

  -- A module that was met lies no further behind the start than the module in hand, and one step.
  met_target :
      (prev : List (ℕ × Edge)) (queue : List ℕ) (node depth : ℕ) (e : Edge) (todo : List Edge)
      → is_some (lookup e.target prev) ≡ true
      → Inv prev queue node depth todo
      → Expanded prev node e
  met_target prev queue node depth e todo old i =
      let (n, le, close, c) = i.chains e.target (ground arith) in
      record {
        linked = old;
        near = depth;
        near_chain = i.in_hand;
        far = n;
        far_chain = c;
        far_le = close;
      }

  pub Inv-skip :
      (prev : List (ℕ × Edge)) (queue : List ℕ) (node depth : ℕ) (e : Edge) (todo : List Edge)
      → is_some (lookup e.target prev) ≡ true
      → Inv prev queue node depth (e ∷ todo)
      → Inv prev queue node depth todo
  Inv-skip prev queue node depth e todo old i = record {
    unset = i.unset;
    chains = i.chains;
    ordered = i.ordered;
    in_hand = i.in_hand;
    waiting = i.waiting;
    expanded = λ v f m follows. elim (i.expanded v f m follows) [
      | inl queued ↦ inl queued
      | inr (inl (here_now, Memᴰ.head same)) ↦
          let done = met_target prev queue node depth e (e ∷ todo) old i in
          inr (inr (subst₂ (λ w x. Expanded prev w x) (sym here_now) (sym same) done))
      | inr (inl (here_now, Memᴰ.tail later)) ↦ inr (inl (here_now, later))
      | inr (inr done) ↦ inr (inr done)
    ];
  }

  Expanded-insert :
      (prev : List (ℕ × Edge)) (t : ℕ) (e : Edge) (v : ℕ) (f : Edge)
      → lookup t prev ≡ none
      → Expanded prev v f
      → Expanded (insert t e prev) v f
  Expanded-insert prev t e v f new x = record {
    linked = ground (arith, lookup-insert f.target t e prev, x.linked);
    near = x.near;
    near_chain = Chain-insert g scc phases start t e new x.near_chain;
    far = x.far;
    far_chain = Chain-insert g scc phases start t e new x.far_chain;
    far_le = x.far_le;
  }

  pub Inv-push :
      (prev : List (ℕ × Edge)) (queue : List ℕ) (node depth : ℕ) (e : Edge) (todo : List Edge)
      → lookup e.target prev ≡ none
      → e.target ≢ start
      → is_met node prev ≡ true
      → e.source ≡ node
      → Memᴰ e (followed g scc phases node)
      → Inv prev queue node depth (e ∷ todo)
      → Inv (insert e.target e prev) (queue ++ e.target ∷ []) node depth todo
  unfolding contains
  Inv-push prev queue node depth e todo new apart met from follows i =
      let t = e.target in
      let prev' = insert t e prev in
      let looked = λ (v : ℕ). lookup-insert v t e prev in
      let queued = λ (v : ℕ). contains-append v queue (t ∷ []) in
      let (n, le, close, c) = i.chains node met in
      let exact = Chain-unique g scc phases start c i.in_hand refl in
      let pushed : Chain g scc phases start prev' (suc depth) t =
        back e (ground (arith, looked t, nat_beq_iff t t)) apart refl
          (subst⁻¹ (λ u. Memᴰ e (followed g scc phases u)) from follows)
          (subst⁻¹ (λ u. Chain g scc phases start prev' depth u) from
            (Chain-insert g scc phases start t e new i.in_hand)) in
      record {
        unset = ground (arith, looked start, i.unset, nat_beq_iff t start);
        chains = λ v m. elim (Bool-cases (nat_beq t v)) [
          | inl same ↦ (
            suc depth,
            omega (arith, le, exact, length-insert_new t e prev new),
            omega arith,
            subst (λ u. Chain g scc phases start prev' (suc depth) u) ((nat_beq_iff t v).0 same)
                pushed,
          )
          | inr other ↦
              let (k, le', close', d) = i.chains v (ground (arith, looked v)) in
              (
                k,
                omega (arith, le', length-insert_new t e prev new),
                close',
                Chain-insert g scc phases start t e new d,
              )
        ];
        ordered =
            Ordered-append g scc phases start prev' depth (suc depth) queue t pushed
              (Ordered-insert g scc phases start prev depth (suc depth) queue t e new i.ordered);
        in_hand = Chain-insert g scc phases start t e new i.in_hand;
        waiting = λ v c. ground (arith, looked v, queued v, i.waiting v);
        expanded = λ v f m follows'. elim (Bool-cases (nat_beq t v)) [
          | inl same ↦ inl (ground (arith, queued v))
          | inr other ↦ elim (i.expanded v f (ground (arith, looked v)) follows') [
            | inl waits ↦ inl (ground (arith, queued v))
            | inr (inl (here_now, Memᴰ.head same)) ↦
                let done : Expanded prev' node e = record {
                  linked = ground (arith, looked t, nat_beq_iff t t);
                  near = depth;
                  near_chain = Chain-insert g scc phases start t e new i.in_hand;
                  far = suc depth;
                  far_chain = pushed;
                  far_le = omega arith;
                } in
                inr (inr (subst₂ (λ w x. Expanded prev' w x) (sym here_now) (sym same) done))
            | inr (inl (here_now, Memᴰ.tail later)) ↦ inr (inl (here_now, later))
            | inr (inr done) ↦ inr (inr (Expanded-insert prev t e v f new done))
          ]
        ];
      }
