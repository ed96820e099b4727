-- ===== src/Cycles/Walks.antt =====
-- Walks of the search of src/noze/cycles.rs, and what the map of predecessors records of them.
use mathlib.Core.List.{Memᴰ}
use mathlib.Core.Path.{subst}
use sensez.Prelude.{
  ap, sym, ◌∙◌, ◌++◌, contains, eq_of_some, ℕ, zero, suc, ◌+◌, ◌≤◌, ◌≡◌, ◌≢◌, refl, true, none,
  some, List, [], ◌∷◌, arith, length, lookup, insert, lookup-insert, nat_eq, nat_beq, nat_beq_iff,
  Bool-cases, inl, inr,
}
use sensez.Graph.{CodebaseGraph, Edge, ImportPhase}
use sensez.Cycles.{followed, unwind_from}

pub length-insert_new {ℓ} :
    {V : Type ℓ} (k : ℕ) (v : V) (m : List (ℕ × V))
    → lookup k m ≡ none
    → length (insert k v m) ≡ suc (length m)
unfolding lookup insert
length-insert_new k v [] h = refl
length-insert_new k v ((j, w) ∷ m) h = ground (arith, length-insert_new k v m)

module _ (g : CodebaseGraph) (scc : List ℕ) (phases : List ImportPhase) where
  -- The edges lead from one module to the other, each one followed by the search.
  abbrev pub Walk : ℕ → List Edge → ℕ → Type 0
  Walk u [] v = u ≡ v
  Walk u (e ∷ es) v = (e.source ≡ u) × Memᴰ e (followed g scc phases u) × Walk e.target es v

  module _ (start : ℕ) where
    -- The predecessors lead from a module back to the start, in so many steps.
    pub data Chain (prev : List (ℕ × Edge)) : ℕ → ℕ → Type 0 where
      here : Chain prev 0 start
      back :
          {n v : ℕ} (e : Edge)
          → lookup v prev ≡ some e
          → v ≢ start
          → e.target ≡ v
          → Memᴰ e (followed g scc phases e.source)
          → Chain prev n e.source
          → Chain prev (suc n) v

    pub Chain-insert :
        {prev : List (ℕ × Edge)} {n v : ℕ} (t : ℕ) (e : Edge)
        → lookup t prev ≡ none
        → Chain prev n v
        → Chain (insert t e prev) n v
    Chain-insert t e new here = here
    Chain-insert {prev} t e new (back {v} f at apart to follows c) =
        back f (ground (arith, lookup-insert v t e prev, nat_beq_iff t v)) apart to follows
          (Chain-insert t e new c)

    -- The steps are determined by the module.
    pub Chain-unique :
        {prev : List (ℕ × Edge)} {m n v w : ℕ} → Chain prev m v → Chain prev n w → v ≡ w → m ≡ n
    Chain-unique here here p = refl
    Chain-unique here (back f at apart to follows d) p = absurd (apart (sym p))
    Chain-unique (back e at apart to follows c) here p = absurd (apart p)
    Chain-unique {prev} (back e at apart to follows c) (back f at' apart' to' follows' d) p =
        let same = eq_of_some (sym at ∙ (ap (λ x. lookup x prev) p ∙ at')) in
        ap suc (Chain-unique c d (ap (λ x. x.source) same))

    -- The modules of a queue lie `lo` to `hi` steps behind the start, the nearest first.
    abbrev pub Ordered : List (ℕ × Edge) → ℕ → ℕ → List ℕ → Type 0
    Ordered prev lo hi [] = lo ≤ hi
    Ordered prev lo hi (v ∷ queue) = (n : ℕ) × (lo ≤ n) × Chain prev n v × Ordered prev n hi queue

    pub Ordered-insert :
        (prev : List (ℕ × Edge)) (lo hi : ℕ) (queue : List ℕ) (t : ℕ) (e : Edge)
        → lookup t prev ≡ none
        → Ordered prev lo hi queue
        → Ordered (insert t e prev) lo hi queue
    Ordered-insert prev lo hi [] t e new h = h
    Ordered-insert prev lo hi (v ∷ queue) t e new (n, le, c, o) =
        (n, le, Chain-insert t e new c, Ordered-insert prev n hi queue t e new o)

    pub Ordered-append :
        (prev : List (ℕ × Edge)) (lo hi : ℕ) (queue : List ℕ) (v : ℕ)
        → Chain prev hi v
        → Ordered prev lo hi queue
        → Ordered prev lo hi (queue ++ v ∷ [])
    Ordered-append prev lo hi [] v c h = (hi, h, c, omega arith)
    Ordered-append prev lo hi (w ∷ queue) v c (n, le, c', o) =
        (n, le, c', Ordered-append prev n hi queue v c o)

    pub Ordered-wider :
        (prev : List (ℕ × Edge)) (lo hi hi' : ℕ) (queue : List ℕ)
        → hi ≤ hi'
        → Ordered prev lo hi queue
        → Ordered prev lo hi' queue
    Ordered-wider prev lo hi hi' [] w h = omega arith
    Ordered-wider prev lo hi hi' (v ∷ queue) w (n, le, c, o) =
        (n, le, c, Ordered-wider prev n hi hi' queue w o)

    pub Ordered-at :
        (prev : List (ℕ × Edge)) (lo hi : ℕ) (queue : List ℕ) (v : ℕ)
        → Ordered prev lo hi queue
        → contains v queue ≡ true
        → (n : ℕ) × (lo ≤ n) × Chain prev n v
    unfolding contains
    Ordered-at prev lo hi [] v o c = cc
    Ordered-at prev lo hi (w ∷ queue) v (n, le, chain, o) c = elim (Bool-cases (nat_beq w v)) [
      | inl same ↦ (n, le, subst (λ u. Chain prev n u) ((nat_beq_iff w v).0 same) chain)
      | inr other ↦
          let (m, le', chain') = Ordered-at prev n hi queue v o (ground arith) in
          (m, omega arith, chain')
    ]

    -- Unwinding a chain prepends to the path a walk from the start.
    pub unwind_from-Walk :
        {prev : List (ℕ × Edge)} {n v : ℕ} (fuel : ℕ) (path : List Edge)
        → lookup start prev ≡ none
        → Chain prev n v
        → n ≤ fuel
        → Walk v path start
        → (p : List Edge) × (unwind_from fuel start prev path v ≡ some p)
          × Walk start p start
          × (length p ≡ n + length path)
    unfolding unwind_from
    unwind_from-Walk zero path unset here h w =
        (path, ground (arith, nat_beq_iff start start), w, omega arith)
    unwind_from-Walk (suc fuel) path unset here h w =
        (path, ground (arith, nat_beq_iff start start), w, omega arith)
    unwind_from-Walk zero path unset (back e at apart to follows c) h w = absurd (omega arith)
    unwind_from-Walk {prev} (suc fuel) path unset (back {n} {v} e at apart to follows c) h w =
        let (p, ends, walk, long) =
          unwind_from-Walk fuel (e ∷ path) unset c (omega arith) (refl, follows, rw to w) in
        (p, ground (arith, at, ends, nat_beq_iff v start), walk, omega arith)
