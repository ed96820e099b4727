-- ===== src/Impact/Distance.antt =====
-- The breadth-first walk of src/spine/impact/mod.rs: the distances it records, and the order of its
-- queue.
use sensez.Prelude.{
  ℕ, zero, suc, ◌+◌, ◌≤◌, ◌<◌, ◌≡◌, refl, String, Bool, true, not, none, some, List, [], ◌∷◌, ◌++◌,
  arith, contains, lookup, insert, lookup-insert, is_some, nat_eq, string_eq, nat_beq_iff,
  if◌then◌else◌, ap,
}
use sensez.Graph.{CodebaseGraph}
use sensez.Impact.{DirectionOfImpact, ImpactOptions, neighbours, internal_nodes_by_path}

-- The modules without a recorded distance below `n`.
pub unvisited : ℕ → List (ℕ × ℕ) → ℕ
unvisited zero visited = 0
unvisited (suc n) visited = (if is_some (lookup n visited) then 0 else 1) + unvisited n visited

unvisited-insert_ge :
    (n t d : ℕ) (visited : List (ℕ × ℕ))
    → n ≤ t
    → unvisited n (insert t d visited) ≡ unvisited n visited
unfolding unvisited
unvisited-insert_ge zero t d visited h = refl
unvisited-insert_ge (suc n) t d visited h =
    ground (arith, unvisited-insert_ge n t d visited, lookup-insert n t d visited, nat_beq_iff t n)

pub unvisited-insert :
    (n t d : ℕ) (visited : List (ℕ × ℕ))
    → t < n
    → lookup t visited ≡ none
    → suc (unvisited n (insert t d visited)) ≡ unvisited n visited
unfolding unvisited
unvisited-insert zero t d visited h new = absurd (omega arith)
unvisited-insert (suc n) t d visited h new = ground (
  arith,
  unvisited-insert n t d visited,
  unvisited-insert_ge n t d visited,
  lookup-insert n t d visited,
  nat_beq_iff t n,
  same_lookup,
)
  where
    same_lookup : t ≡ n → lookup t visited ≡ lookup n visited
    same_lookup p = ap (λ x. lookup x visited) p

pub unvisited_le : (n : ℕ) (visited : List (ℕ × ℕ)) → unvisited n visited ≤ n
unfolding unvisited
unvisited_le zero visited = omega arith
unvisited_le (suc n) visited = ground (arith, unvisited_le n visited)

abbrev pub is_internal : CodebaseGraph → ℕ → Bool
is_internal g v = let node = g.node v in not node.is_external

-- A module that a change reaches in so many imports, through internal modules.
pub data Steps (g : CodebaseGraph) (direction : DirectionOfImpact) (options : ImpactOptions)
    (changed : List String) : ℕ → ℕ → Type 0 where
  changed_file :
      {v : ℕ} (path : String)
      → contains path changed ≡ true
      → lookup path (internal_nodes_by_path g) ≡ some v
      → Steps g direction options changed 0 v
  import :
      {n u v : ℕ}
      → Steps g direction options changed n u
      → contains v (neighbours g direction options u) ≡ true
      → is_internal g v ≡ true
      → Steps g direction options changed (suc n) v

-- A distance at which some walk arrives, and no walk arrives earlier.
pub record IsNearest (g : CodebaseGraph) (direction : DirectionOfImpact) (options : ImpactOptions)
    (changed : List String) (d v : ℕ) : Type 0 where
  pub steps : Steps g direction options changed d v
  pub least : (n : ℕ) → Steps g direction options changed n v → d ≤ n

-- The modules of a queue are recorded at distances from `lo` to `hi`, in order.
abbrev pub Ordered : List (ℕ × ℕ) → ℕ → ℕ → List ℕ → Type 0
Ordered visited lo hi [] = lo ≤ hi
Ordered visited lo hi (v ∷ queue) =
    (n : ℕ) × (lo ≤ n) × (lookup v visited ≡ some n) × Ordered visited n hi queue

pub kept :
    (visited : List (ℕ × ℕ)) (t d v n : ℕ)
    → lookup t visited ≡ none
    → lookup v visited ≡ some n
    → lookup v (insert t d visited) ≡ some n
kept visited t d v n new at =
    ground (arith, lookup-insert v t d visited, nat_beq_iff t v, same_lookup)
  where
    same_lookup : t ≡ v → lookup t visited ≡ lookup v visited
    same_lookup p = ap (λ x. lookup x visited) p

pub Ordered-insert :
    (visited : List (ℕ × ℕ)) (lo hi t d : ℕ) (queue : List ℕ)
    → lookup t visited ≡ none
    → Ordered visited lo hi queue
    → Ordered (insert t d visited) lo hi queue
Ordered-insert visited lo hi t d [] new h = h
Ordered-insert visited lo hi t d (v ∷ queue) new (n, le, at, o) =
    (n, le, kept visited t d v n new at, Ordered-insert visited n hi t d queue new o)

pub Ordered-append :
    (visited : List (ℕ × ℕ)) (lo hi v : ℕ) (queue : List ℕ)
    → lookup v visited ≡ some hi
    → Ordered visited lo hi queue
    → Ordered visited lo hi (queue ++ v ∷ [])
Ordered-append visited lo hi v [] at h = (hi, h, at, omega arith)
Ordered-append visited lo hi v (w ∷ queue) at (n, le, at', o) =
    (n, le, at', Ordered-append visited n hi v queue at o)

pub Ordered-wider :
    (visited : List (ℕ × ℕ)) (lo hi hi' : ℕ) (queue : List ℕ)
    → hi ≤ hi'
    → Ordered visited lo hi queue
    → Ordered visited lo hi' queue
Ordered-wider visited lo hi hi' [] w h = omega arith
Ordered-wider visited lo hi hi' (v ∷ queue) w (n, le, at, o) =
    (n, le, at, Ordered-wider visited n hi hi' queue w o)
