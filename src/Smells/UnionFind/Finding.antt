-- ===== src/Smells/UnionFind/Finding.antt =====
-- src/noze/smells/union_find.rs: what the path halving of `find` leaves.
use sensez.Prelude.{
  ℕ, zero, suc, ◌+◌, ◌≤◌, ◌<◌, ◌≡◌, ◌≢◌, refl, sym, ◌∙◌, some, List, arith, get_elem?, set, length,
  nat_beq, nat_beq_iff, eq_of_some, inl, inr, Bool-cases, false,
}
use sensez.Smells.UnionFind.{find_loop, find_root}
use sensez.Smells.UnionFind.Rooted.{
  Rooted, root, up, get_elem?-set, lt-length, Rooted-unique, length-set, is_root, roots, roots-set,
}
use mathlib.Core.Path.{subst}

-- `q` has the trees of `p`, none of them deeper.
pub record Keeps (p q : List ℕ) : Type 0 where
  pub keeps_length : length q ≡ length p
  pub keeps_roots : roots 0 q ≡ roots 0 p
  pub keeps_rooted : (z s e : ℕ) → Rooted p z s e → (f : ℕ) × Rooted q z s f × (f ≤ e)

pub Keeps-refl : (p : List ℕ) → Keeps p p
Keeps-refl p = record {
  keeps_length = refl;
  keeps_roots = refl;
  keeps_rooted = λ z s e t. (e, t, omega arith);
}

pub Keeps-trans : {p q r : List ℕ} → Keeps p q → Keeps q r → Keeps p r
Keeps-trans a b = record {
  keeps_length = b.keeps_length ∙ a.keeps_length;
  keeps_roots = b.keeps_roots ∙ a.keeps_roots;
  keeps_rooted = λ z s e t.
      let (f, u, small) = a.keeps_rooted z s e t in
      let (g, v, smaller) = b.keeps_rooted z s f u in (g, v, omega arith);
}

-- The parent of `node` stands above it, and so does the parent of that.
above :
    {p : List ℕ} {y g r d : ℕ}
    → Rooted p y r d
    → get_elem? p y ≡ some g
    → (e : ℕ) × Rooted p g r e × (e ≤ d)
above {p} {d = d} (root {x} {r} a b c) h =
    (d, subst (λ z. Rooted p z r d) (eq_of_some (sym c ∙ h)) (root a b c), omega arith)
above {p} {r = r} (up {d = k} f n g t) h =
    (k, subst (λ z. Rooted p z r k) (eq_of_some (sym f ∙ h)) t, omega arith)

Rooted-inside : {p : List ℕ} {x r d : ℕ} → Rooted p x r d → (y : ℕ) × (get_elem? p x ≡ some y)
Rooted-inside (root {x} a b c) = (x, c)
Rooted-inside (up {y} f n g t) = (y, f)

-- The step from `node` to its grandparent.
hop :
    {p : List ℕ} {node y g r d : ℕ}
    → Rooted p node r d
    → get_elem? p node ≡ some y
    → y ≢ node
    → get_elem? p y ≡ some g
    → (e : ℕ) × Rooted p g r e × (suc e ≤ d)
hop (root a b c) f n h = absurd (n (eq_of_some (sym f ∙ c)))
hop {p} {r = r} (up {d = k} f n s t) f' n' h =
    let t' = subst (λ z. Rooted p z r k) (eq_of_some (sym f ∙ f')) t in
    let (e, u, small) = above t' h in (e, u, omega arith)

-- `z` has the root `s` in `q`, at most `e` steps up.
RootedWithin : List ℕ → ℕ → ℕ → ℕ → Type 0
RootedWithin q z s e = (f : ℕ) × Rooted q z s f × (f ≤ e)

-- A node that points to its grandparent has the root it had: the node, and any other, where
-- `below` does the nodes that are less deep.
module _ {p : List ℕ} {node y g r d bound : ℕ} (t : Rooted p node r d)
    (f : get_elem? p node ≡ some y) (n : y ≢ node) (h : get_elem? p y ≡ some g)
    (below : (z s e : ℕ) → e < bound → Rooted p z s e → RootedWithin (set p node g) z s e) where
  node-Rooted :
      (z s e : ℕ) → e < suc bound → node ≡ z → Rooted p z s e → RootedWithin (set p node g) z s e
  unfolding RootedWithin
  node-Rooted z s e small same u =
      let (k, v, lower) = hop t f n h in
      let (a, b) = Rooted-unique t (subst (λ x. Rooted p x s e) (sym same) u) in
      let (k', w, lower') = below g r k (omega arith) v in
      let moves : g ≢ z =
        λ q. let (_, c) = Rooted-unique v (subst (λ x. Rooted p x s e) (sym q) u) in omega arith in
      let points : get_elem? (set p node g) z ≡ some g =
        ground (arith, get_elem?-set p node z g (lt-length p node y f), nat_beq_iff node z) in
      (suc k', up points moves refl (subst (λ x. Rooted (set p node g) g x k') a w), omega arith)

  other-Rooted :
      (z s e : ℕ)
      → e < suc bound
      → nat_beq node z ≡ false
      → Rooted p z s e
      → RootedWithin (set p node g) z s e
  unfolding RootedWithin
  other-Rooted z s e small differs (root a b c) = (
    0,
    root a refl (ground (arith, get_elem?-set p node z g (lt-length p node y f))),
    omega arith,
  )
  other-Rooted z s e small differs (up {y = z'} {d = k} i j l m) =
      let (k', w, lower) = below z' s k (omega arith) m in
      (
        suc k',
        up (ground (arith, get_elem?-set p node z g (lt-length p node y f))) j refl w,
        omega arith,
      )

halved-Rooted :
    {p : List ℕ} {node y g r d : ℕ}
    → Rooted p node r d
    → get_elem? p node ≡ some y
    → y ≢ node
    → get_elem? p y ≡ some g
    → (bound z s e : ℕ) → e < bound
    → Rooted p z s e
    → RootedWithin (set p node g) z s e
halved-Rooted t f n h zero z s e small u = absurd (omega arith)
halved-Rooted {p} {node} {y} {g} {r} t f n h (suc bound) z s e small u =
    let below = halved-Rooted t f n h bound in
    elim (Bool-cases (nat_beq node z)) [
      | inl same ↦ node-Rooted t f n h below z s e small ((nat_beq_iff node z).0 same) u
      | inr differs ↦ other-Rooted t f n h below z s e small differs u
    ]

-- One step of the walk.
halved-Keeps :
    {p : List ℕ} {node y g r d : ℕ}
    → Rooted p node r d
    → get_elem? p node ≡ some y
    → y ≢ node
    → get_elem? p y ≡ some g
    → Keeps p (set p node g)
unfolding RootedWithin is_root
halved-Keeps {p} {node} {y} {g} {r} {d} t f n h = record {
  keeps_length = length-set p node g;
  keeps_roots =
      grind (arith, roots-set 0 p node y g f, nat_beq_iff node y, nat_beq_iff node g, moves);
  keeps_rooted = λ z s e u. halved-Rooted t f n h (suc e) z s e (omega arith) u;
}
  where
    moves : g ≢ node
    moves q =
        let (k, v, lower) = hop t f n h in
        let (_, c) = Rooted-unique v (subst (λ x. Rooted p x r d) (sym q) t) in omega arith

find_loop_stop :
    (fuel : ℕ) (p : List ℕ) (node r : ℕ)
    → node ≡ r
    → get_elem? p node ≡ some node
    → find_loop (suc fuel) p node ≡ some (p, r)
unfolding find_loop
find_loop_stop fuel p node r a c = ground arith

find_loop_go :
    (fuel : ℕ) (p : List ℕ) (node y g : ℕ)
    → get_elem? p node ≡ some y
    → y ≢ node
    → get_elem? p y ≡ some g
    → find_loop (suc fuel) p node ≡ find_loop fuel (set p node g) g
unfolding find_loop
find_loop_go fuel p node y g f n h = ground arith

find_loop-root :
    (fuel : ℕ) (p : List ℕ) (node r d : ℕ)
    → d < fuel
    → Rooted p node r d
    → (q : List ℕ) × (find_loop fuel p node ≡ some (q, r)) × Keeps p q
find_loop-root zero p node r d small t = absurd (omega arith)
find_loop-root (suc fuel) p node r d small (root a b c) =
    (p, find_loop_stop fuel p node r a c, Keeps-refl p)
find_loop-root (suc fuel) p node r d small (up {y} f n g t) =
    let (grand, h) = Rooted-inside t in
    let (k, v, lower) = hop (up f n g t) f n h in
    let kept = halved-Keeps (up f n g t) f n h in
    let (k', w, lower') = kept.keeps_rooted grand r k v in
    let (q, e, rest) = find_loop-root fuel (set p node grand) grand r k' (omega arith) w in
    (q, find_loop_go fuel p node y grand f n h ∙ e, Keeps-trans kept rest)

-- Every node has a root, and the trees that are left bound the depth.
unfoldable pub IsForest : List ℕ → Type 0
IsForest p =
    (x : ℕ) → x < length p → (r : ℕ) × (d : ℕ) × Rooted p x r d × (d + roots 0 p ≤ length p)

Keeps-IsForest : {p q : List ℕ} → Keeps p q → IsForest p → IsForest q
unfolding IsForest
Keeps-IsForest {p} {q} kept forest x inside =
    let l : length q ≡ length p = kept.keeps_length in
    let o : roots 0 q ≡ roots 0 p = kept.keeps_roots in
    let (r, d, t, bound) = forest x (omega arith) in
    let (k, u, lower) = kept.keeps_rooted x r d t in (r, k, u, omega arith)

-- On a forest, `find` of a node in range returns the root of the node, within the fuel that the
-- model gives it. The slice it leaves is a forest again, of the same length and with as many
-- trees, in which every node has the root it had and is no deeper.
pub find_root-root :
    (p : List ℕ) (x : ℕ)
    → IsForest p
    → x < length p
    → (q : List ℕ) × (r : ℕ) × (d : ℕ) × (find_root p x ≡ some (q, r))
      × Rooted p x r d
      × Keeps p q
      × IsForest q
unfolding find_root IsForest
find_root-root p x forest inside =
    let (r, d, t, bound) = forest x inside in
    let (q, e, kept) = find_loop-root (suc (length p)) p x r d (omega arith) t in
    (q, r, d, e, t, kept, Keeps-IsForest kept forest)
