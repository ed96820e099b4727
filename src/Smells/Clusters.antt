-- ===== src/Smells/Clusters.antt =====
-- src/noze/smells/union_find.rs: a slice whose trees are the classes of the links made so far.
use sensez.Prelude.{
  ℕ, zero, suc, ◌+◌, ◌≤◌, ◌<◌, ◌≡◌, ◌⊎◌, refl, ap, sym, ◌∙◌, some, List, [], ◌∷◌, arith, get_elem?,
  length, nat_beq, nat_beq_iff, eq_of_some, inl, inr, Bool-cases,
}
use mathlib.Core.Path.{subst}
use sensez.Smells.UnionFind.{union}
use sensez.Smells.UnionFind.Rooted.{Rooted, root, up, Rooted-unique, roots, is_root}
use sensez.Smells.UnionFind.Finding.{IsForest}
use sensez.Smells.UnionFind.Merging.{Joins, joined, union-Joins, IsForest-root}

-- Joined by a chain of links, in either direction.
pub data Linked (Link : ℕ → ℕ → Type 0) : ℕ → ℕ → Type 0 where
  here : {x : ℕ} → Linked Link x x
  link : {x y : ℕ} → Link x y → Linked Link x y
  back : {x y : ℕ} → Linked Link x y → Linked Link y x
  chain : {x y z : ℕ} → Linked Link x y → Linked Link y z → Linked Link x z

-- The nodes have the same root.
pub record SameRoot (p : List ℕ) (x y : ℕ) : Type 0 where
  pub top : ℕ
  pub depth : ℕ
  pub depth' : ℕ
  pub one : Rooted p x top depth
  pub other : Rooted p y top depth'

pub SameRoot-sym : {p : List ℕ} {x y : ℕ} → SameRoot p x y → SameRoot p y x
SameRoot-sym s = record {
  top = s.top;
  depth = s.depth';
  depth' = s.depth;
  one = s.other;
  other = s.one;
}

pub SameRoot-trans : {p : List ℕ} {x y z : ℕ} → SameRoot p x y → SameRoot p y z → SameRoot p x z
SameRoot-trans {p} {z = z} s t =
    let (same, _) = Rooted-unique s.other t.one in
    record {
      top = s.top;
      depth = s.depth;
      depth' = t.depth';
      one = s.one;
      other = subst (λ r. Rooted p z r t.depth') (sym same) t.other;
    }

-- A forest of `n` nodes in which only linked nodes share a tree.
pub record IsClustered (Link : ℕ → ℕ → Type 0) (n : ℕ) (p : List ℕ) : Type 0 where
  pub forest : IsForest p
  pub size : length p ≡ n
  pub sound : (x y : ℕ) → x < n → y < n → SameRoot p x y → Linked Link x y

-- Nodes that share a tree still do.
abbrev pub KeepsTogether : List ℕ → List ℕ → Type 0
KeepsTogether p q = (x y : ℕ) → SameRoot p x y → SameRoot q x y

Joins-together : {p q : List ℕ} {ra rb : ℕ} → Joins p q ra rb → KeepsTogether p q
unfolding joined
Joins-together {ra = ra} {rb} j x y s =
    let (f, one) = j.joins_rooted x s.top s.depth s.one in
    let (f', other) = j.joins_rooted y s.top s.depth' s.other in
    record { top = joined ra rb s.top; depth = f; depth' = f'; one = one; other = other }

-- Roots that are one after the trees of `ra` and `rb` became one.
joined-cases :
    (ra rb s t : ℕ)
    → joined ra rb s ≡ joined ra rb t
    → (s ≡ t) ⊎ ((s ≡ ra) × (t ≡ rb)) ⊎ ((s ≡ rb) × (t ≡ ra))
unfolding joined
joined-cases ra rb s t same = elim (Bool-cases (nat_beq s ra)) [
  | inl at_s ↦ elim (Bool-cases (nat_beq t ra)) [
    | inl at_t ↦ inl (ground arith)
    | inr off_t ↦ inr (inl (ground arith, ground arith))
  ]
  | inr off_s ↦ elim (Bool-cases (nat_beq t ra)) [
    | inl at_t ↦ inr (inr (ground arith, ground arith))
    | inr off_t ↦ inl (ground arith)
  ]
]

module _ (Link : ℕ → ℕ → Type 0) (n : ℕ) where
  share : {p : List ℕ} {x y s t d e : ℕ} → Rooted p x s d → Rooted p y t e → s ≡ t → SameRoot p x y
  share {p} {y = y} {s} {e = e} one other same = record {
    top = s;
    depth = _;
    depth' = e;
    one = one;
    other = subst (λ r. Rooted p y r e) (sym same) other;
  }

  met :
      (p q : List ℕ) (a b ra rb : ℕ) {d e : ℕ}
      → Rooted p a ra d
      → Rooted p b rb e
      → Joins p q ra rb
      → SameRoot q a b
  unfolding joined
  met p q a b ra rb {d} {e} at_a at_b j =
      let (f, one) = j.joins_rooted a ra d at_a in
      let (f', other) = j.joins_rooted b rb e at_b in
      share one other (ground (arith, nat_beq_iff ra ra))

  joins_sound :
      (p q : List ℕ) (a b ra rb : ℕ) {d e : ℕ}
      → IsClustered Link n p
      → a < n
      → b < n
      → Linked Link a b
      → Rooted p a ra d
      → Rooted p b rb e
      → Joins p q ra rb
      → (x y : ℕ) → x < n
      → y < n
      → SameRoot q x y
      → Linked Link x y
  joins_sound p q a b ra rb c in_a in_b linked at_a at_b j x y in_x in_y s =
      let (rx, dx, at_x, _) = IsForest-root p x c.forest (omega (arith, c.size)) in
      let (ry, dy, at_y, _) = IsForest-root p y c.forest (omega (arith, c.size)) in
      let (f, one) = j.joins_rooted x rx dx at_x in
      let (f', other) = j.joins_rooted y ry dy at_y in
      let (same, _) = Rooted-unique s.one one in
      let (same', _) = Rooted-unique s.other other in
      elim (joined-cases ra rb rx ry (sym same ∙ same')) [
        | inl old ↦ c.sound x y in_x in_y (share at_x at_y old)
        | inr (inl (to_a, to_b)) ↦
            chain (c.sound x a in_x in_a (share at_x at_a to_a))
              (chain linked (c.sound b y in_b in_y (share at_b at_y (sym to_b))))
        | inr (inr (to_b, to_a)) ↦
            chain (c.sound x b in_x in_b (share at_x at_b to_b))
              (chain (back linked) (c.sound a y in_a in_y (share at_a at_y (sym to_a))))
      ]

  -- A union of linked nodes.
  pub union-IsClustered :
      (p : List ℕ) (a b : ℕ)
      → IsClustered Link n p
      → a < n
      → b < n
      → Linked Link a b
      → (q : List ℕ) × (union p a b ≡ some q)
        × IsClustered Link n q
        × SameRoot q a b
        × KeepsTogether p q
  union-IsClustered p a b c in_a in_b linked =
      let inside : (x : ℕ) → x < n → x < length p = λ x h. omega (arith, c.size) in
      let (q, ra, rb, d, e, done, at_a, at_b, j) =
        union-Joins p a b c.forest (inside a in_a) (inside b in_b) in
      (
        q,
        done,
        record {
          forest = j.joins_forest;
          size = j.joins_length ∙ c.size;
          sound = joins_sound p q a b ra rb c in_a in_b linked at_a at_b j;
        },
        met p q a b ra rb at_a at_b j,
        Joins-together j,
      )

-- Every node alone: `(k..k + m).collect()`
unfoldable pub range : ℕ → ℕ → List ℕ
range k zero = []
range k (suc m) = k ∷ range (suc k) m

length-range : (k m : ℕ) → length (range k m) ≡ m
unfolding range
length-range k zero = refl
length-range k (suc m) = omega (arith, length-range (suc k) m)

pub get_elem?-range : (k m x : ℕ) → x < m → get_elem? (range k m) x ≡ some (k + x)
unfolding range
get_elem?-range k zero x h = absurd (omega arith)
get_elem?-range k (suc m) zero h = ap some (omega arith)
get_elem?-range k (suc m) (suc x) h =
    get_elem?-range (suc k) m x (omega arith) ∙ ap some (omega arith)

roots_le : (k : ℕ) (p : List ℕ) → roots k p ≤ length p
unfolding roots is_root
roots_le k [] = omega arith
roots_le k (x ∷ p) = ground (arith, roots_le (suc k) p)

range-Rooted : (n : ℕ) {x r d : ℕ} → x < n → Rooted (range 0 n) x r d → x ≡ r
range-Rooted n h (root a b at) = a
range-Rooted n {x} h (up f apart g t) =
    absurd (apart (eq_of_some (sym f ∙ (get_elem?-range 0 n x h ∙ ap some (omega arith)))))

pub range-IsClustered : (Link : ℕ → ℕ → Type 0) (n : ℕ) → IsClustered Link n (range 0 n)
unfolding IsForest
range-IsClustered Link n = record {
  forest = λ x h.
      let at = get_elem?-range 0 n x (omega (arith, length-range 0 n)) in
      (x, 0, root refl refl (at ∙ ap some (omega arith)), omega (arith, roots_le 0 (range 0 n)));
  size = length-range 0 n;
  sound = λ x y in_x in_y s.
      subst (λ z. Linked Link x z) (range-Rooted n in_x s.one ∙ sym (range-Rooted n in_y s.other))
        here;
}
