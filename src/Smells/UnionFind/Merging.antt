-- ===== src/Smells/UnionFind/Merging.antt =====
-- src/noze/smells/union_find.rs: what `union` does to the trees.
use sensez.Prelude.{
  ℕ, suc, ◌+◌, ◌≤◌, ◌<◌, ◌≡◌, ◌≢◌, refl, ap, sym, ◌∙◌, some, List, arith, get_elem?, set, length,
  nat_beq, nat_beq_iff, if◌then◌else◌, eq_of_some, inl, inr, Bool-cases, false,
}
use sensez.Smells.UnionFind.{find_root, union}
use sensez.Smells.UnionFind.Rooted.{
  Rooted, root, up, get_elem?-set, lt-length, Rooted-unique, length-set, is_root, roots, roots-set,
}
use sensez.Smells.UnionFind.Finding.{Keeps, Keeps-trans, IsForest, find_root-root}
use mathlib.Core.Path.{subst}

pub IsForest-root :
    (p : List ℕ) (x : ℕ)
    → IsForest p
    → x < length p
    → (r : ℕ) × (d : ℕ) × Rooted p x r d × (d + roots 0 p ≤ length p)
unfolding IsForest
IsForest-root p x forest inside = forest x inside

pub root_itself : {p : List ℕ} {x r d : ℕ} → Rooted p x r d → get_elem? p r ≡ some r
root_itself {p} (root {x} a b c) = subst (λ z. get_elem? p z ≡ some z) a c
root_itself (up f n g t) = root_itself t

-- The root `a` is made a child of another root `b`.
module _ (q : List ℕ) (a b : ℕ) (at_a : get_elem? q a ≡ some a) (at_b : get_elem? q b ≡ some b)
    (apart : a ≢ b) where
  hooked_root :
      (x : ℕ) → get_elem? q x ≡ some x → nat_beq x a ≡ false → get_elem? (set q a b) x ≡ some x
  hooked_root x c n = ground (arith, get_elem?-set q a x b (lt-length q a a at_a))

  hooked-Rooted :
      {z s e : ℕ}
      → Rooted q z s e
      → (f : ℕ) × Rooted (set q a b) z (if nat_beq s a then b else s) f × (f ≤ suc e)
  hooked-Rooted {z} {s} (root f g c) = elim (Bool-cases (nat_beq z a)) [
    | inl same ↦
        let hook : get_elem? (set q a b) z ≡ some b =
          ground (arith, get_elem?-set q a z b (lt-length q a a at_a)) in
        let top = hooked_root b at_b (ground arith) in
        (1, up hook (ground arith) refl (root (ground arith) refl top), omega arith)
    | inr differs ↦ (0, root (ground arith) refl (hooked_root z c differs), omega arith)
  ]
  hooked-Rooted (up {x} {y} f n g t) =
      let (k, u, small) = hooked-Rooted t in
      let n' : x ≢ a = λ e. n (eq_of_some (sym f ∙ ap (get_elem? q) e ∙ at_a) ∙ sym e) in
      let stays : get_elem? (set q a b) x ≡ some y =
        ground (arith, get_elem?-set q a x b (lt-length q a a at_a), n') in
      (suc k, up stays n refl u, omega arith)

  hooked-roots : suc (roots 0 (set q a b)) ≡ roots 0 q
  unfolding is_root
  hooked-roots = grind (arith, roots-set 0 q a a b at_a, nat_beq_iff a a, nat_beq_iff a b)

  hooked-IsForest : IsForest q → IsForest (set q a b)
  unfolding IsForest
  hooked-IsForest forest x inside =
      let l : length (set q a b) ≡ length q = length-set q a b in
      let (r, d, t, bound) = forest x (omega arith) in
      let (k, u, small) = hooked-Rooted t in (_, k, u, omega (arith, hooked-roots))

-- The root of `s` once the tree of the root `a` hangs below the root `b`.
unfoldable pub joined : ℕ → ℕ → ℕ → ℕ
joined a b s = if nat_beq s a then b else s

-- What `q` is to `p` when the trees of `ra` and `rb` became one.
pub record Joins (p q : List ℕ) (ra rb : ℕ) : Type 0 where
  pub joins_forest : IsForest q
  pub joins_length : length q ≡ length p
  pub joins_rooted : (z s d : ℕ) → Rooted p z s d → (f : ℕ) × Rooted q z (joined ra rb s) f
  pub joins_trees : roots 0 q + (if nat_beq ra rb then 0 else 1) ≡ roots 0 p

joined_slice : List ℕ → ℕ → ℕ → List ℕ
joined_slice q ra rb = if nat_beq ra rb then q else set q ra rb

joined_slice-Joins :
    {p q : List ℕ} {ra rb x y d e : ℕ}
    → Keeps p q
    → IsForest q
    → Rooted q x ra d
    → Rooted q y rb e
    → Joins p (joined_slice q ra rb) ra rb
unfolding joined joined_slice
joined_slice-Joins {p} {q} {ra} {rb} kept forest t u = elim (Bool-cases (nat_beq ra rb)) [
  | inl same ↦
      let r : ra ≡ rb = (nat_beq_iff ra rb).0 same in
      subst (λ z. Joins p z ra rb) (ground arith)
        record {
          joins_forest = forest;
          joins_length = kept.keeps_length;
          joins_rooted = λ z s k v.
              let (f, w, small) = kept.keeps_rooted z s k v in
              (f, subst (λ o. Rooted q z o f) (ground arith) w);
          joins_trees = ground (arith, kept.keeps_roots);
        }
  | inr differs ↦
      let apart : ra ≢ rb = ground (arith) in
      subst (λ z. Joins p z ra rb) (ground arith)
        record {
          joins_forest = hooked-IsForest q ra rb (root_itself t) (root_itself u) apart forest;
          joins_length = length-set q ra rb ∙ kept.keeps_length;
          joins_rooted = λ z s k v.
              let (f, w, small) = kept.keeps_rooted z s k v in
              let (g, o, _) = hooked-Rooted q ra rb (root_itself t) (root_itself u) apart w in
              (g, o);
          joins_trees =
              ground (
                arith,
                hooked-roots q ra rb (root_itself t) (root_itself u) apart,
                kept.keeps_roots,
              );
        }
]

union_finds :
    (p q q' : List ℕ) (a b ra rb : ℕ)
    → find_root p a ≡ some (q, ra)
    → find_root q b ≡ some (q', rb)
    → union p a b ≡ some (joined_slice q' ra rb)
unfolding union joined_slice
union_finds p q q' a b ra rb found found' = ground arith

-- On a forest, `union` of two nodes in range leaves a forest of the same length. A node whose root
-- was the root of the first has the root of the second now, and every other keeps the root it
-- had. There is one tree less if the two roots differed, and as many if they did not.
pub union-Joins :
    (p : List ℕ) (a b : ℕ)
    → IsForest p
    → a < length p
    → b < length p
    → (q : List ℕ) × (ra : ℕ) × (rb : ℕ) × (d : ℕ) × (e : ℕ) × (union p a b ≡ some q)
      × Rooted p a ra d
      × Rooted p b rb e
      × Joins p q ra rb
union-Joins p a b forest in_a in_b =
    let (q, ra, d, found, t, kept, forest') = find_root-root p a forest in_a in
    let l : length q ≡ length p = kept.keeps_length in
    let (q', rb, e, found', u, kept', forest'') = find_root-root q b forest' (omega arith) in
    let (sb, k, v, _) = IsForest-root p b forest in_b in
    let (f, w, _) = kept.keeps_rooted b sb k v in
    let (same, _) = Rooted-unique u w in
    let (g, t', _) = kept.keeps_rooted a ra d t in
    let (g', t'', _) = kept'.keeps_rooted a ra g t' in
    let (h, u', _) = kept'.keeps_rooted b rb e u in
    (
      joined_slice q' ra rb,
      ra,
      rb,
      d,
      k,
      union_finds p q q' a b ra rb found found',
      t,
      subst (λ z. Rooted p b z k) (sym same) v,
      joined_slice-Joins (Keeps-trans kept kept') forest'' t'' u',
    )
