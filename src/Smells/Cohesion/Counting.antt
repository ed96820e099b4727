-- ===== src/Smells/Cohesion/Counting.antt =====
-- `lcom_components` of src/noze/smells/cohesion.rs: what it counts.
use sensez.Prelude.{
  ℕ, zero, suc, ◌+◌, ◌≤◌, ◌<◌, ◌≡◌, ◌↔◌, refl, sym, ◌∙◌, String, none, some, List, [], ◌∷◌, arith,
  count, All, length, nat_beq, nat_eq, if◌then◌else◌,
}
use mathlib.Core.Path.{subst}
use sensez.Smells.UnionFind.{find_root}
use sensez.Smells.UnionFind.Rooted.{Rooted, root, Rooted-unique, lt-length}
use sensez.Smells.UnionFind.Finding.{Keeps, Keeps-refl, Keeps-trans, IsForest, find_root-root}
use sensez.Smells.UnionFind.Merging.{root_itself}
use sensez.Smells.Clusters.{Linked, range}
use sensez.Smells.Cohesion.{ClassUnit, count_roots, lcom_components}
use sensez.Smells.Cohesion.Linking.{Related}
use sensez.Smells.Cohesion.Methods.{link_methods-Clusters}

-- The root that `find` returns.
unfoldable pub root_of : List ℕ → ℕ → ℕ
root_of p x = elim (find_root p x) [ none ↦ x | some (q, r) ↦ r ]

root_of-found : (p q : List ℕ) (x r : ℕ) → find_root p x ≡ some (q, r) → root_of p x ≡ r
unfolding root_of
root_of-found p q x r found = rw (root_of, found) refl

root_of-Rooted :
    (p : List ℕ) (x : ℕ) → IsForest p → x < length p → (d : ℕ) × Rooted p x (root_of p x) d
root_of-Rooted p x forest inside =
    let (q, r, d, found, t, kept, forest') = find_root-root p x forest inside in
    (d, subst (λ z. Rooted p x z d) (sym (root_of-found p q x r found)) t)

count_roots-step :
    (q q' nodes : List ℕ) (x r k : ℕ)
    → find_root q x ≡ some (q', r)
    → count_roots nodes q' ≡ some k
    → count_roots (x ∷ nodes) q ≡ some (if nat_beq r x then suc k else k)
unfolding count_roots
count_roots-step q q' nodes x r k found rest = rw (count_roots, found, rest) refl

count_roots-count :
    (p q : List ℕ) (nodes : List ℕ)
    → Keeps p q
    → IsForest p
    → IsForest q
    → All (λ x. x < length p) nodes
    → count_roots nodes q ≡ some (count (λ x. nat_beq (root_of p x) x) nodes)
unfolding count_roots count
count_roots-count p q [] kept forest forest' h = refl
count_roots-count p q (x ∷ nodes) kept forest forest' h =
    let (d, t) = root_of-Rooted p x forest h.0 in
    let (q', r, e, found, u, kept', forest'') =
      find_root-root q x forest' (omega (arith, h.0, kept.keeps_length)) in
    let (f, v, _) = kept.keeps_rooted x (root_of p x) d t in
    let (same, _) = Rooted-unique u v in
    let rest = count_roots-count p q' nodes (Keeps-trans kept kept') forest forest'' h.1 in
    count_roots-step q q' nodes x r (count (λ x. nat_beq (root_of p x) x) nodes) found rest
    ∙ rw same refl

range-All : (n k m : ℕ) → k + m ≤ n → All (λ x. x < n) (range k m)
unfolding range
range-All n k zero h = tt
range-All n k (suc m) h = (omega arith, range-All n (suc k) m (omega arith))

-- `lcom_components` returns, whatever methods it is asked about, and returns the number of groups of
-- them: there is a group for every method, the same for two exactly if a chain of shared attributes
-- and calls, in either direction, leads from one to the other. Each group is named by one of its
-- methods, and those that name a group are counted.
pub lcom_components-groups :
    (class : ClassUnit) (stateful : List String)
    → (group : ℕ → ℕ) × ((x y : ℕ)
        → x < length stateful
        → y < length stateful
        → (group x ≡ group y) ↔ Linked (Related class stateful) x y)
      × ((x : ℕ) → x < length stateful → (group x < length stateful) × (group (group x) ≡ group x))
      × (lcom_components class stateful
          ≡ some (count (λ x. nat_beq (group x) x) (range 0 (length stateful))))
unfolding lcom_components
lcom_components-groups class stateful =
    let c = link_methods-Clusters class stateful in
    let rooted : (x : ℕ) → x < length stateful → (d : ℕ) × Rooted c.slice x (root_of c.slice x) d =
      λ x h. root_of-Rooted c.slice x c.clustered.forest (omega (arith, c.clustered.size)) in
    (
      root_of c.slice,
      λ x y in_x in_y.
          let (d, t) = rooted x in_x in
          let (e, u) = rooted y in_y in
          (
            λ same. c.clustered.sound x y in_x in_y record {
              top = root_of c.slice y;
              depth = d;
              depth' = e;
              one = subst (λ z. Rooted c.slice x z d) same t;
              other = u;
            },
            λ linked.
                let s = c.together x y in_x linked in
                let (p, _) = Rooted-unique t s.one in
                let (q, _) = Rooted-unique u s.other in p ∙ sym q,
          ),
      λ x h.
          let (d, t) = rooted x h in
          let at = root_itself t in
          let inside = lt-length c.slice (root_of c.slice x) (root_of c.slice x) at in
          let (e, u) = root_of-Rooted c.slice (root_of c.slice x) c.clustered.forest inside in
          let (same, _) = Rooted-unique u (root refl refl at) in
          (omega (arith, inside, c.clustered.size), same),
      rw (lcom_components, c.returned)
          (count_roots-count c.slice c.slice (range 0 (length stateful)) (Keeps-refl c.slice)
            c.clustered.forest c.clustered.forest
            (range-All (length c.slice) 0 (length stateful) (omega (arith, c.clustered.size)))),
    )
