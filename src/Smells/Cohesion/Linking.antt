-- ===== src/Smells/Cohesion/Linking.antt =====
-- The loops of `lcom_components` in src/noze/smells/cohesion.rs: the trees that they leave.
use sensez.Prelude.{
  ℕ, zero, suc, ◌<◌, ◌≡◌, refl, ap, ◌∙◌, String, true, none, some, List, [], ◌∷◌, arith, get_elem?,
  contains, lookup, insert, lookup-insert, length, string_eq, ◌==◌, inl, inr, Bool-cases,
  Option-cases,
}
use mathlib.Core.Path.{subst}
use sensez.Smells.UnionFind.Merging.{IsForest-root}
use sensez.Smells.Clusters.{link, SameRoot, IsClustered, union-IsClustered}
use sensez.Smells.Cohesion.{ClassUnit, attrs_of, calls_of, position, link_attrs}

pub name_lt : (xs : List String) (i : ℕ) (m : String) → get_elem? xs i ≡ some m → i < length xs
name_lt [] i m at = cc
name_lt (x ∷ xs) zero m at = omega arith
name_lt (x ∷ xs) (suc i) m at = omega (arith, name_lt xs i m at)

module _ (class : ClassUnit) (stateful : List String) where
  -- The method at a position uses the attribute.
  abbrev pub Uses : String → ℕ → Type 0
  Uses a i = (m : String) × (get_elem? stateful i ≡ some m) × (contains a (attrs_of class m) ≡ true)

  -- Two methods that use a common attribute, or of which the first calls the second.
  pub data Related : ℕ → ℕ → Type 0 where
    attribute : {i j : ℕ} (a : String) → Uses a i → Uses a j → Related i j
    call :
        {i j : ℕ} (m called : String)
        → get_elem? stateful i ≡ some m
        → contains called (calls_of class m) ≡ true
        → position called stateful ≡ some j
        → Related i j

  abbrev n : ℕ
  n = length stateful

  pub position_lt :
      (item : String) (xs : List String) (j : ℕ) → position item xs ≡ some j → j < length xs
  unfolding position
  position_lt item [] j at = absurd (ground arith)
  position_lt item (x ∷ xs) j at = elim (Bool-cases (x == item)) [
    | inl first ↦ let p : 0 ≡ j = ground arith in omega arith
    | inr other ↦ elim (Option-cases (position item xs)) [
      | inl missing ↦ absurd (ground arith)
      | inr (k, later) ↦
          let p : suc k ≡ j = ground arith in omega (arith, position_lt item xs k later)
    ]
  ]

  -- What the loops keep of the slice and the owners.
  pub record Made (p : List ℕ) (owner : List (String × ℕ)) : Type 0 where
    pub clustered : IsClustered Related n p
    pub owners : (a : String) (k : ℕ) → lookup a owner ≡ some k → Uses a k

  pub record Grows (p q : List ℕ) (owner owner' : List (String × ℕ)) : Type 0 where
    pub together : (x y : ℕ) → SameRoot p x y → SameRoot q x y
    pub kept : (a : String) (k : ℕ) → lookup a owner ≡ some k → lookup a owner' ≡ some k

  -- The method shares its tree with the owner of the attribute.
  pub record Met (p : List ℕ) (owner : List (String × ℕ)) (i : ℕ) (a : String) : Type 0 where
    pub owned_by : ℕ
    pub owned : lookup a owner ≡ some owned_by
    pub shares : SameRoot p i owned_by

  pub Met-Grows :
      {p q : List ℕ} {owner owner' : List (String × ℕ)} {i : ℕ} {a : String}
      → Grows p q owner owner'
      → Met p owner i a
      → Met q owner' i a
  Met-Grows {i = i} {a} g m = record {
    owned_by = m.owned_by;
    owned = g.kept a m.owned_by m.owned;
    shares = g.together i m.owned_by m.shares;
  }

  pub with_itself : {p : List ℕ} (i : ℕ) → IsClustered Related n p → i < n → SameRoot p i i
  with_itself {p} i c inside =
      let (r, d, t, _) = IsForest-root p i c.forest (omega (arith, c.size)) in
      record { top = r; depth = d; depth' = d; one = t; other = t }

  pub Uses-lt : (a : String) (i : ℕ) → Uses a i → i < n
  Uses-lt a i (m, at, _) = name_lt stateful i m at

  claimed :
      (attr : String) (i : ℕ) (p : List ℕ) (owner : List (String × ℕ))
      → Uses attr i
      → Made p owner
      → Made p (insert attr i owner)
  claimed attr i p owner mine made = record {
    clustered = made.clustered;
    owners = λ a k at.
        let looked = lookup-insert a attr i owner in
        elim (Bool-cases (attr == a)) [
          | inl same ↦
              let p : i ≡ k = ground (arith, looked, at, same) in
              subst (Uses a) p (subst (λ b. Uses b i) ((string_eq.decides attr a).0 same) mine)
          | inr other ↦ made.owners a k (ground (arith, looked, at, other))
        ];
  }

  unclaimed :
      (attr a : String) (i k : ℕ) (owner : List (String × ℕ))
      → lookup attr owner ≡ none
      → lookup a owner ≡ some k
      → lookup a (insert attr i owner) ≡ some k
  unclaimed attr a i k owner new at = elim (Bool-cases (attr == a)) [
    | inl same ↦
        absurd
          (ground (arith, new, at, ap (λ b. lookup b owner) ((string_eq.decides attr a).0 same)))
    | inr other ↦ ground (arith, lookup-insert a attr i owner, at, other)
  ]

  Met-first :
      (attr : String) (attrs : List String) (q : List ℕ) (owner : List (String × ℕ)) (i : ℕ)
      → ((a : String) → contains a attrs ≡ true → Met q owner i a)
      → Met q owner i attr
      → (a : String) → contains a (attr ∷ attrs) ≡ true
      → Met q owner i a
  unfolding contains
  Met-first attr attrs q owner i rest first a c = elim (Bool-cases (attr == a)) [
    | inl same ↦ subst (Met q owner i) ((string_eq.decides attr a).0 same) first
    | inr other ↦ rest a (ground arith)
  ]

  pub record AttrsLinked (i : ℕ) (attrs : List String) (p : List ℕ) (owner : List (String × ℕ))
      : Type 0 where
    pub slice : List ℕ
    pub owned : List (String × ℕ)
    pub returned : link_attrs i attrs p owner ≡ some (slice, owned)
    pub made : Made slice owned
    pub grows : Grows p slice owner owned
    pub met : (a : String) → contains a attrs ≡ true → Met slice owned i a

  pub link_attrs-Met :
      (i : ℕ) (attrs : List String) (p : List ℕ) (owner : List (String × ℕ))
      → ((a : String) → contains a attrs ≡ true → Uses a i)
      → Made p owner
      → AttrsLinked i attrs p owner
  unfolding link_attrs contains
  link_attrs-Met i [] p owner uses made = record {
    slice = p;
    owned = owner;
    returned = refl;
    made = made;
    grows = record { together = λ x y s. s; kept = λ a k at. at };
    met = λ a c. absurd (ground arith);
  }
  link_attrs-Met i (attr ∷ attrs) p owner uses made =
      let mine : Uses attr i = uses attr (ground (arith, string_eq.decides attr attr)) in
      let further : (a : String) → contains a attrs ≡ true → Uses a i =
        λ a c. uses a (ground arith) in
      elim (Option-cases (lookup attr owner)) [
        | inl new ↦
            let r =
              link_attrs-Met i attrs p (insert attr i owner) further
                (claimed attr i p owner mine made) in
            record {
              slice = r.slice;
              owned = r.owned;
              returned = rw (link_attrs, new) r.returned;
              made = r.made;
              grows = record {
                together = r.grows.together;
                kept = λ a k at. r.grows.kept a k (unclaimed attr a i k owner new at);
              };
              met = Met-first attr attrs r.slice r.owned i r.met record {
                owned_by = i;
                owned =
                    r.grows.kept attr i (
                      lookup-insert attr attr i owner
                      ∙ ground (arith, string_eq.decides attr attr));
                shares = with_itself i r.made.clustered (Uses-lt attr i mine);
              };
            }
        | inr (j, old) ↦
            let (q, done, c, shares, together) =
              union-IsClustered Related n p i j made.clustered (Uses-lt attr i mine)
                (Uses-lt attr j (made.owners attr j old))
                (link (attribute attr mine (made.owners attr j old))) in
            let r =
              link_attrs-Met i attrs q owner further
                (record { clustered = c; owners = made.owners }) in
            record {
              slice = r.slice;
              owned = r.owned;
              returned = rw (link_attrs, old, done) r.returned;
              made = r.made;
              grows = record {
                together = λ x y s. r.grows.together x y (together x y s);
                kept = r.grows.kept;
              };
              met = Met-first attr attrs r.slice r.owned i r.met record {
                owned_by = j;
                owned = r.grows.kept attr j old;
                shares = r.grows.together i j shares;
              };
            }
      ]
