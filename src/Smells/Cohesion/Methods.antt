-- ===== src/Smells/Cohesion/Methods.antt =====
-- The loop over the methods in src/noze/smells/cohesion.rs: every pair of related methods ends in one
-- tree.
use sensez.Prelude.{
  ℕ, zero, suc, ◌+◌, ◌<◌, ◌≡◌, refl, sym, ◌∙◌, String, true, some, List, [], ◌∷◌, arith, get_elem?,
  contains, lookup, length, string_eq, eq_of_some,
}
use mathlib.Core.Path.{subst, subst₂}
use sensez.Smells.Clusters.{
  Linked, here, link, back, chain, SameRoot, SameRoot-sym, SameRoot-trans, IsClustered, range,
  range-IsClustered,
}
use sensez.Smells.Cohesion.{ClassUnit, attrs_of, calls_of, position, link_methods}
use sensez.Smells.Cohesion.Linking.{
  Related, attribute, call, Made, Grows, Met, Met-Grows, with_itself, Uses-lt, name_lt, position_lt,
  link_attrs-Met,
}
use sensez.Smells.Cohesion.Calls.{link_calls-together}

module _ (class : ClassUnit) (stateful : List String) where
  abbrev n : ℕ
  n = length stateful

  abbrev Clustered : List ℕ → Type 0
  Clustered = IsClustered (Related class stateful) n

  -- What the loop leaves of the method at `x`.
  record Placed (p : List ℕ) (owner : List (String × ℕ)) (x : ℕ) (m : String) : Type 0 where
    pub met : (a : String) → contains a (attrs_of class m) ≡ true → Met class stateful p owner x a
    pub called :
        (c : String) (j : ℕ)
        → contains c (calls_of class m) ≡ true
        → position c stateful ≡ some j
        → SameRoot p x j

  Placed-Grows :
      {p q : List ℕ} {owner owner' : List (String × ℕ)} {x : ℕ} {m : String}
      → Grows class stateful p q owner owner'
      → Placed p owner x m
      → Placed q owner' x m
  Placed-Grows {x = x} g s = record {
    met = λ a c. Met-Grows class stateful g (s.met a c);
    called = λ c j k at. g.together x j (s.called c j k at);
  }

  record MethodsLinked (i : ℕ) (methods : List String) (p : List ℕ) (owner : List (String × ℕ))
      : Type 0 where
    pub slice : List ℕ
    pub owned : List (String × ℕ)
    pub returned : link_methods class stateful i methods p owner ≡ some slice
    pub clustered : IsClustered (Related class stateful) (length stateful) slice
    pub grows : Grows class stateful p slice owner owned
    pub placed : (k : ℕ) (m : String) → get_elem? methods k ≡ some m → Placed slice owned (i + k) m

  Placed-each :
      (i : ℕ) (m : String) (methods : List String) (q : List ℕ) (owner : List (String × ℕ))
      → Placed q owner i m
      → ((k : ℕ) (m' : String) → get_elem? methods k ≡ some m' → Placed q owner (suc i + k) m')
      → (k : ℕ) (m' : String) → get_elem? (m ∷ methods) k ≡ some m'
      → Placed q owner (i + k) m'
  Placed-each i m methods q owner first rest zero m' h =
      subst₂ (Placed q owner) (omega arith) (eq_of_some h) first
  Placed-each i m methods q owner first rest (suc k) m' h =
      subst (λ z. Placed q owner z m') (omega arith) (rest k m' h)

  link_methods-Placed :
      (i : ℕ) (methods : List String) (p : List ℕ) (owner : List (String × ℕ))
      → ((k : ℕ) (m : String) → get_elem? methods k ≡ some m → get_elem? stateful (i + k) ≡ some m)
      → Made class stateful p owner
      → MethodsLinked i methods p owner
  unfolding link_methods
  link_methods-Placed i [] p owner rest made = record {
    slice = p;
    owned = owner;
    returned = refl;
    clustered = made.clustered;
    grows = record { together = λ x y s. s; kept = λ a k at. at };
    placed = λ k m at. cc;
  }
  link_methods-Placed i (m ∷ methods) p owner rest made =
      let at : get_elem? stateful i ≡ some m =
        subst (λ z. get_elem? stateful z ≡ some m) (omega arith) (rest 0 m refl) in
      let a = link_attrs-Met class stateful i (attrs_of class m) p owner (λ b c. (m, at, c)) made in
      let c =
        link_calls-together class stateful i m (calls_of class m) a.slice (name_lt stateful i m at)
          at (λ b k. k) a.made.clustered in
      let r =
        link_methods-Placed (suc i) methods c.slice a.owned
          (λ k m' h. subst (λ z. get_elem? stateful z ≡ some m') (omega arith) (rest (suc k) m' h))
          (record { clustered = c.clustered; owners = a.made.owners }) in
      let first : Placed c.slice a.owned i m = record {
        met = λ b k.
            Met-Grows class stateful (record { together = c.together; kept = λ d e h. h })
              (a.met b k);
        called = c.called;
      } in
      record {
        slice = r.slice;
        owned = r.owned;
        returned = rw (link_methods, a.returned, c.returned) r.returned;
        clustered = r.clustered;
        grows = record {
          together = λ x y s. r.grows.together x y (c.together x y (a.grows.together x y s));
          kept = λ b k h. r.grows.kept b k (a.grows.kept b k h);
        };
        placed = Placed-each i m methods r.slice r.owned (Placed-Grows r.grows first) r.placed;
      }

  Linked-inside :
      {x y : ℕ} → Linked (Related class stateful) x y → (x < n → y < n) × (y < n → x < n)
  Linked-inside here = (λ h. h, λ h. h)
  Linked-inside {x} {y} (link (attribute a uses uses')) =
      (λ h. Uses-lt class stateful a y uses', λ h. Uses-lt class stateful a x uses)
  Linked-inside {x} {y} (link (call m callee at calls found)) =
      (λ h. position_lt class stateful callee stateful y found, λ h. name_lt stateful x m at)
  Linked-inside (back l) = ((Linked-inside l).1, (Linked-inside l).0)
  Linked-inside (chain l l') = (
    λ h. (Linked-inside l').0 ((Linked-inside l).0 h),
    λ h. (Linked-inside l).1 ((Linked-inside l').1 h),
  )

  Placed-together :
      (p : List ℕ) (owner : List (String × ℕ))
      → Clustered p
      → ((k : ℕ) (m : String) → get_elem? stateful k ≡ some m → Placed p owner k m)
      → (x y : ℕ) → x < n
      → Linked (Related class stateful) x y
      → SameRoot p x y
  Placed-together p owner c placed x y inside here = with_itself class stateful x c inside
  Placed-together p owner c placed x y inside (link (attribute a (m, at, uses) (m', at', uses'))) =
      let one = (placed x m at).met a uses in
      let other = (placed y m' at').met a uses' in
      let p : other.owned_by ≡ one.owned_by = eq_of_some (sym other.owned ∙ one.owned) in
      SameRoot-trans one.shares (SameRoot-sym (subst (SameRoot _ y) p other.shares))
  Placed-together p owner c placed x y inside (link (call m callee at calls found)) =
      (placed x m at).called callee y calls found
  Placed-together p owner c placed x y inside (back l) =
      SameRoot-sym (Placed-together p owner c placed y x ((Linked-inside l).1 inside) l)
  Placed-together p owner c placed x y inside (chain {y = z} l l') =
      SameRoot-trans (Placed-together p owner c placed x z inside l)
        (Placed-together p owner c placed z y ((Linked-inside l).0 inside) l')

  -- The slice that the loop over the methods returns.
  pub record Clusters : Type 0 where
    pub slice : List ℕ
    pub returned :
        link_methods class stateful 0 stateful (range 0 (length stateful)) [] ≡ some slice
    pub clustered : IsClustered (Related class stateful) (length stateful) slice
    pub together :
        (x y : ℕ) → x < length stateful → Linked (Related class stateful) x y → SameRoot slice x y

  pub link_methods-Clusters : Clusters
  unfolding lookup
  link_methods-Clusters =
      let r =
        link_methods-Placed 0 stateful (range 0 n) []
          (λ k m h. subst (λ z. get_elem? stateful z ≡ some m) (omega arith) h)
          (record {
            clustered = range-IsClustered (Related class stateful) n;
            owners = λ a k at. absurd (ground arith);
          }) in
      record {
        slice = r.slice;
        returned = r.returned;
        clustered = r.clustered;
        together =
            Placed-together r.slice r.owned r.clustered
              (λ k m h. subst (λ z. Placed r.slice r.owned z m) (omega arith) (r.placed k m h));
      }
