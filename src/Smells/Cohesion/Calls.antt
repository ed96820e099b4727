-- ===== src/Smells/Cohesion/Calls.antt =====
-- The loop over the calls of a method in src/noze/smells/cohesion.rs.
use sensez.Prelude.{
  ℕ, ◌<◌, ◌≡◌, refl, ap, sym, ◌∙◌, String, true, some, List, [], ◌∷◌, arith, get_elem?, contains,
  length, string_eq, ◌==◌, eq_of_some, inl, inr, Bool-cases, Option-cases,
}
use mathlib.Core.Path.{subst}
use sensez.Smells.Clusters.{link, SameRoot, IsClustered, union-IsClustered}
use sensez.Smells.Cohesion.{ClassUnit, calls_of, position, link_calls}
use sensez.Smells.Cohesion.Linking.{Related, call, position_lt}

module _ (class : ClassUnit) (stateful : List String) where
  abbrev n : ℕ
  n = length stateful

  abbrev Clustered : List ℕ → Type 0
  Clustered = IsClustered (Related class stateful) n

  pub record CallsLinked (i : ℕ) (calls : List String) (p : List ℕ) : Type 0 where
    pub slice : List ℕ
    pub returned : link_calls stateful i calls p ≡ some slice
    pub clustered : IsClustered (Related class stateful) (length stateful) slice
    pub together : (x y : ℕ) → SameRoot p x y → SameRoot slice x y
    pub called :
        (c : String) (j : ℕ)
        → contains c calls ≡ true
        → position c stateful ≡ some j
        → SameRoot slice i j

  pub link_calls-together :
      (i : ℕ) (m : String) (calls : List String) (p : List ℕ)
      → i < n
      → get_elem? stateful i ≡ some m
      → ((c : String) → contains c calls ≡ true → contains c (calls_of class m) ≡ true)
      → Clustered p
      → CallsLinked i calls p
  unfolding link_calls contains
  link_calls-together i m [] p inside at sub c = record {
    slice = p;
    returned = refl;
    clustered = c;
    together = λ x y s. s;
    called = λ a j k. absurd (ground arith);
  }
  link_calls-together i m (callee ∷ calls) p inside at sub c =
      let mine : contains callee (calls_of class m) ≡ true =
        sub callee (ground (arith, string_eq.decides callee callee)) in
      let further : (a : String) → contains a calls ≡ true → contains a (calls_of class m) ≡ true =
        λ a k. sub a (ground arith) in
      let place = λ (a : String). position a stateful in
      elim (Option-cases (position callee stateful)) [
        | inl elsewhere ↦
            let r = link_calls-together i m calls p inside at further c in
            record {
              slice = r.slice;
              returned = rw (link_calls, elsewhere) r.returned;
              clustered = r.clustered;
              together = r.together;
              called = λ a j k at_j. elim (Bool-cases (callee == a)) [
                | inl same ↦ absurd (
                    ground (arith, elsewhere, at_j, ap place ((string_eq.decides callee a).0 same)))
                | inr other ↦ r.called a j (ground arith) at_j
              ];
            }
        | inr (t, found) ↦
            let (q, done, c', met, together) =
              union-IsClustered (Related class stateful) n p i t c inside
                (position_lt class stateful callee stateful t found)
                (link (call m callee at mine found)) in
            let r = link_calls-together i m calls q inside at further c' in
            record {
              slice = r.slice;
              returned = rw (link_calls, found, done) r.returned;
              clustered = r.clustered;
              together = λ x y s. r.together x y (together x y s);
              called = λ a j k at_j. elim (Bool-cases (callee == a)) [
                | inl same ↦
                    let p : t ≡ j =
                      eq_of_some
                        (sym found ∙ (ap place ((string_eq.decides callee a).0 same) ∙ at_j)) in
                    subst (SameRoot r.slice i) p (r.together i t met)
                | inr other ↦ r.called a j (ground arith) at_j
              ];
            }
      ]
