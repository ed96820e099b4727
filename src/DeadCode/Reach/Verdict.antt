-- ===== src/DeadCode/Reach/Verdict.antt =====
-- What `walk` concludes of a module from the two closures.
use sensez.Prelude.{
  ℕ, ◌<◌, ◌≡◌, true, false, not, ◌&&◌, some, List, ◌++◌, arith, contains, contains-retain,
  contains-append, nat_eq, ◌↔◌, inl, inr, Bool-cases,
}
use sensez.Graph.{CodebaseGraph, IsGraph}
use sensez.DeadCode.Reach.{
  Role, prod_root, test_source, module_role, with_role, unimported, islands, Reach, walk,
  has_internal_importer,
}
use sensez.DeadCode.Reach.Closure.{Reached, reach_from_decides}

module _ (g : CodebaseGraph) (wf : IsGraph g) (roles : List (ℕ × Role))
    (below : (v : ℕ) (r : Role) → contains v (with_role g r roles) ≡ true → v < g.size) where
  abbrev pub prod_roots : List ℕ
  prod_roots = with_role g prod_root roles ++ unimported g roles

  prod_below : (v : ℕ) → contains v prod_roots ≡ true → v < g.size
  unfolding unimported
  prod_below v c = elim (Bool-cases (contains v (with_role g prod_root roles))) [
    | inl p ↦ below v prod_root p
    | inr n ↦ below v module_role (
        ground (
          arith,
          contains-append v (with_role g prod_root roles) (unimported g roles),
          contains-retain v (λ idx. not (has_internal_importer g idx))
              (with_role g module_role roles),
        ))
  ]

  -- On a graph, with roles for some of its nodes, the walk ends. It leaves a module without a
  -- role of its own out of production exactly if tests reach it, and neither a production root
  -- nor a module that nothing imports does.
  pub walk_decides :
      (t : Reach) × (walk g roles ≡ some t)
      × ((v : ℕ)
          → ((contains v (with_role g module_role roles) && not (contains v t.prod)) ≡ true) ↔ (
              (contains v (with_role g module_role roles) ≡ true)
              × Reached g (with_role g test_source roles) v
              × ¬ Reached g prod_roots v))
  unfolding walk islands
  walk_decides =
      let (prod, prod_ends, prod_iff) = reach_from_decides g prod_roots wf prod_below in
      let (test, test_ends, test_iff) =
        reach_from_decides g (with_role g test_source roles) wf (λ v c. below v test_source c) in
      let apart = islands g roles prod test in
      let inside = λ (v : ℕ). contains-append v prod apart in
      let left = λ (v : ℕ).
        contains-retain v (λ idx. not (contains idx prod) && not (contains idx test))
          (with_role g module_role roles) in
      (
        record { prod = prod ++ apart; orphans = unimported g roles ++ apart },
        ground (arith, prod_ends, test_ends),
        λ v. (
          λ out.
              let absent : contains v prod ≡ false = ground (arith, inside v) in
              (
                ground arith,
                (test_iff v).0 (ground (arith, inside v, left v)),
                λ p. cc ((prod_iff v).1 p, absent),
              ),
          λ (m, p, n). elim (Bool-cases (contains v prod)) [
            | inl c ↦ absurd (n ((prod_iff v).0 c))
            | inr c ↦ let hit = (test_iff v).1 p in ground (arith, inside v, left v)
          ],
        ),
      )
