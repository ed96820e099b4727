-- ===== src/DeadCode/Demand/Sound.antt =====
-- The demand of src/noze/dead_code/demand.rs asks for nothing that no importer asks for.
use mathlib.Core.List.{Memᴰ}
use mathlib.Core.Path.{subst, subst⁻¹}
use sensez.Prelude.{
  any-Mem, ℕ, zero, suc, ◌≡◌, ◌≢◌, refl, String, Bool, true, false, Option, some, List, [], ◌∷◌,
  arith, lookup, insert, upsert, string_eq, nat_eq, nat_beq, nat_beq_iff, if◌then◌else◌, Bool-cases,
  Option-cases, inl, inr, eq_of_some, Mem-retain, retain-passes, retain, All-at,
}
use sensez.Graph.{CodebaseGraph, Edge, IsGraph}
use sensez.DeadCode.Reach.{push_all}
use sensez.DeadCode.Reach.Work.{Mem-push_all}
use sensez.DeadCode.Demand.{
  Demand, Inbound, Importers, asks, absorb_inbound, forwarded_by, add_direct,
  direct as direct_demand, demand_fuel, forward_all, forwards_everything, is_reexport, inbound,
  outgoing_reexports,
}
use sensez.DeadCode.Demand.Asked.{
  Side, production, tests, side_eq, side_of, on, exports, needed, Asked, direct, passed, opened,
  passes,
}
use sensez.DeadCode.Demand.Meaning.{
  asks-absorb_inbound, asks-no_demand, asks-add_direct, of, barrel, asks-forwarded_by, asks-insert,
}

side_eq_iff : (a b : Side) → side_eq a b ≡ true → a ≡ b
side_eq_iff production production h = refl
side_eq_iff tests tests h = refl
side_eq_iff production tests h = ground arith
side_eq_iff tests production h = ground arith

passes-needed :
    (d : Demand) (n : String) (x : String × Option String)
    → passes d n x ≡ true
    → (k : String) × (needed x n ≡ some k) × (asks d k ≡ true)
passes-needed d n x hit = elim (Option-cases (needed x n)) [
  | inl none_needed ↦ ground arith
  | inr (k, needs) ↦ (k, needs, ground (arith, needs, hit))
]

module _ (g : CodebaseGraph) (wf : IsGraph g) (importers : Importers) where
  Sound : List (ℕ × Inbound) → Type 0
  Sound demand =
      (side : Side) (v : ℕ) (n : String)
      → asks (on side (of g importers demand v)) n ≡ true
      → Asked g importers side v n

  if-Sound :
      (b : Bool) (m m' : List (ℕ × Inbound))
      → (b ≡ true → Sound m)
      → (b ≡ false → Sound m')
      → Sound (if b then m else m')
  if-Sound true m m' h k = h refl
  if-Sound false m m' h k = k refl

  insert-Sound :
      (demand : List (ℕ × Inbound)) (t : ℕ) (i : Inbound)
      → Sound demand
      → ((side : Side) (n : String) → asks (on side i) n ≡ true → Asked g importers side t n)
      → Sound (insert t i demand)
  unfolding Sound
  insert-Sound demand t i h k side v n c = elim (Bool-cases (nat_beq t v)) [
    | inl same ↦
        subst (λ w. Asked g importers side w n) ((nat_beq_iff t v).0 same)
          (k side n (ground (arith, asks-insert g importers side demand t v i n)))
    | inr other ↦ h side v n (ground (arith, asks-insert g importers side demand t v i n))
  ]

  direct-Sound :
      (edges : List Edge) (demand : List (ℕ × Inbound))
      → ((e : Edge) → Memᴰ e edges → Memᴰ e g.edges)
      → Sound demand
      → Sound (direct_demand g importers edges demand)
  unfolding direct_demand upsert Sound
  direct-Sound [] demand sub h = h
  direct-Sound (e ∷ edges) demand sub h =
      let target = of g importers demand e.target in
      let more = add_direct importers e.source e.weight target in
      if-Sound (is_reexport e) (direct_demand g importers edges demand)
        (direct_demand g importers edges (insert e.target more demand))
        (λ passes_on. direct-Sound edges demand (λ f m. sub f (Memᴰ.tail m)) h)
        (λ asks_itself.
          direct-Sound edges (insert e.target more demand) (λ f m. sub f (Memᴰ.tail m))
            (insert-Sound demand e.target more h (λ side n c.
              elim (Bool-cases (asks (on side target) n)) [
                | inl old ↦ h side e.target n old
                | inr new ↦
                    let added = asks-add_direct importers e.source e.weight target side n in
                    subst⁻¹ (λ s. Asked g importers s e.target n)
                      (side_eq_iff side (side_of importers e.source) (ground (arith, added)))
                      (direct e (sub e (Memᴰ.head refl)) asks_itself (ground (arith, added)))
              ])))

  barrel-Asked :
      (demand : List (ℕ × Inbound)) (e : Edge) (side : Side) (x : String × Option String)
      (k n : String)
      → Sound demand
      → Memᴰ e g.edges
      → is_reexport e ≡ true
      → e.source ≢ e.target
      → Memᴰ x (exports e.weight.imported_symbols e.weight.bindings)
      → needed x n ≡ some k
      → asks (barrel g importers side demand e) k ≡ true
      → Asked g importers side e.target n
  unfolding Sound
  barrel-Asked demand e tests x k n h listed re apart m needs c =
      passed e listed re apart m needs (h tests e.source k c)
  barrel-Asked demand e production x k n h listed re apart m needs c =
      elim (Bool-cases (forwards_everything importers e.source)) [
        | inl everything ↦ opened e listed re apart m needs everything
        | inr shut ↦ passed e listed re apart m needs (h production e.source k (rw shut at c))
      ]

  round-Sound :
      (demand : List (ℕ × Inbound)) (e : Edge)
      → Sound demand
      → Memᴰ e g.edges
      → is_reexport e ≡ true
      → e.source ≢ e.target
      → Sound (
          insert e.target
            (absorb_inbound (of g importers demand e.target) (forwarded_by g importers demand e)).0
            demand)
  unfolding Sound
  round-Sound demand e h listed re apart =
      let target = of g importers demand e.target in
      let more = forwarded_by g importers demand e in
      insert-Sound demand e.target (absorb_inbound target more).0 h (λ side n c.
        elim (Bool-cases (asks (on side target) n)) [
          | inl old ↦ h side e.target n old
          | inr new ↦
              let (x, m, hit) =
                any-Mem (passes (barrel g importers side demand e) n)
                  (exports e.weight.imported_symbols e.weight.bindings)
                  (ground (
                    arith,
                    asks-absorb_inbound side target more n,
                    asks-forwarded_by g importers side demand e n,
                  )) in
              let (k, needs, asked) = passes-needed (barrel g importers side demand e) n x hit in
              barrel-Asked demand e side x k n h listed re apart m needs asked
        ])

  if-Listed :
      (b : Bool) (e : Edge) (pending : List Edge)
      → ((f : Edge) → Memᴰ f pending → Memᴰ f g.edges × (is_reexport f ≡ true))
      → (f : Edge)
      → Memᴰ f (if b then push_all (outgoing_reexports g importers e.target) pending else pending)
      → Memᴰ f g.edges × (is_reexport f ≡ true)
  unfolding outgoing_reexports
  if-Listed false e pending ok f m = ok f m
  if-Listed true e pending ok f m =
      elim (Mem-push_all (retain is_reexport (g.outgoing e.target)) pending f m) [
        | inl pushed ↦ (
          All-at (λ x. Memᴰ x g.edges) (g.outgoing e.target) f (wf.listed e.target)
              (Mem-retain is_reexport (g.outgoing e.target) f pushed),
          retain-passes is_reexport (g.outgoing e.target) f pushed,
        )
        | inr old ↦ ok f old
      ]

  forward_all-Sound :
      (fuel : ℕ) (pending : List Edge) (demand t : List (ℕ × Inbound))
      → ((e : Edge) → Memᴰ e pending → Memᴰ e g.edges × (is_reexport e ≡ true))
      → Sound demand
      → forward_all g importers fuel pending demand ≡ some t
      → Sound t
  unfolding forward_all
  forward_all-Sound fuel [] demand t ok h r = subst Sound (eq_of_some r) h
  forward_all-Sound zero (e ∷ pending) demand t ok h r = ground arith
  forward_all-Sound (suc fuel) (e ∷ pending) demand t ok h r =
      elim (Bool-cases (nat_beq e.source e.target)) [
        | inl loop ↦
            forward_all-Sound fuel pending demand t (λ f m. ok f (Memᴰ.tail m)) h (rw loop at r)
        | inr other ↦
            let (listed, re) = ok e (Memᴰ.head refl) in
            let target = of g importers demand e.target in
            let (after, new) = absorb_inbound target (forwarded_by g importers demand e) in
            let pushed = push_all (outgoing_reexports g importers e.target) pending in
            forward_all-Sound fuel (if new then pushed else pending) (insert e.target after demand)
              t (if-Listed new e pending (λ f m. ok f (Memᴰ.tail m)))
              (round-Sound demand e h listed re
                (λ p. ground (arith, nat_beq_iff e.source e.target)))
              (rw other at r)
      ]

  nil-Sound : Sound []
  unfolding Sound lookup
  nil-Sound production v n c = ground (arith, asks-no_demand n)
  nil-Sound tests v n c = ground (arith, asks-no_demand n)

  pub inbound-Sound :
      (t : List (ℕ × Inbound)) (side : Side) (v : ℕ) (n : String)
      → inbound g importers ≡ some t
      → asks (on side (of g importers t v)) n ≡ true
      → Asked g importers side v n
  unfolding inbound Sound
  inbound-Sound t side v n r c =
      forward_all-Sound (demand_fuel g importers) (push_all (retain is_reexport g.edges) [])
        (direct_demand g importers g.edges []) t
        (λ e m. elim (Mem-push_all (retain is_reexport g.edges) [] e m) [
          | inl listed ↦
              (Mem-retain is_reexport g.edges e listed, retain-passes is_reexport g.edges e listed)
          | inr nothing_else ↦ elim nothing_else [ ]
        ])
        (direct-Sound g.edges [] (λ e m. m) nil-Sound) r side v n c
