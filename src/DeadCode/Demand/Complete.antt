-- ===== src/DeadCode/Demand/Complete.antt =====
-- The demand of src/noze/dead_code/demand.rs asks for all that an importer asks for.
use mathlib.Core.List.{Memᴰ}
use mathlib.Core.Path.{subst, subst⁻¹}
use sensez.Prelude.{
  Mem-any, ℕ, zero, suc, ◌≡◌, ◌≢◌, ◌↔◌, refl, String, Bool, true, false, Option, some, List, [],
  ◌∷◌, arith, insert, upsert, string_eq, nat_eq, nat_beq, nat_beq_iff, if◌then◌else◌, ap,
  Bool-cases, inl, inr, eq_of_some, retain,
}
use sensez.Graph.{CodebaseGraph, Edge, IsGraph}
use sensez.DeadCode.Reach.{push_all}
use sensez.DeadCode.Demand.{
  Demand, Inbound, Importers, asks, absorb_inbound, forwarded_by, add_direct,
  direct as direct_demand, demand_of, demand_fuel, forward_all, forwards_everything, is_reexport,
  inbound, outgoing_reexports,
}
use sensez.DeadCode.Demand.Asked.{
  Side, production, tests, side_eq, side_of, on, asks_directly, exports, needed, Asked, direct,
  passed, opened, passes,
}
use sensez.DeadCode.Demand.Meaning.{
  asks-absorb_inbound, asks-add_direct, of, barrel, asks-forwarded_by, asks-insert,
}
use sensez.DeadCode.Demand.Cover.{CoversInbound, Covers, Covers-asks}
use sensez.DeadCode.Demand.Round.{Inv}
use sensez.DeadCode.Demand.Fixpoint.{inbound-Inv}
use sensez.DeadCode.Demand.Sound.{inbound-Sound}

side_eq_self : (s : Side) → side_eq s s ≡ true
side_eq_self production = refl
side_eq_self tests = refl

on-Covers : (side : Side) (i x : Inbound) → CoversInbound i x → Covers (on side i) (on side x)
on-Covers production i x h = h.prod
on-Covers tests i x h = h.test

needed-passes :
    (d : Demand) (n k : String) (x : String × Option String)
    → needed x n ≡ some k
    → asks d k ≡ true
    → passes d n x ≡ true
needed-passes d n k x needs c = ground (arith, needs, c)

module _ (g : CodebaseGraph) (wf : IsGraph g) (importers : Importers) where
  abbrev is_asked : List (ℕ × Inbound) → Side → ℕ → String → Bool
  is_asked demand side v n = asks (on side (of g importers demand v)) n

  -- An absorbed demand takes nothing back.
  insert-grows :
      (demand : List (ℕ × Inbound)) (t : ℕ) (i : Inbound) (side : Side) (v : ℕ) (n : String)
      → (asks (on side (of g importers demand t)) n ≡ true → asks (on side i) n ≡ true)
      → is_asked demand side v n ≡ true
      → is_asked (insert t i demand) side v n ≡ true
  insert-grows demand t i side v n more c =
      ground (arith, asks-insert g importers side demand t v i n, nat_beq_iff t v, same_asked, more)
    where
      same_asked : t ≡ v → is_asked demand side t n ≡ is_asked demand side v n
      same_asked p = ap (λ w. is_asked demand side w n) p

  if-asked :
      (b : Bool) (m m' : List (ℕ × Inbound)) (side : Side) (v : ℕ) (n : String)
      → is_asked m side v n ≡ true
      → is_asked m' side v n ≡ true
      → is_asked (if b then m else m') side v n ≡ true
  if-asked true m m' side v n h k = h
  if-asked false m m' side v n h k = k

  else-asked :
      (b : Bool) (m m' : List (ℕ × Inbound)) (side : Side) (v : ℕ) (n : String)
      → b ≡ false
      → is_asked m' side v n ≡ true
      → is_asked (if b then m else m') side v n ≡ true
  else-asked true m m' side v n p h = ground arith
  else-asked false m m' side v n p h = h

  direct-grows :
      (edges : List Edge) (demand : List (ℕ × Inbound)) (side : Side) (v : ℕ) (n : String)
      → is_asked demand side v n ≡ true
      → is_asked (direct_demand g importers edges demand) side v n ≡ true
  unfolding direct_demand upsert
  direct-grows [] demand side v n c = c
  direct-grows (e ∷ edges) demand side v n c =
      let target = of g importers demand e.target in
      let more = add_direct importers e.source e.weight target in
      let kept =
        insert-grows demand e.target more side v n
          (λ old. ground (arith, asks-add_direct importers e.source e.weight target side n)) c in
      if-asked (is_reexport e) (direct_demand g importers edges demand)
        (direct_demand g importers edges (insert e.target more demand)) side v n
        (direct-grows edges demand side v n c)
        (direct-grows edges (insert e.target more demand) side v n kept)

  head-asked :
      (f : Edge) (edges : List Edge) (demand : List (ℕ × Inbound)) (n : String)
      → is_reexport f ≡ false
      → asks_directly f.weight n ≡ true
      → is_asked
          (direct_demand g importers (f ∷ edges) demand)
          (side_of importers f.source)
          f.target
          n
        ≡ true
  unfolding direct_demand upsert
  head-asked f edges demand n own c =
      let target = of g importers demand f.target in
      let side = side_of importers f.source in
      let more = add_direct importers f.source f.weight target in
      let now : is_asked (insert f.target more demand) side f.target n ≡ true = ground (
        arith,
        asks-insert g importers side demand f.target f.target more n,
        asks-add_direct importers f.source f.weight target side n,
        side_eq_self side,
        nat_beq_iff f.target f.target,
      ) in
      else-asked (is_reexport f) (direct_demand g importers edges demand)
        (direct_demand g importers edges (insert f.target more demand)) side f.target n own
        (direct-grows edges (insert f.target more demand) side f.target n now)

  direct-asked :
      (edges : List Edge) (demand : List (ℕ × Inbound)) (e : Edge) (n : String)
      → Memᴰ e edges
      → is_reexport e ≡ false
      → asks_directly e.weight n ≡ true
      → is_asked (direct_demand g importers edges demand) (side_of importers e.source) e.target n
        ≡ true
  unfolding direct_demand upsert
  direct-asked [] demand e n m own c = elim m [ ]
  direct-asked (f ∷ edges) demand e n (Memᴰ.head same) own c =
      subst⁻¹
        (λ x.
          is_asked (direct_demand g importers (f ∷ edges) demand) (side_of importers x.source)
            x.target n
          ≡ true)
        same
        (head-asked f edges demand n (subst (λ x. is_reexport x ≡ false) same own)
          (subst (λ x. asks_directly x.weight n ≡ true) same c))
  direct-asked (f ∷ edges) demand e n (Memᴰ.tail m) own c =
      let target = of g importers demand f.target in
      let more = add_direct importers f.source f.weight target in
      if-asked (is_reexport f) (direct_demand g importers edges demand)
        (direct_demand g importers edges (insert f.target more demand)) (side_of importers e.source)
        e.target n (direct-asked edges demand e n m own c)
        (direct-asked edges (insert f.target more demand) e n m own c)

  forward_all-grows :
      (fuel : ℕ) (pending : List Edge) (demand t : List (ℕ × Inbound)) (side : Side) (v : ℕ)
      (n : String)
      → is_asked demand side v n ≡ true
      → forward_all g importers fuel pending demand ≡ some t
      → is_asked t side v n ≡ true
  unfolding forward_all
  forward_all-grows fuel [] demand t side v n c r =
      subst (λ m. is_asked m side v n ≡ true) (eq_of_some r) c
  forward_all-grows zero (e ∷ pending) demand t side v n c r = ground arith
  forward_all-grows (suc fuel) (e ∷ pending) demand t side v n c r =
      elim (Bool-cases (nat_beq e.source e.target)) [
        | inl loop ↦ forward_all-grows fuel pending demand t side v n c (rw loop at r)
        | inr other ↦
            let target = of g importers demand e.target in
            let asked = forwarded_by g importers demand e in
            let (after, new) = absorb_inbound target asked in
            let pushed = push_all (outgoing_reexports g importers e.target) pending in
            forward_all-grows fuel (if new then pushed else pending) (insert e.target after demand)
              t side v n
              (insert-grows demand e.target after side v n
                (λ old. ground (arith, asks-absorb_inbound side target asked n)) c)
              (rw other at r)
      ]

  barrel-asks :
      (t : List (ℕ × Inbound)) (e : Edge) (side : Side) (m : String)
      → is_asked t side e.source m ≡ true
      → asks (barrel g importers side t e) m ≡ true
  unfolding asks
  barrel-asks t e tests m c = c
  barrel-asks t e production m c = ground arith

  barrel-open :
      (t : List (ℕ × Inbound)) (e : Edge) (m : String)
      → forwards_everything importers e.source ≡ true
      → asks (barrel g importers production t e) m ≡ true
  unfolding asks
  barrel-open t e m everything = ground arith

  settled-asked :
      (t : List (ℕ × Inbound)) (e : Edge) (side : Side) (x : String × Option String) (n : String)
      → Inv g wf importers [] t
      → Memᴰ e g.edges
      → is_reexport e ≡ true
      → e.source ≢ e.target
      → Memᴰ x (exports e.weight.imported_symbols e.weight.bindings)
      → passes (barrel g importers side t e) n x ≡ true
      → is_asked t side e.target n ≡ true
  settled-asked t e side x n i listed re apart exported hit = elim (i.settled e listed re apart) [
    | inl waits ↦ elim waits [ ]
    | inr h ↦ ground (
      arith,
      Covers-asks (on side (of g importers t e.target)) (on side (forwarded_by g importers t e))
          (on-Covers side (of g importers t e.target) (forwarded_by g importers t e) h) n,
      asks-forwarded_by g importers side t e n,
      Mem-any (passes (barrel g importers side t e) n)
          (exports e.weight.imported_symbols e.weight.bindings) x exported hit,
    )
  ]

  inbound-asked :
      (t : List (ℕ × Inbound)) (side : Side) (v : ℕ) (n : String)
      → inbound g importers ≡ some t
      → Inv g wf importers [] t
      → Asked g importers side v n
      → is_asked t side v n ≡ true
  unfolding inbound
  inbound-asked t side v n r i (direct e listed own c) =
      forward_all-grows (demand_fuel g importers) (push_all (retain is_reexport g.edges) [])
        (direct_demand g importers g.edges []) t (side_of importers e.source) e.target n
        (direct-asked g.edges [] e n listed own c) r
  inbound-asked t side v n r i (passed e {x} {m} listed re apart exported needs a) =
      settled-asked t e side x n i listed re apart exported (
        needed-passes (barrel g importers side t e) n m x needs
          (barrel-asks t e side m (inbound-asked t side e.source m r i a)))
  inbound-asked t side v n r i (opened e {x} {m} listed re apart exported needs everything) =
      settled-asked t e production x n i listed re apart exported (
        needed-passes (barrel g importers production t e) n m x needs
          (barrel-open t e m everything))

-- On a graph, the demand of a module that the analysis computes, for production and for tests, asks
-- for a name exactly if an importer does: a direct import of that side, a re-export of a module that
-- is asked for the name that this needs, or, for production, a re-export of an entry module or orphan.
pub inbound-Asked :
    (g : CodebaseGraph) (importers : Importers)
    → IsGraph g
    → (t : List (ℕ × Inbound)) × (inbound g importers ≡ some t)
      × ((side : Side) (v : ℕ) (n : String)
          → (asks (on side (demand_of g importers t v)) n ≡ true) ↔ Asked g importers side v n)
inbound-Asked g importers wf =
    let (t, ends, i) = inbound-Inv g wf importers in
    (
      t,
      ends,
      λ side v n. (
        inbound-Sound g wf importers t side v n ends,
        inbound-asked g wf importers t side v n ends i,
      ),
    )
