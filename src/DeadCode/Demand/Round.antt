-- ===== src/DeadCode/Demand/Round.antt =====
-- One round of the loop of src/noze/dead_code/demand.rs: what it settles, and what it keeps.
use mathlib.Core.List.{Memᴰ}
use mathlib.Core.Path.{subst, subst⁻¹}
use sensez.Prelude.{
  nat_beq_apart, ℕ, ◌≡◌, ◌≢◌, ◌⊎◌, refl, String, true, false, List, ◌∷◌, arith, lookup, insert,
  unwrap_or, string_eq, nat_eq, nat_beq, nat_beq_iff, if◌then◌else◌, retain, Bool-cases, inl, inr,
  ap, sym, ◌∙◌, Mem-retain, retain-Mem, All-at,
}
use sensez.Graph.{CodebaseGraph, Edge, IsGraph}
use sensez.DeadCode.Reach.{push_all}
use sensez.DeadCode.Reach.Work.{push_all-Mem, Mem-push_all}
use sensez.DeadCode.Demand.{
  Inbound, Importers, absorb_inbound, forwarded, forwarded_by, forwards_everything, symbols_of,
  no_inbound, is_reexport, outgoing_reexports,
}
use sensez.DeadCode.Demand.Cover.{
  CoversInbound, absorb_inbound-Covers, Covers-absorb_inbound, absorb_inbound_same,
}
use sensez.DeadCode.Demand.Room.{WithinInbound}
use sensez.DeadCode.Demand.Names.{
  AllWithin, forwarded_by-Within, insert-AllWithin, absorb_inbound-Within, demand_of-insert,
  symbols_of-All,
}

module _ (g : CodebaseGraph) (wf : IsGraph g) (importers : Importers) where
  abbrev pub all : List String
  all = symbols_of g.edges

  abbrev pub of : List (ℕ × Inbound) → ℕ → Inbound
  of demand v = unwrap_or (lookup v demand) no_inbound

  forwarded_by_congr :
      (m m' : List (ℕ × Inbound)) (e : Edge)
      → of m e.source ≡ of m' e.source
      → forwarded_by g importers m e ≡ forwarded_by g importers m' e
  unfolding forwarded_by
  forwarded_by_congr m m' e h =
      ap
        (λ (source : Inbound).
          let own = source.prod in
          let everything = record own { all = true } in
          forwarded source (if forwards_everything importers e.source then everything else own)
            e.weight)
        h

  pub record Inv (pending : List Edge) (demand : List (ℕ × Inbound)) : Type 0 where
    pub known : (e : Edge) → Memᴰ e pending → Memᴰ e g.edges
    pub within : AllWithin all g importers demand
    pub settled :
        (e : Edge)
        → Memᴰ e g.edges
        → is_reexport e ≡ true
        → e.source ≢ e.target
        → Memᴰ e pending ⊎ CoversInbound (of demand e.target) (forwarded_by g importers demand e)

  module _ (e : Edge) (pending : List Edge) (demand : List (ℕ × Inbound))
      (i : Inv (e ∷ pending) demand) where
    pub Inv-skip : e.source ≡ e.target → Inv pending demand
    Inv-skip loop = record {
      known = λ f m. i.known f (Memᴰ.tail m);
      within = i.within;
      settled = λ f listed passes apart. elim (i.settled f listed passes apart) [
        | inl (Memᴰ.head same) ↦
            absurd (apart (ap (λ x. x.source) same ∙ (loop ∙ ap (λ x. x.target) (sym same))))
        | inl (Memᴰ.tail later) ↦ inl later
        | inr done ↦ inr done
      ];
    }

    abbrev pub before : Inbound
    before = of demand e.target

    abbrev pub asked : Inbound
    asked = forwarded_by g importers demand e

    abbrev pub after : Inbound
    after = (absorb_inbound before asked).0

    abbrev pub demand' : List (ℕ × Inbound)
    demand' = insert e.target after demand

    at_target : (v : ℕ) → e.target ≡ v → of demand' v ≡ after
    at_target v p = ground (arith, demand_of-insert v e.target after demand, nat_beq_iff e.target v)

    elsewhere : (v : ℕ) → nat_beq e.target v ≡ false → of demand' v ≡ of demand v
    elsewhere v other = ground (arith, demand_of-insert v e.target after demand)

    grows : (v : ℕ) (x : Inbound) → CoversInbound (of demand v) x → CoversInbound (of demand' v) x
    grows v x h = elim (Bool-cases (nat_beq e.target v)) [
      | inl same ↦
          let p = (nat_beq_iff e.target v).0 same in
          subst⁻¹ (λ j. CoversInbound j x) (at_target v p)
            (Covers-absorb_inbound before asked x
              (subst⁻¹ (λ w. CoversInbound (of demand w) x) p h))
      | inr other ↦ subst⁻¹ (λ j. CoversInbound j x) (elsewhere v other) h
    ]

    here_now :
        e.source ≢ e.target
        → CoversInbound (of demand' e.target) (forwarded_by g importers demand' e)
    here_now apart =
        let other : nat_beq e.target e.source ≡ false =
          nat_beq_apart e.target e.source (λ p. apart (sym p)) in
        subst (λ y. CoversInbound (of demand' e.target) y)
          (forwarded_by_congr demand demand' e (sym (elsewhere e.source other)))
          (subst⁻¹ (λ j. CoversInbound j asked) (at_target e.target refl)
            (absorb_inbound-Covers before asked))

    pub fits : WithinInbound all asked
    fits =
        forwarded_by-Within all g importers demand e i.within
          (symbols_of-All g.edges e (i.known e (Memᴰ.head refl)))

    within' : AllWithin all g importers demand'
    within' =
        insert-AllWithin all g importers demand e.target after i.within
          (absorb_inbound-Within all before asked (i.within e.target) fits)

    unchanged : (absorb_inbound before asked).1 ≡ false → (v : ℕ) → of demand v ≡ of demand' v
    unchanged same v = elim (Bool-cases (nat_beq e.target v)) [
      | inl here ↦
          let p = (nat_beq_iff e.target v).0 here in
          sym (at_target v p ∙ (absorb_inbound_same before asked same ∙ ap (of demand) p))
      | inr other ↦ sym (elsewhere v other)
    ]

    -- A re-export that was settled stays so, unless its source grew; then it is queued.
    settled_on :
        (f : Edge)
        → ((absorb_inbound before asked).1 ≡ false) ⊎ (f.source ≢ e.target)
        → CoversInbound (of demand f.target) (forwarded_by g importers demand f)
        → CoversInbound (of demand' f.target) (forwarded_by g importers demand' f)
    settled_on f still h =
        subst (λ y. CoversInbound (of demand' f.target) y)
          (forwarded_by_congr demand demand' f (same_source f still))
          (grows f.target (forwarded_by g importers demand f) h)
      where
        same_source :
            (f : Edge)
            → ((absorb_inbound before asked).1 ≡ false) ⊎ (f.source ≢ e.target)
            → of demand f.source ≡ of demand' f.source
        same_source f (inl same) = unchanged same f.source
        same_source f (inr apart) =
            sym (elsewhere f.source (nat_beq_apart e.target f.source (λ p. apart (sym p))))

    pub Inv-quiet :
        e.source ≢ e.target → (absorb_inbound before asked).1 ≡ false → Inv pending demand'
    Inv-quiet apart same = record {
      known = λ f m. i.known f (Memᴰ.tail m);
      within = within';
      settled = λ f listed passes apart'. elim (i.settled f listed passes apart') [
        | inl (Memᴰ.head is) ↦ inr (
            subst⁻¹ (λ x. CoversInbound (of demand' x.target) (forwarded_by g importers demand' x))
              is (here_now apart))
        | inl (Memᴰ.tail later) ↦ inl later
        | inr done ↦ inr (settled_on f (inl same) done)
      ];
    }

    pub Inv-grown :
        e.source ≢ e.target
        → Inv (push_all (outgoing_reexports g importers e.target) pending) demand'
    unfolding outgoing_reexports
    Inv-grown apart = record {
      known = λ f m. elim (Mem-push_all (outgoing_reexports g importers e.target) pending f m) [
        | inl pushed ↦
            All-at (λ x. Memᴰ x g.edges) (g.outgoing e.target) f (wf.listed e.target)
              (Mem-retain is_reexport (g.outgoing e.target) f pushed)
        | inr old ↦ i.known f (Memᴰ.tail old)
      ];
      within = within';
      settled = λ f listed passes apart'. elim (i.settled f listed passes apart') [
        | inl (Memᴰ.head is) ↦ inr (
            subst⁻¹ (λ x. CoversInbound (of demand' x.target) (forwarded_by g importers demand' x))
              is (here_now apart))
        | inl (Memᴰ.tail later) ↦
            inl (push_all-Mem (outgoing_reexports g importers e.target) pending f (inr later))
        | inr done ↦ elim (Bool-cases (nat_beq f.source e.target)) [
          | inl from ↦ inl (
              push_all-Mem (outgoing_reexports g importers e.target) pending f (
                inl (
                  subst (λ w. Memᴰ f (retain is_reexport (g.outgoing w)))
                    ((nat_beq_iff f.source e.target).0 from)
                    (retain-Mem is_reexport (g.outgoing f.source) f passes (
                      All-at (λ x. Memᴰ x (g.outgoing x.source)) g.edges f wf.references listed)))))
          | inr other ↦
              inr (settled_on f (inr (λ p. ground (arith, nat_beq_iff f.source e.target))) done)
        ]
      ];
    }
