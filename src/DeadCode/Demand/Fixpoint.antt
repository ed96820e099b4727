-- ===== src/DeadCode/Demand/Fixpoint.antt =====
-- The loop of src/noze/dead_code/demand.rs ends, with a demand that every re-export has forwarded.
use mathlib.Core.List.{Memᴰ}
use native.Mathlib.Nat.{mul-le-mul_left, mul-add}
use sensez.Prelude.{
  ℕ, zero, suc, ◌+◌, ◌*◌, ◌≤◌, ◌<◌, ◌≡◌, ◌≢◌, refl, Bool, true, some, List, [], ◌∷◌, arith, length,
  contains, lookup, string_eq, nat_eq, nat_beq, nat_beq_iff, if◌then◌else◌, All, retain, Bool-cases,
  inl, inr, Mem-retain, retain-Mem, All-at, All-Mem, length-map,
}
use sensez.Graph.{CodebaseGraph, Edge, IsGraph, successors}
use sensez.DeadCode.Reach.{push_all, out_degrees}
use sensez.DeadCode.Reach.Work.{length-push_all, length-retain-le, push_all-Mem, Mem-push_all}
use sensez.DeadCode.Demand.{
  Inbound, Importers, absorb_inbound, forwarded_by, forward_all, direct, demand_fuel, inbound,
  is_reexport, outgoing_reexports,
}
use sensez.DeadCode.Demand.Room.{absorb_inbound-room, total_room, total_room_le, total_room-insert}
use sensez.DeadCode.Demand.Names.{direct-AllWithin, symbols_of-All}
use sensez.DeadCode.Demand.Round.{
  all, of, Inv, Inv-skip, Inv-quiet, Inv-grown, fits, after, demand',
}

-- A round that grows the demand can pay for as many edges as the graph has.
paid : (d room room' : ℕ) → room' + 1 ≤ room → d * room' + d ≤ d * room
paid d room room' h = omega (arith, mul-le-mul_left d h, mul-add d room' 1)

module _ (g : CodebaseGraph) (wf : IsGraph g) (importers : Importers) where
  degree_le : (n v : ℕ) → v < n → length (successors g v) ≤ out_degrees g n
  unfolding out_degrees
  degree_le zero v h = absurd (omega arith)
  degree_le (suc n) v h = ground (arith, degree_le n v, nat_beq_iff v n)

  -- What the fuel pays for.
  owed : List Edge → List (ℕ × Inbound) → ℕ
  owed pending demand =
      length pending + out_degrees g g.size * total_room (all g wf importers) demand g.size

  target_below : (e : Edge) → Memᴰ e g.edges → e.target < g.size
  target_below e m =
      let from = All-at (λ x. Memᴰ x (g.outgoing x.source)) g.edges e wf.references m in
      (All-at (λ x. (x.source ≡ e.source) × (x.target < g.size)) (g.outgoing e.source) e
        (wf.out_edges e.source) from).1

  module _ (e : Edge) (pending : List Edge) (demand : List (ℕ × Inbound))
      (i : Inv g wf importers (e ∷ pending) demand) where
    abbrev next : List (ℕ × Inbound)
    next = demand' g wf importers e pending demand i

    abbrev new : Bool
    new = (absorb_inbound (of g wf importers demand e.target) (forwarded_by g importers demand e)).1

    room_left :
        total_room (all g wf importers) next g.size + (if new then 1 else 0)
        ≤ total_room (all g wf importers) demand g.size
    room_left =
        let listed = i.known e (Memᴰ.head refl) in
        omega (
          arith,
          total_room-insert (all g wf importers) demand e.target
              (after g wf importers e pending demand i) g.size (target_below e listed),
          absorb_inbound-room (all g wf importers) (of g wf importers demand e.target)
              (forwarded_by g importers demand e) (fits g wf importers e pending demand i),
        )

    round_pays :
        new ≡ true
        → suc (owed (push_all (outgoing_reexports g importers e.target) pending) next)
          ≤ owed (e ∷ pending) demand
    unfolding owed outgoing_reexports
    round_pays grown =
        let room = total_room (all g wf importers) demand g.size in
        let room' = total_room (all g wf importers) next g.size in
        let less : room' + 1 ≤ room = rw grown at room_left in
        omega (
          arith,
          paid (out_degrees g g.size) room room' less,
          length-push_all (retain is_reexport (g.outgoing e.target)) pending,
          length-retain-le is_reexport (g.outgoing e.target),
          length-map (λ (x : Edge). x.target) (g.outgoing e.target),
          degree_le g.size e.target (target_below e (i.known e (Memᴰ.head refl))),
        )

    quiet_pays : suc (owed pending next) ≤ owed (e ∷ pending) demand
    unfolding owed
    quiet_pays =
        let room = total_room (all g wf importers) demand g.size in
        let room' = total_room (all g wf importers) next g.size in
        let less : room' ≤ room = omega (arith, room_left) in
        omega (arith, mul-le-mul_left (out_degrees g g.size) less)

  forward_all-Inv :
      (fuel : ℕ) (pending : List Edge) (demand : List (ℕ × Inbound))
      → Inv g wf importers pending demand
      → owed pending demand ≤ fuel
      → (t : List (ℕ × Inbound)) × (forward_all g importers fuel pending demand ≡ some t)
        × Inv g wf importers [] t
  unfolding forward_all owed
  forward_all-Inv fuel [] demand i h = (demand, refl, i)
  forward_all-Inv zero (e ∷ pending) demand i h = absurd (omega arith)
  forward_all-Inv (suc fuel) (e ∷ pending) demand i h =
      elim (Bool-cases (nat_beq e.source e.target)) [
        | inl loop ↦
            let (t, ends, inv) =
              forward_all-Inv fuel pending demand
                (Inv-skip g wf importers e pending demand i
                  ((nat_beq_iff e.source e.target).0 loop))
                (omega arith) in
            (t, rw loop ends, inv)
        | inr other ↦
            let apart : e.source ≢ e.target = λ p. ground (arith, nat_beq_iff e.source e.target) in
            let next' = next e pending demand i in
            elim (Bool-cases (new e pending demand i)) [
              | inl grown ↦
                  let pending' = push_all (outgoing_reexports g importers e.target) pending in
                  let (t, ends, inv) =
                    forward_all-Inv fuel pending' next'
                      (Inv-grown g wf importers e pending demand i apart)
                      (omega (arith, h, round_pays e pending demand i grown)) in
                  (t, rw other (rw grown ends), inv)
              | inr same ↦
                  let (t, ends, inv) =
                    forward_all-Inv fuel pending next'
                      (Inv-quiet g wf importers e pending demand i apart same)
                      (omega (arith, h, quiet_pays e pending demand i)) in
                  (t, rw other (rw same ends), inv)
            ]
      ]

  Inv-start :
      Inv g wf importers (push_all (retain is_reexport g.edges) []) (direct g importers g.edges [])
  unfolding lookup
  Inv-start = record {
    known = λ e m. elim (Mem-push_all (retain is_reexport g.edges) [] e m) [
      | inl listed ↦ Mem-retain is_reexport g.edges e listed
      | inr nothing_else ↦ elim nothing_else [ ]
    ];
    within =
        direct-AllWithin (all g wf importers) g importers g.edges []
          (All-Mem
            (λ e. All (λ n. contains n (all g wf importers) ≡ true) e.weight.imported_symbols)
            g.edges (symbols_of-All g.edges))
          (λ v. (tt, tt));
    settled = λ e listed passes apart. inl (
        push_all-Mem (retain is_reexport g.edges) [] e
          (inl (retain-Mem is_reexport g.edges e passes listed)));
  }

  pub inbound-Inv :
      (t : List (ℕ × Inbound)) × (inbound g importers ≡ some t) × Inv g wf importers [] t
  unfolding inbound demand_fuel owed
  inbound-Inv =
      let start = direct g importers g.edges [] in
      let room = total_room_le (all g wf importers) start g.size in
      forward_all-Inv (demand_fuel g importers) (push_all (retain is_reexport g.edges) []) start
        Inv-start
        (omega (
          arith,
          length-push_all (retain is_reexport g.edges) [],
          length-retain-le is_reexport g.edges,
          mul-le-mul_left (out_degrees g g.size) room,
        ))
