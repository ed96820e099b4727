-- ===== src/DeadCode/Demand/Room.antt =====
-- How far the demand of src/noze/dead_code/demand.rs can still grow, over all modules.
use sensez.Prelude.{
  ℕ, zero, suc, ◌+◌, ◌*◌, ◌≤◌, ◌<◌, ◌≡◌, refl, String, List, arith, length, lookup, insert,
  lookup-insert, unwrap_or, string_eq, nat_eq, nat_beq_iff, if◌then◌else◌, ap,
}
use native.Mathlib.Nat.{suc-mul}
use sensez.DeadCode.Demand.{Inbound, absorb_inbound, no_inbound}
use sensez.DeadCode.Demand.Growth.{room, Within, absorb_demand-room, room_le}

module _ (all : List String) where
  abbrev pub WithinInbound : Inbound → Type 0
  WithinInbound i = Within all i.prod × Within all i.test

  pub inbound_room : Inbound → ℕ
  inbound_room i =
      room all i.prod
      + room all i.test
      + (if i.type_star then 0 else 1)
      + (if i.opaque then 0 else 1)
      + (if i.from_config then 0 else 1)

  pub absorb_inbound-room :
      (i other : Inbound)
      → WithinInbound other
      → inbound_room (absorb_inbound i other).0 + (if (absorb_inbound i other).1 then 1 else 0)
        ≤ inbound_room i
  unfolding absorb_inbound inbound_room
  absorb_inbound-room i other h = ground (
    arith,
    absorb_demand-room all i.prod other.prod h.0,
    absorb_demand-room all i.test other.test h.1,
  )

  pub inbound_room_le : (i : Inbound) → inbound_room i ≤ 2 * length all + 5
  unfolding inbound_room
  inbound_room_le i = ground (arith, room_le all i.prod, room_le all i.test)

  -- The room of the modules below `n`.
  module _ (demand : List (ℕ × Inbound)) where
    pub total_room : ℕ → ℕ
    total_room zero = 0
    total_room (suc n) = inbound_room (unwrap_or (lookup n demand) no_inbound) + total_room n

    pub total_room_le : (n : ℕ) → total_room n ≤ n * (2 * length all + 5)
    unfolding total_room
    total_room_le zero = omega arith
    total_room_le (suc n) = omega (
      arith,
      total_room_le n,
      inbound_room_le (unwrap_or (lookup n demand) no_inbound),
      suc-mul n (2 * length all + 5),
    )

  total_room-insert_ge :
      (demand : List (ℕ × Inbound)) (t : ℕ) (i : Inbound) (n : ℕ)
      → n ≤ t
      → total_room (insert t i demand) n ≡ total_room demand n
  unfolding total_room
  total_room-insert_ge demand t i zero h = refl
  total_room-insert_ge demand t i (suc n) h =
      ground (arith, total_room-insert_ge demand t i n, lookup-insert n t i demand, nat_beq_iff t n)

  pub total_room-insert :
      (demand : List (ℕ × Inbound)) (t : ℕ) (i : Inbound) (n : ℕ)
      → t < n
      → total_room (insert t i demand) n + inbound_room (unwrap_or (lookup t demand) no_inbound)
        ≡ total_room demand n + inbound_room i
  unfolding total_room
  total_room-insert demand t i zero h = absurd (omega arith)
  total_room-insert demand t i (suc n) h = ground (
    arith,
    total_room-insert demand t i n,
    total_room-insert_ge demand t i n,
    lookup-insert n t i demand,
    nat_beq_iff t n,
    same_demand,
  )
    where
      same_demand :
          t ≡ n → unwrap_or (lookup t demand) no_inbound ≡ unwrap_or (lookup n demand) no_inbound
      same_demand p = ap (λ x. unwrap_or (lookup x demand) no_inbound) p
