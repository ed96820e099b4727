-- ===== src/DeadCode/Demand/Cover.antt =====
-- When a demand of src/noze/dead_code/demand.rs asks for all that another asks for.
use sensez.Prelude.{◌≡◌, String, true, false, not, ◌&&◌, ◌||◌, arith, contains, string_eq}
use sensez.DeadCode.Demand.{Demand, Inbound, merged, absorb_demand, absorb_inbound, asks}
use sensez.DeadCode.Demand.Growth.{contains-extend_set, absorb_same}

pub record Covers (d other : Demand) : Type 0 where
  pub named : (n : String) → contains n other.names ≡ true → contains n d.names ≡ true
  pub everything : (other.all && not d.all) ≡ false

pub absorb_demand-Covers : (d other : Demand) → Covers (absorb_demand d other).0 other
unfolding absorb_demand merged
absorb_demand-Covers d other = record {
  named = λ n c. ground (arith, contains-extend_set n other.names d.names);
  everything = ground arith;
}

pub Covers-absorb_demand : (d other x : Demand) → Covers d x → Covers (absorb_demand d other).0 x
unfolding absorb_demand merged
Covers-absorb_demand d other x h = record {
  named = λ n c. ground (arith, contains-extend_set n other.names d.names, h.named n c);
  everything = ground (arith, h.everything);
}

pub Covers-asks : (d x : Demand) → Covers d x → (n : String) → (asks x n || asks d n) ≡ asks d n
unfolding asks
Covers-asks d x h n = ground (arith, h.named n, h.everything)

pub record CoversInbound (i x : Inbound) : Type 0 where
  pub prod : Covers i.prod x.prod
  pub test : Covers i.test x.test
  pub type_star : (x.type_star && not i.type_star) ≡ false
  pub opaque : (x.opaque && not i.opaque) ≡ false
  pub from_config : (x.from_config && not i.from_config) ≡ false

pub absorb_inbound-Covers : (i other : Inbound) → CoversInbound (absorb_inbound i other).0 other
unfolding absorb_inbound
absorb_inbound-Covers i other = record {
  prod = absorb_demand-Covers i.prod other.prod;
  test = absorb_demand-Covers i.test other.test;
  type_star = ground arith;
  opaque = ground arith;
  from_config = ground arith;
}

pub Covers-absorb_inbound :
    (i other x : Inbound) → CoversInbound i x → CoversInbound (absorb_inbound i other).0 x
unfolding absorb_inbound
Covers-absorb_inbound i other x h = record {
  prod = Covers-absorb_demand i.prod other.prod x.prod h.prod;
  test = Covers-absorb_demand i.test other.test x.test h.test;
  type_star = ground (arith, h.type_star);
  opaque = ground (arith, h.opaque);
  from_config = ground (arith, h.from_config);
}

-- Nothing new is reported only if nothing changed.
pub absorb_inbound_same :
    (i other : Inbound) → (absorb_inbound i other).1 ≡ false → (absorb_inbound i other).0 ≡ i
unfolding absorb_inbound
absorb_inbound_same i other h =
    let prod = absorb_same i.prod other.prod (ground arith) in
    let test = absorb_same i.test other.test (ground arith) in
    let type_star : (i.type_star || other.type_star) ≡ i.type_star = ground arith in
    let opaque : (i.opaque || other.opaque) ≡ i.opaque = ground arith in
    let from_config : (i.from_config || other.from_config) ≡ i.from_config = ground arith in
    cc (prod, test, type_star, opaque, from_config)
