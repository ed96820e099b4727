-- ===== src/Gate/State/Memory.antt =====
-- What src/mcp/gate_state.rs remembers of a finding: blocked, then fixed, then back.
use sensez.Prelude.{
  ℕ, ◌≡◌, ◌∙◌, ap, String, not, ◌&&◌, ◌||◌, List, [], ◌∷◌, map, retain, lookup, insert, contains,
  add, is_some, string_eq, ◌==◌, arith, contains-retain, contains-add, contains-keys, lookup-insert,
}
use sensez.Report.{AnalysisReport}
use sensez.Brainz.Fingerprint.{Print, key}
use sensez.Brainz.GateMemory.{
  finding_identities, finding_keys, collect, flatten, retain_unseen-keys,
}
use sensez.Brainz.Identity.{fingerprints}
use sensez.Gate.State.{ScopeState, discard, move_fixed, extend, current_keys, recall}

contains-discard :
    (j k : String) (xs : List String) → contains j (discard k xs) ≡ (contains j xs && not (j == k))
unfolding discard
contains-discard j k xs = contains-retain j (λ x. not (x == k)) xs

contains-move_fixed :
    (k : String) (fixed blocked resolved : List String)
    → let (blocked', resolved') = move_fixed fixed blocked resolved in
      (contains k blocked' ≡ (contains k blocked && not (contains k fixed)))
      × (contains k resolved' ≡ (contains k resolved || contains k fixed))
unfolding move_fixed contains
contains-move_fixed k [] blocked resolved = (ground arith, ground arith)
contains-move_fixed k (j ∷ fixed) blocked resolved = ground (
  arith,
  contains-move_fixed k fixed (discard j blocked) (add j resolved),
  contains-discard k j blocked,
  contains-add k j resolved,
  string_eq.decides j k,
  string_eq.decides k j,
)

pub contains-extend :
    (k : String) (ks set : List String)
    → contains k (extend ks set) ≡ (contains k set || contains k ks)
unfolding extend contains
contains-extend k [] set = ground arith
contains-extend k (j ∷ ks) set =
    ground (arith, contains-extend k ks (add j set), contains-add k j set)

lookup-collect :
    (k : String) (ps : List Print) (m : List (String × String))
    → is_some (lookup k (collect ps m)) ≡ (is_some (lookup k m) || contains k (map key ps))
unfolding collect contains
lookup-collect k [] m = ground arith
lookup-collect k (p ∷ ps) m =
    ground
      (arith, lookup-collect k ps (insert (key p) p.label m), lookup-insert k (key p) p.label m)

module _ (digest : List String → ℕ) where
  pub current_keys-contains :
      (k : String) (r : AnalysisReport)
      → contains k (current_keys digest r) ≡ contains k (finding_keys digest r)
  unfolding current_keys finding_keys finding_identities lookup
  current_keys-contains k r =
      contains-keys k (finding_identities digest r)
      ∙ lookup-collect k (flatten (fingerprints digest r)) []

  -- What becomes of a finding, by its key: it stays blocked while it is reported; it is resolved
  -- once it was blocked and is gone, until it is reported; it is reintroduced if it was resolved
  -- and is reported; and the report that is left has it only if it had it and it is not blocked.
  pub recall_decides :
      (s : ScopeState) (r : AnalysisReport) (k : String)
      → let (s', pruned, reintroduced) = recall digest s r in
        let now = contains k (finding_keys digest r) in
        (contains k s'.blocked ≡ (contains k s.blocked && now))
        × (contains k s'.resolved ≡ ((contains k s.resolved || contains k s.blocked) && not now))
        × (contains k reintroduced ≡ (contains k s.resolved && now))
        × (contains k (finding_keys digest pruned) ≡ (now && not (contains k s.blocked)))
  unfolding recall
  recall_decides s r k =
      let current = current_keys digest r in
      let fixed = retain (λ j. not (contains j current)) s.blocked in
      let (blocked, moved) = move_fixed fixed s.blocked s.resolved in
      let here = current_keys-contains k r in
      let a = contains-retain k (λ j. not (contains j current)) s.blocked in
      let (b, c) = contains-move_fixed k fixed s.blocked s.resolved in
      let d = contains-retain k (λ j. contains j current) moved in
      let e =
        contains-retain k (λ j. not (contains j (retain (λ i. contains i current) moved))) moved in
      let f =
        ap (contains k) (retain_unseen-keys digest r blocked).0
        ∙ contains-retain k (λ j. not (contains j blocked)) (finding_keys digest r) in
      (
        ground (arith, here, a, b),
        ground (arith, here, a, c, d, e),
        ground (arith, here, a, c, d),
        ground (arith, here, a, b, f),
      )
