-- ===== src/Gate/State/Turn.antt =====
-- What one turn of src/mcp/gate.rs shows, and what it remembers.
use sensez.Prelude.{
  ℕ, ◌≡◌, ◌∙◌, refl, ap, String, true, false, ◌&&◌, ◌||◌, List, [], ◌∷◌, map, suc, if◌then◌else◌,
  lookup, contains, unwrap_or, string_eq, arith, Bool-cases, inl, inr,
}
use sensez.Report.{AnalysisReport}
use sensez.Brainz.Fingerprint.{Print, key}
use sensez.Brainz.Identity.{cycle_key, dead_code_key, boundary_key, clone_key, smell_key}
use sensez.Brainz.GateMemory.{finding_keys, contains-finding_keys}
use sensez.Gate.Repeats
use sensez.Gate.Repeats.{RepeatState, visit, retain_allowed, suppress_repeated}
use sensez.Gate.State.{ScopeState, fresh_repeats, recall, remember, triage, current_keys}
use sensez.Gate.State.Memory.{recall_decides, contains-extend, current_keys-contains}

-- What is kept was there.
contains-kept :
    {T : Type 0} (name : T → String) (f : T → Print) (limit now : ℕ) (xs : List T) (s : RepeatState)
    (n : ℕ) (k : String)
    → contains k (map key (map f (retain_allowed name limit now xs s n).0)) ≡ true
    → contains k (map key (map f xs)) ≡ true
unfolding retain_allowed contains
contains-kept name f limit now [] s n k h = h
contains-kept name f limit now (x ∷ xs) s n k h =
    let (s', keep) = visit limit now (name x) s in
    let rest = contains-kept name f limit now xs s' (if keep then n else suc n) k in
    elim (Bool-cases keep) [
      | inl e ↦ ground (arith, e, rest, h)
      | inr e ↦ ground (arith, e, rest, h)
    ]

module _ (digest : List String → ℕ) where
  contains-suppressed :
      (s : RepeatState) (r : AnalysisReport) (limit now : ℕ) (k : String)
      → contains k (finding_keys digest (suppress_repeated s r limit now).0) ≡ true
      → contains k (finding_keys digest r) ≡ true
  unfolding suppress_repeated
  contains-suppressed s r limit now k h =
      let (shown, _, _) = suppress_repeated s r limit now in
      let (_, s1, n1) = retain_allowed Repeats.cycle_key limit now r.cycles s 0 in
      let (_, s2, n2) = retain_allowed Repeats.dead_code_key limit now r.dead_code s1 n1 in
      let (_, s3, n3) = retain_allowed Repeats.boundary_key limit now r.boundaries s2 n2 in
      let (_, s4, n4) = retain_allowed Repeats.clone_key limit now r.duplication s3 n3 in
      ground (
        arith,
        contains-finding_keys digest k r,
        contains-finding_keys digest k shown,
        h,
        contains-kept Repeats.cycle_key (cycle_key digest) limit now r.cycles s 0 k,
        contains-kept Repeats.dead_code_key (dead_code_key digest) limit now r.dead_code s1 n1 k,
        contains-kept Repeats.boundary_key (boundary_key digest) limit now r.boundaries s2 n2 k,
        contains-kept Repeats.clone_key (clone_key digest) limit now r.duplication s3 n3 k,
        contains-kept Repeats.smell_key (smell_key digest) limit now r.smells s4 n4 k,
      )

  triage_blocked :
      (s : ScopeState) (r : AnalysisReport) (branch : String) (limit now : ℕ) (k : String)
      → let (s', shown, _, _) = triage digest s r branch limit now in
        (contains k s'.blocked
          ≡ (contains k (recall digest s r).0.blocked || contains k (finding_keys digest shown)))
        × (s'.resolved ≡ (recall digest s r).0.resolved)
  unfolding triage remember
  triage_blocked s r branch limit now k =
      let (_, shown, _, _) = triage digest s r branch limit now in
      (
        contains-extend k (current_keys digest shown) (recall digest s r).0.blocked
            ∙ ap (λ z. contains k (recall digest s r).0.blocked || z)
                (current_keys-contains digest k shown),
        refl,
      )

  -- A finding that a turn shows was in the report and was not blocked, and is blocked afterwards.
  pub triage_shows :
      (s : ScopeState) (r : AnalysisReport) (branch : String) (limit now : ℕ) (k : String)
      → contains k (finding_keys digest (triage digest s r branch limit now).1) ≡ true
      → (contains k (finding_keys digest r) ≡ true)
        × (contains k s.blocked ≡ false)
        × (contains k (triage digest s r branch limit now).0.blocked ≡ true)
  unfolding triage
  triage_shows s r branch limit now k h =
      let (recalled, unseen, _) = recall digest s r in
      let repeats = unwrap_or (lookup branch recalled.repeats) fresh_repeats in
      let was = contains-suppressed repeats unseen limit now k h in
      ground (arith, recall_decides digest s r k, triage_blocked s r branch limit now k, was, h)

  -- After a turn no finding is both blocked and resolved, whatever the state was before; and a
  -- finding that one turn shows, the next turn does not show, whatever report it is given.
  pub triage_twice :
      (s : ScopeState) (r r' : AnalysisReport) (branch branch' : String) (limit now limit' now' : ℕ)
      (k : String)
      → let (s', shown, _, _) = triage digest s r branch limit now in
        let (_, shown', _, _) = triage digest s' r' branch' limit' now' in
        ((contains k s'.blocked && contains k s'.resolved) ≡ false)
        × ((contains k (finding_keys digest shown) && contains k (finding_keys digest shown'))
            ≡ false)
  triage_twice s r r' branch branch' limit now limit' now' k =
      let (s', shown, _, _) = triage digest s r branch limit now in
      ground (
        arith,
        triage_shows s r branch limit now k,
        triage_shows s' r' branch' limit' now' k,
        triage_blocked s r branch limit now k,
        recall_decides digest s r k,
      )
