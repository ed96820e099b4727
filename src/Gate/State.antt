-- ===== src/Gate/State.antt =====
-- src/mcp/gate_state.rs and `triage` of src/mcp/gate.rs: the gate's memory per
-- session, and what it recalls in a turn. Reading and writing the file are the arguments `ready`,
-- whether the folder is there, and `stored`.
pub mod Memory
pub mod Scopes
pub mod Turn
use sensez.Prelude.{
  ℕ, ◌*◌, ◌-◌, String, Bool, true, false, not, ◌&&◌, Option, none, some, List, [], ◌∷◌, map, retain,
  ltb, if◌then◌else◌, lookup, insert, contains, add, unwrap_or, string_eq, ◌==◌,
}
use sensez.Report.{AnalysisReport}
use sensez.Brainz.GateMemory.{finding_identities, retain_unseen_gate_findings}
use sensez.Gate.Repeats.{RepeatState, suppress_repeated}

-- Seven days.
abbrev pub scope_ttl_secs : ℕ
scope_ttl_secs = 604800

pub record ScopeState : Type 0 where
  pub updated : ℕ
  pub blocked : List String
  pub resolved : List String
  pub repeats : List (String × RepeatState)

abbrev pub fresh_scope : ScopeState
fresh_scope = record { updated = 0; blocked = []; resolved = []; repeats = [] }

abbrev pub fresh_repeats : RepeatState
fresh_repeats = record { counts = []; deferred = []; expired_once = [] }

abbrev pub GateState : Type 0
GateState = List (String × ScopeState)

unfoldable pub is_fresh : ℕ → String × ScopeState → Bool
is_fresh now (_, scope) = ltb (now - scope.updated) scope_ttl_secs

-- The state to be written, when there is a folder to write it to, and the answer of `apply`.
unfoldable pub update :
    {R : Type 0} (ready : Bool) (stored : Option GateState) (scope : Option String)
    → ℕ
    → (ScopeState → ScopeState × R)
    → Option GateState × R
update false stored scope now apply = (none, (apply fresh_scope).1)
update true stored scope now apply =
    let name = unwrap_or scope "" in
    let scopes = retain (is_fresh now) (unwrap_or stored []) in
    let scope_state = record (unwrap_or (lookup name scopes) fresh_scope) { updated = now } in
    let (applied, result) = apply scope_state in (some (insert name applied scopes), result)

-- `set.remove(x)`
unfoldable pub discard : String → List String → List String
discard k xs = retain (λ x. not (x == k)) xs

-- The loop over `fixed`: `blocked` and `resolved`.
unfoldable pub move_fixed : List String → List String → List String → List String × List String
move_fixed [] blocked resolved = (blocked, resolved)
move_fixed (k ∷ fixed) blocked resolved = move_fixed fixed (discard k blocked) (add k resolved)

-- `set.extend(xs)`
unfoldable pub extend : List String → List String → List String
extend [] set = set
extend (k ∷ ks) set = extend ks (add k set)

module _ (digest : List String → ℕ) where
  -- `into_keys()` of the identities
  unfoldable pub current_keys : AnalysisReport → List String
  current_keys report = map (λ (k, _). k) (finding_identities digest report)

  -- The state, the pruned report, and the identities that are back.
  unfoldable pub recall : ScopeState → AnalysisReport → ScopeState × AnalysisReport × List String
  recall s report =
      let current = current_keys report in
      let fixed = retain (λ k. not (contains k current)) s.blocked in
      let (blocked, moved) = move_fixed fixed s.blocked s.resolved in
      let reintroduced = retain (λ k. contains k current) moved in
      let resolved = retain (λ k. not (contains k reintroduced)) moved in
      (
        record s { blocked = blocked; resolved = resolved },
        (retain_unseen_gate_findings digest report blocked).0,
        reintroduced,
      )

  unfoldable pub remember : ScopeState → AnalysisReport → ScopeState
  remember s report = record s { blocked = extend (current_keys report) s.blocked }

  -- The state, the report that is left, what is back, and how many were deferred.
  unfoldable pub triage :
      ScopeState → AnalysisReport → String → ℕ → ℕ → ScopeState × AnalysisReport × List String × ℕ
  unfolding recall remember
  triage s report branch repeat_limit now =
      let (recalled, unseen, reintroduced) = recall s report in
      let repeats = unwrap_or (lookup branch recalled.repeats) fresh_repeats in
      let (shown, repeats', deferred) = suppress_repeated repeats unseen repeat_limit now in
      let s' = record recalled { repeats = insert branch repeats' recalled.repeats } in
      (remember s' shown, shown, reintroduced, deferred)
