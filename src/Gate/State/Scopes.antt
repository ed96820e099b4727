-- ===== src/Gate/State/Scopes.antt =====
-- What src/mcp/gate_state.rs keeps of the scopes other than the one of the turn.
use sensez.Prelude.{
  ℕ, ◌-◌, ◌≡◌, ◌∙◌, ap, String, true, Option, none, some, [], retain, if◌then◌else◌, lookup,
  unwrap_or, string_eq, ◌==◌, ltb, lookup-insert, lookup-retain, IsKeyed,
}
use sensez.Gate.State.{ScopeState, GateState, fresh_scope, is_fresh, update, scope_ttl_secs}

-- What the turn at `now` finds of a scope: nothing once it is seven days old.
unfoldable pub alive : ℕ → String → GateState → Option ScopeState
alive now j scopes = elim (lookup j scopes) [
  | none ↦ none
  | some scope ↦ if ltb (now - scope.updated) scope_ttl_secs then some scope else none
]

-- Where the folder is there and the stored scopes have distinct names, `apply` works on the scope
-- of the turn as far as it is alive, stamped with the time, and on a fresh one otherwise. What is
-- written has its result under that name, and of every other scope what is alive.
pub update_scopes :
    {R : Type 0} (stored : GateState) (scope : Option String) (now : ℕ)
    (apply : ScopeState → ScopeState × R) (j : String)
    → IsKeyed stored
    → let name = unwrap_or scope "" in
      let entry = record (unwrap_or (alive now name stored) fresh_scope) { updated = now } in
      let (written, result) = update true (some stored) scope now apply in
      (result ≡ (apply entry).1)
      × (lookup j (unwrap_or written [])
          ≡ (if name == j then some (apply entry).0 else alive now j stored))
unfolding update alive is_fresh
update_scopes stored scope now apply j keyed =
    let name = unwrap_or scope "" in
    let stamp : Option ScopeState → ScopeState =
      λ o. record (unwrap_or o fresh_scope) { updated = now } in
    let scopes = retain (is_fresh now) stored in
    let here : lookup name scopes ≡ alive now name stored =
      lookup-retain (is_fresh now) name stored keyed in
    let there : lookup j scopes ≡ alive now j stored =
      lookup-retain (is_fresh now) j stored keyed in
    (
      ap (λ o. (apply (stamp o)).1) here,
      lookup-insert j name (apply (stamp (lookup name scopes))).0 scopes
          ∙ (λ i. if name == j then some (apply (stamp (here i))).0 else there i),
    )
