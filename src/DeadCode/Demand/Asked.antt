-- ===== src/DeadCode/Demand/Asked.antt =====
-- What the importers of a module ask for, told without the loops of src/noze/dead_code/demand.rs.
use mathlib.Core.List.{Memᴰ}
use sensez.Prelude.{
  ℕ, ◌≡◌, ◌≢◌, refl, String, Bool, true, false, not, ◌||◌, Option, none, some, List, [], ◌∷◌, arith,
  any, contains-add, unwrap_or, add, string_eq, nat_eq, if◌then◌else◌, ◌==◌, ap,
}
use sensez.Graph.{CodebaseGraph, Edge, ImportContext, ImportPhase, type_only, phase_eq}
use sensez.DeadCode.Demand.{
  Demand, Inbound, Importers, star, asks, absorb_demand, merged, forward_symbols, ask_symbols,
  is_test, forwards_everything, is_reexport,
}
use sensez.DeadCode.Demand.Growth.{contains-extend_set}

pub data Side : Type 0 where
  production tests : Side

abbrev pub side_eq : Side → Side → Bool
side_eq production production = true
side_eq tests tests = true
side_eq _ _ = false

abbrev pub side_of : Importers → ℕ → Side
side_of importers source = if is_test importers source then tests else production

abbrev pub on : Side → Inbound → Demand
on production i = i.prod
on tests i = i.test

-- A direct import asks for its names, and by the star for every name, unless it is for types only.
abbrev pub asks_directly : ImportContext → String → Bool
asks_directly import n =
    any (λ s. if s == star then not (import.phase == type_only) else s == n) import.imported_symbols

-- The symbols of a re-export with the names under which the barrel exports them.
abbrev pub exports : (symbols bindings : List String) → List (String × Option String)
exports [] bindings = []
exports (s ∷ symbols) [] = (s, none) ∷ exports symbols []
exports (s ∷ symbols) (b ∷ bindings) = (s, some b) ∷ exports symbols bindings

-- The name that the barrel must be asked for so that its target is asked for `n`.
abbrev pub needed : String × Option String → String → Option String
needed (symbol, exported) n =
    if symbol == star
    then some (unwrap_or exported n)
    else if symbol == n
    then some (unwrap_or exported symbol)
    else none

-- A module is asked for a name by a direct import, by a re-export of a barrel that is asked for what
-- it needs, or, in production, by a re-export of an entry module or orphan.
pub data Asked (g : CodebaseGraph) (importers : Importers) : Side → ℕ → String → Type 0 where
  direct :
      (e : Edge) {n : String}
      → Memᴰ e g.edges
      → is_reexport e ≡ false
      → asks_directly e.weight n ≡ true
      → Asked g importers (side_of importers e.source) e.target n
  passed :
      {side : Side} (e : Edge) {x : String × Option String} {m n : String}
      → Memᴰ e g.edges
      → is_reexport e ≡ true
      → e.source ≢ e.target
      → Memᴰ x (exports e.weight.imported_symbols e.weight.bindings)
      → needed x n ≡ some m
      → Asked g importers side e.source m
      → Asked g importers side e.target n
  opened :
      (e : Edge) {x : String × Option String} {m n : String}
      → Memᴰ e g.edges
      → is_reexport e ≡ true
      → e.source ≢ e.target
      → Memᴰ x (exports e.weight.imported_symbols e.weight.bindings)
      → needed x n ≡ some m
      → forwards_everything importers e.source ≡ true
      → Asked g importers production e.target n

abbrev pub passes : Demand → String → String × Option String → Bool
passes barrel n x = elim (needed x n) [ none ↦ false | some m ↦ asks barrel m ]

pub asks-absorb_demand :
    (d other : Demand) (n : String) → asks (absorb_demand d other).0 n ≡ (asks d n || asks other n)
unfolding asks absorb_demand merged
asks-absorb_demand d other n = ground (arith, contains-extend_set n other.names d.names)

asks-add :
    (d : Demand) (s n : String) → asks (record d { names = add s d.names }) n ≡ (s == n || asks d n)
unfolding asks
asks-add d s n = ground (arith, contains-add n s d.names)

asks-all :
    (d : Demand) (b : Bool) (n : String) → asks (record d { all = d.all || b }) n ≡ (asks d n || b)
unfolding asks
asks-all d b n = ground arith

asks_everything : (d : Demand) (n : String) → asks (record d { all = true }) n ≡ true
unfolding asks
asks_everything d n = refl

same_asks : (barrel : Demand) (s n : String) → s ≡ n → asks barrel s ≡ asks barrel n
same_asks barrel s n p = ap (asks barrel) p

pub asks-forward_symbols :
    (barrel : Demand) (symbols bindings : List String) (asked : Demand) (n : String)
    → asks (forward_symbols barrel symbols bindings asked) n
      ≡ (asks asked n || any (passes barrel n) (exports symbols bindings))
unfolding forward_symbols any
asks-forward_symbols barrel [] bindings asked n = ground arith
asks-forward_symbols barrel (s ∷ symbols) [] asked n =
    let named = record asked { names = add s asked.names } in
    ground (
      arith,
      asks-forward_symbols barrel symbols [] (absorb_demand asked barrel).0 n,
      asks-forward_symbols barrel symbols [] named n,
      asks-forward_symbols barrel symbols [] asked n,
      asks-absorb_demand asked barrel n,
      asks-add asked s n,
      string_eq.decides s n,
      same_asks barrel s n,
    )
asks-forward_symbols barrel (s ∷ symbols) (b ∷ bindings) asked n =
    let named = record asked { names = add s asked.names } in
    let namespace = record asked { all = asked.all || asks barrel b } in
    ground (
      arith,
      asks-forward_symbols barrel symbols bindings namespace n,
      asks-forward_symbols barrel symbols bindings named n,
      asks-forward_symbols barrel symbols bindings asked n,
      asks-all asked (asks barrel b) n,
      asks-add asked s n,
    )

pub asks-ask_symbols :
    (phase : ImportPhase) (symbols : List String) (type_star : Bool) (asked : Demand) (n : String)
    → asks (ask_symbols phase symbols type_star asked).1 n
      ≡ (asks asked n || any (λ s. if s == star then not (phase == type_only) else s == n) symbols)
unfolding ask_symbols any
asks-ask_symbols phase [] type_star asked n = ground arith
asks-ask_symbols phase (s ∷ symbols) type_star asked n = ground (
  arith,
  asks-ask_symbols phase symbols true asked n,
  asks-ask_symbols phase symbols type_star (record asked { all = true }) n,
  asks-ask_symbols phase symbols type_star (record asked { names = add s asked.names }) n,
  asks-add asked s n,
  asks_everything asked n,
)
