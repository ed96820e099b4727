-- ===== src/Smells/Cohesion.antt =====
-- src/noze/smells/cohesion.rs: the cohesion of a class, and `make` of src/noze/smells/mod.rs. The maps
-- and sets of a class are lists, in any order. `none` stands for a failure of the union-find.
pub mod Linking
pub mod Calls
pub mod Methods
pub mod Counting
mod Samples
use sensez.Prelude.{
  ℕ, zero, suc, ◌^◌, ◌%◌, String, Bool, true, false, not, ◌&&◌, ◌||◌, any, Option, none, some, List,
  [], ◌∷◌, ◌++◌, ◌>>=◌, map, retain, contains, lookup, insert, unwrap_or, length, ltb, leb, decimal,
  string_eq, ◌==◌, nat_beq, join, if◌then◌else◌, Eq,
}
use sensez.DeadCode.Classes.Segment.{last_segment}
use sensez.Report.{SmellFinding, Severity, warning, from_severity}
use sensez.Report.Kinds.{SmellKind, divergent_change}
use sensez.Smells.UnionFind.{find_root, union}
use sensez.Smells.Clusters.{range}

-- The fields of a class that its cohesion depends on.
pub record ClassUnit : Type 0 where
  pub name : String
  pub start_line : ℕ
  pub bases : List String
  pub implements : List String
  pub method_attr_use : List (String × List String)
  pub method_calls : List (String × List String)

abbrev pub min_stateful_methods : ℕ
min_stateful_methods = 3

unfoldable pub make :
    SmellKind
    → (message file : String) → (line : ℕ) → (symbol : String) → Severity
    → (metric threshold : ℕ) → SmellFinding
make kind message file line symbol severity metric threshold = record {
  action = from_severity severity;
  kind = kind;
  message = message;
  file = file;
  line = line;
  end_line = 0;
  lines = [];
  symbol = symbol;
  severity = severity;
  metric = metric;
  threshold = threshold;
  reason = "";
}

-- `iter().position(|x| x == item)`
unfoldable pub position {ℓ} : {A : Type ℓ} → ⦃e : Eq A⦄ → A → List A → Option ℕ
position item [] = none
position item (x ∷ xs) =
    let later : Option ℕ = elim (position item xs) [ none ↦ none | some i ↦ some (suc i) ] in
    if x == item then some 0 else later

-- The loop over the attributes of a method: the slice, and the first method to use each.
unfoldable pub link_attrs :
    ℕ → List String → List ℕ → List (String × ℕ) → Option (List ℕ × List (String × ℕ))
link_attrs i [] parent owner = some (parent, owner)
link_attrs i (attr ∷ attrs) parent owner = elim (lookup attr owner) [
  | none ↦ link_attrs i attrs parent (insert attr i owner)
  | some j ↦ union parent i j >>= (λ parent'. link_attrs i attrs parent' owner)
]

-- The loop over the methods that a method calls.
unfoldable pub link_calls : List String → ℕ → List String → List ℕ → Option (List ℕ)
link_calls stateful i [] parent = some parent
link_calls stateful i (called ∷ calls) parent = elim (position called stateful) [
  | none ↦ link_calls stateful i calls parent
  | some j ↦ union parent i j >>= link_calls stateful i calls
]

-- The positions that `find` takes to themselves.
unfoldable pub count_roots : List ℕ → List ℕ → Option ℕ
count_roots [] parent = some 0
count_roots (i ∷ nodes) parent = do
  (parent', root) ← find_root parent i
  rest ← count_roots nodes parent'
  some (if nat_beq root i then suc rest else rest)

module _ (class : ClassUnit) where
  abbrev pub attrs_of : String → List String
  attrs_of m = unwrap_or (lookup m class.method_attr_use) []

  abbrev pub calls_of : String → List String
  calls_of m = unwrap_or (lookup m class.method_calls) []

  -- The loop over the methods.
  unfoldable pub link_methods :
      List String → ℕ → List String → List ℕ → List (String × ℕ) → Option (List ℕ)
  link_methods stateful i [] parent owner = some parent
  link_methods stateful i (m ∷ methods) parent owner = do
    (parent', owner') ← link_attrs i (attrs_of m) parent owner
    parent'' ← link_calls stateful i (calls_of m) parent'
    link_methods stateful (suc i) methods parent'' owner'

  unfoldable pub lcom_components : List String → Option ℕ
  lcom_components stateful =
      link_methods stateful 0 stateful (range 0 (length stateful)) []
      >>= count_roots (range 0 (length stateful))

unfoldable pub is_data_base : String → Bool
is_data_base base =
    contains (last_segment base)
      ("BaseModel" ∷ "BaseSettings" ∷ "Enum" ∷ "IntEnum" ∷ "StrEnum" ∷ "Protocol" ∷ [])

-- The methods that use the state of an instance.
unfoldable pub stateful_methods : ClassUnit → List String
stateful_methods class =
    map (λ (name, attrs). name)
      (retain (λ (name, attrs). ltb 0 (length attrs)) class.method_attr_use)

abbrev pub cluster_message : ℕ → String
cluster_message components = join "" (
    "class splits into "
    ∷ decimal components
    ∷ " cohesion clusters (low LCOM) — prone to divergent change"
    ∷ [])

unfoldable pub divergent_change_of : String → ClassUnit → Option (List SmellFinding)
divergent_change_of path class =
    let stateful = stateful_methods class in
    let found : Option (List SmellFinding) = lcom_components class stateful >>= (λ components.
      some (
        if leb 2 components
        then make divergent_change (cluster_message components) path class.start_line class.name
            warning (components % 2 ^ 32) 1
          ∷ []
        else [])) in
    if any is_data_base class.bases || ltb 0 (length class.implements)
    then some []
    else if ltb (length stateful) min_stateful_methods
    then some []
    else found

unfoldable pub detect : String → List ClassUnit → Option (List SmellFinding)
detect path [] = some []
detect path (class ∷ classes) = do
  one ← divergent_change_of path class
  rest ← detect path classes
  some (one ++ rest)
