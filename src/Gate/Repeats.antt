-- ===== src/Gate/Repeats.antt =====
-- src/mcp/repeats.rs: a finding that comes back on the same lines is deferred. Times are in
-- seconds and saturate at 64 bits.
pub mod Branches
pub mod Status
pub mod Lifetime
pub mod Counting
use Prim.Native.String.{◌++◌}
use sensez.Prelude.{
  ℕ, zero, suc, ◌+◌, ◌*◌, ◌-◌, ◌^◌, min, max, String, Bool, true, false, Option, none, some, List,
  [], ◌∷◌, map, leb, if◌then◌else◌, lookup, insert, remove, contains, add, unwrap_or, string_eq,
  sort_text, join, decimal,
}
use sensez.Report.{
  AnalysisReport, CycleFinding, CycleEdge, DeadCodeFinding, BoundaryViolation, CloneClass,
  CloneOccurrence, SmellFinding,
}
use sensez.Report.Kinds

abbrev pub defer_expiry_secs : ℕ
defer_expiry_secs = 259200

-- `u64::saturating_add`
unfoldable pub saturating_add : ℕ → ℕ → ℕ
saturating_add a b = min (a + b) (2 ^ 64 - 1)

pub record Deferred : Type 0 where
  pub expires_at : Option ℕ

pub record RepeatState : Type 0 where
  pub counts : List (String × ℕ)
  pub deferred : List (String × Deferred)
  pub expired_once : List String

-- What follows the expiry test in the closure of `retain_allowed`.
unfoldable pub repeat_or_defer : ℕ → ℕ → String → RepeatState → RepeatState × Bool
repeat_or_defer limit now key s = elim (lookup key s.deferred) [
  | some _ ↦ (s, false)
  | none ↦
      let count = unwrap_or (lookup key s.counts) 0 in
      let expires_at =
        if contains key s.expired_once then none else some (saturating_add now defer_expiry_secs) in
      if leb limit count
      then (
        record s { deferred = insert key (record { expires_at = expires_at }) s.deferred },
        false,
      )
      else (record s { counts = insert key (count + 1) s.counts }, true)
]

-- The closure of `retain_allowed`: the state after one finding, and whether it is kept.
unfoldable pub visit : ℕ → ℕ → String → RepeatState → RepeatState × Bool
visit limit now key s = elim (lookup key s.deferred) [
  | none ↦ repeat_or_defer limit now key s
  | some d ↦ elim d.expires_at [
    | none ↦ repeat_or_defer limit now key s
    | some expiry ↦
        if leb expiry now
        then (
          record {
            counts = insert key 1 s.counts;
            deferred = remove key s.deferred;
            expired_once = add key s.expired_once;
          },
          true,
        )
        else repeat_or_defer limit now key s
  ]
]

-- The findings that are kept, the state, and how many were deferred on top of `deferred`: the source adds
-- one in each of the two branches that return `false`.
unfoldable pub retain_allowed :
    {T : Type 0} (key : T → String) → ℕ → ℕ → List T → RepeatState → ℕ → List T × RepeatState × ℕ
retain_allowed key limit now [] s deferred = ([], s, deferred)
retain_allowed key limit now (x ∷ xs) s deferred =
    let (s', keep) = visit limit now (key x) s in
    let (kept, s'', total) =
      retain_allowed key limit now xs s' (if keep then deferred else suc deferred) in
    (if keep then x ∷ kept else kept, s'', total)

unfoldable pub cycle_key : CycleFinding → String
cycle_key f =
    let edges =
      map
        (λ (e : CycleEdge).
          e.file ++ (":" ++ (decimal e.line ++ (":" ++ (e.from_module ++ (">" ++ e.to_module))))))
        f.edges in
    "cycles|" ++ join "|" (sort_text edges)

unfoldable pub dead_code_key : DeadCodeFinding → String
dead_code_key f =
    "dead_code/"
    ++ (f.kind
        ++ ("|"
            ++ (f.file
                ++ (":" ++ (decimal f.line ++ ("|" ++ (f.module_name ++ ("::" ++ f.symbol))))))))

unfoldable pub boundary_key : BoundaryViolation → String
boundary_key f =
    "boundaries|"
    ++ (f.file
        ++ (":"
            ++ (decimal f.line
                ++ ("|" ++ (f.from_module ++ (">" ++ (f.to_module ++ ("|" ++ f.rule))))))))

unfoldable pub clone_key : CloneClass → String
clone_key f =
    let occurrences =
      map
        (λ (o : CloneOccurrence).
          o.file ++ (":" ++ (decimal o.start_row ++ ("-" ++ decimal o.end_row))))
        f.occurrences in
    "duplication|tokens:" ++ (decimal f.token_length ++ ("|" ++ join "|" (sort_text occurrences)))

unfoldable pub span_text : SmellFinding → String
span_text f = elim f.lines [
  | [] ↦ decimal f.line ++ ("-" ++ decimal (max f.end_line f.line))
  | _ ∷ _ ↦ join "," (map decimal f.lines)
]

unfoldable pub smell_key : SmellFinding → String
unfolding span_text
smell_key f =
    "smells/"
    ++ (Kinds.as_str f.kind ++ ("|" ++ (f.file ++ (":" ++ (span_text f ++ ("|" ++ f.symbol))))))

-- The report, the state, and `RepeatOutcome::deferred`; the glossary is left out.
unfoldable pub suppress_repeated :
    RepeatState → AnalysisReport → ℕ → ℕ → AnalysisReport × RepeatState × ℕ
suppress_repeated s r limit now =
    let (cycles, s1, n1) = retain_allowed cycle_key limit now r.cycles s 0 in
    let (dead_code, s2, n2) = retain_allowed dead_code_key limit now r.dead_code s1 n1 in
    let (boundaries, s3, n3) = retain_allowed boundary_key limit now r.boundaries s2 n2 in
    let (duplication, s4, n4) = retain_allowed clone_key limit now r.duplication s3 n3 in
    let (smells, s5, n5) = retain_allowed smell_key limit now r.smells s4 n4 in
    (
      record r {
        cycles = cycles;
        dead_code = dead_code;
        boundaries = boundaries;
        duplication = duplication;
        smells = smells;
      },
      s5,
      n5,
    )
