-- ===== src/Report/Limit.antt =====
-- src/report/limit.rs: the top of each pillar, under the caps of a policy.
pub mod Capping
use Prim.Native.Nat.{Ordering}
use Prim.Native.String.{compare}
use sensez.Prelude.{
  ℕ, zero, suc, ◌+◌, String, Bool, true, false, List, [], ◌∷◌, ltb, if◌then◌else◌, take, sort,
  lookup, upsert, unwrap_or, string_eq,
}
use sensez.Report.{ActionLevel, must_fix, warning, advisory, info, SmellFinding, AnalysisReport}
use sensez.Report.Kinds

pub data SmellCap : Type 0 where
  total : ℕ → SmellCap
  per_kind : ℕ → SmellCap

pub record LimitPolicy : Type 0 where
  pub pillar_max : ℕ
  pub smells : SmellCap

-- `LimitPolicy::flat`
unfoldable pub flat : ℕ → LimitPolicy
flat max = record { pillar_max = max; smells = total max }

-- Declaration order, as the derived `Ord` of `ActionLevel` compares.
unfoldable pub action_rank : ActionLevel → ℕ
action_rank must_fix = 0
action_rank warning = 1
action_rank advisory = 2
action_rank info = 3

-- The `retain`: at most `max` findings of a kind, counted by the kind's name.
unfoldable pub keep_per_kind : ℕ → List (String × ℕ) → List SmellFinding → List SmellFinding
keep_per_kind max seen [] = []
keep_per_kind max seen (f ∷ fs) =
    let name = Kinds.as_str f.kind in
    let rest = keep_per_kind max (upsert name 0 (λ n. n + 1) seen) fs in
    if ltb (unwrap_or (lookup name seen) 0) max then f ∷ rest else rest

-- The comparison of `sort_by`: by kind, then by action, then by falling metric.
unfoldable pub ranks_before : SmellFinding → SmellFinding → Bool
unfolding action_rank
ranks_before a b = elim (compare (Kinds.as_str a.kind) (Kinds.as_str b.kind)) [
  | Ordering.lt ↦ true
  | Ordering.gt ↦ false
  | Ordering.eq ↦
      if ltb (action_rank a.action) (action_rank b.action)
      then true
      else if ltb (action_rank b.action) (action_rank a.action)
      then false
      else ltb b.metric a.metric
]

unfoldable pub limit_smells_by_kind : List SmellFinding → ℕ → List SmellFinding
limit_smells_by_kind smells max = sort ranks_before (keep_per_kind max [] smells)

-- The first half of `limit`.
unfoldable pub limit_pillars : ℕ → AnalysisReport → AnalysisReport
limit_pillars zero r = r
limit_pillars (suc max) r = record r {
  cycles = take (suc max) r.cycles;
  dead_code = take (suc max) r.dead_code;
  boundaries = take (suc max) r.boundaries;
  duplication = take (suc max) r.duplication;
}

unfoldable pub limit_smells : SmellCap → List SmellFinding → List SmellFinding
limit_smells (total zero) smells = smells
limit_smells (per_kind zero) smells = smells
limit_smells (total (suc max)) smells = take (suc max) smells
limit_smells (per_kind (suc max)) smells = limit_smells_by_kind smells (suc max)

unfoldable pub limit : AnalysisReport → LimitPolicy → AnalysisReport
unfolding limit_pillars limit_smells
limit report policy =
    let r = limit_pillars policy.pillar_max report in
    record r { smells = limit_smells policy.smells r.smells }
