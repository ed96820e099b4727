-- ===== src/Report/Limit/Capping.antt =====
-- src/report/limit.rs: what the caps leave.
use sensez.Prelude.{
  ℕ, zero, suc, ◌+◌, ◌-◌, min, String, Bool, List, [], ◌∷◌, ◌++◌, ◌≡◌, refl, ap, take, arith,
  length, length-take, count, count-sort, count_congr, lookup, upsert, lookup-upsert, unwrap_or,
  string_eq, ◌==◌,
}
use sensez.Report.{SmellFinding, AnalysisReport}
use sensez.Report.Kinds
use sensez.Report.Kinds.{SmellKind}
use sensez.Report.Kinds.Names.{==-as_str, smell_kind_eq}
use sensez.Report.Limit.{flat, per_kind, keep_per_kind, ranks_before, limit_smells_by_kind, limit}

abbrev pub of_kind : SmellKind → SmellFinding → Bool
of_kind k f = f.kind == k

abbrev named : String → SmellFinding → Bool
named name f = Kinds.as_str f.kind == name

count-keep_per_kind :
    (max : ℕ) (name : String) (seen : List (String × ℕ)) (fs : List SmellFinding)
    → count (named name) (keep_per_kind max seen fs)
      ≡ min (max - unwrap_or (lookup name seen) 0) (count (named name) fs)
unfolding keep_per_kind count
count-keep_per_kind max name seen [] = omega arith
count-keep_per_kind max name seen (f ∷ fs) =
    let own = Kinds.as_str f.kind in
    ground (
      arith,
      count-keep_per_kind max name (upsert own 0 (λ n. n + 1) seen) fs,
      lookup-upsert name own 0 (λ n. n + 1) seen,
      string_eq.decides own name,
    )

by_kind :
    (smells : List SmellFinding) (max : ℕ) (k : SmellKind)
    → count (of_kind k) (limit_smells_by_kind smells max) ≡ min max (count (of_kind k) smells)
unfolding limit_smells_by_kind lookup
by_kind smells max k =
    let name = Kinds.as_str k in
    let kept = keep_per_kind max [] smells in
    let agree = λ (f : SmellFinding). ==-as_str f.kind k in
    omega (
      arith,
      count-sort ranks_before (of_kind k) kept,
      count-keep_per_kind max name [] smells,
      count_congr {0} (named name) (of_kind k) kept agree,
      count_congr {0} (named name) (of_kind k) smells agree,
    )

-- Under a cap of so many smells per kind, every kind keeps that many findings, or all that it has
-- if they are fewer.
pub limit-per_kind :
    (report : AnalysisReport) (pillar_max max : ℕ) (k : SmellKind)
    → count
        (of_kind k)
        (limit report (record { pillar_max = pillar_max; smells = per_kind (suc max) })).smells
      ≡ min (suc max) (count (of_kind k) report.smells)
unfolding limit
limit-per_kind report zero max k = by_kind report.smells (suc max) k
limit-per_kind report (suc pillar_max) max k = by_kind report.smells (suc max) k

-- A cap of zero leaves a list as long as it is, any other cuts it down to the cap.
abbrev pub capped : ℕ → ℕ → ℕ
capped zero n = n
capped (suc max) n = min (suc max) n

abbrev drop : {A : Type 0} → ℕ → List A → List A
drop zero xs = xs
drop (suc n) [] = []
drop (suc n) (x ∷ xs) = drop n xs

take-drop : {A : Type 0} (n : ℕ) (xs : List A) → take n xs ++ drop n xs ≡ xs
take-drop zero xs = refl
take-drop (suc n) [] = refl
take-drop (suc n) (x ∷ xs) = ap (λ ys. x ∷ ys) (take-drop n xs)

append_nil : {A : Type 0} (xs : List A) → xs ++ [] ≡ xs
append_nil [] = refl
append_nil (x ∷ xs) = ap (λ ys. x ∷ ys) (append_nil xs)

-- The first of the items, in their order: all of them, or as many as the cap.
pub record IsCut {A : Type 0} (max : ℕ) (items kept : List A) : Type 0 where
  pub dropped : List A
  pub in_order : kept ++ dropped ≡ items
  pub kept_count : length kept ≡ capped max (length items)
  pub nothing_dropped : max ≡ 0 → kept ≡ items

take-IsCut : {A : Type 0} (max : ℕ) (items : List A) → IsCut (suc max) items (take (suc max) items)
take-IsCut max items = record {
  dropped = drop (suc max) items;
  in_order = take-drop (suc max) items;
  kept_count = length-take (suc max) items;
  nothing_dropped = λ p. absurd (omega (arith, p));
}

whole-IsCut : {A : Type 0} (items : List A) → IsCut 0 items items
whole-IsCut items = record {
  dropped = [];
  in_order = append_nil items;
  kept_count = refl;
  nothing_dropped = λ p. refl;
}

-- A flat cap leaves of each of the four pillars and of the smells in total the first findings in their
-- order, as many as the cap or all if they are fewer; a cap of zero leaves all of them whole; and it
-- leaves the header of the report as it was.
pub limit-flat :
    (report : AnalysisReport) (max : ℕ)
    → let r = limit report (flat max) in
      IsCut max report.cycles r.cycles
      × IsCut max report.dead_code r.dead_code
      × IsCut max report.boundaries r.boundaries
      × IsCut max report.duplication r.duplication
      × IsCut max report.smells r.smells
      × (r.meta ≡ report.meta)
unfolding limit flat
limit-flat report zero = (
  whole-IsCut report.cycles,
  whole-IsCut report.dead_code,
  whole-IsCut report.boundaries,
  whole-IsCut report.duplication,
  whole-IsCut report.smells,
  refl,
)
limit-flat report (suc max) = (
  take-IsCut max report.cycles,
  take-IsCut max report.dead_code,
  take-IsCut max report.boundaries,
  take-IsCut max report.duplication,
  take-IsCut max report.smells,
  refl,
)
