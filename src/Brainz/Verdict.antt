-- ===== src/Brainz/Verdict.antt =====
-- src/brainz/verdict.rs: what a user says of a finding.
use sensez.Prelude.{
  ℕ, String, true, Option, some, List, [], ◌∷◌, ◌≡◌, ◌↔◌, refl, find, string_eq, Eq, nat_beq, ◌==◌,
  arith,
}

pub data TriageVerdict : Type 0 where
  debt false_positive clear : TriageVerdict

-- `TriageVerdict::ALL`
abbrev pub all : List TriageVerdict
all = debt ∷ false_positive ∷ clear ∷ []

unfoldable pub as_str : TriageVerdict → String
as_str debt = "debt"
as_str false_positive = "false_positive"
as_str clear = "clear"

unfoldable pub from_name : String → Option TriageVerdict
from_name value = find (λ verdict. as_str verdict == value) all

unfoldable pub rank : TriageVerdict → ℕ
rank debt = 0
rank false_positive = 1
rank clear = 2

pub verdict_iff : (p q : TriageVerdict) → (nat_beq (rank p) (rank q) ≡ true) ↔ (p ≡ q)
unfolding rank
verdict_iff debt q = ground arith
verdict_iff _ q = ground arith

instance abbrev pub verdict_eq : Eq TriageVerdict
verdict_eq = record { test = λ p q. nat_beq (rank p) (rank q); decides = verdict_iff }

pub from_name-as_str : (v : TriageVerdict) → from_name (as_str v) ≡ some v
unfolding from_name as_str find
from_name-as_str debt = refl
from_name-as_str _ = refl
