-- ===== src/Report/Pillar.antt =====
-- src/report/pillar.rs: the five finding families.
use sensez.Prelude.{
  ℕ, String, true, Option, some, List, [], ◌∷◌, ◌≡◌, ◌↔◌, refl, find, string_eq, Eq, nat_beq, ◌==◌,
  arith,
}

pub data Pillar : Type 0 where
  cycles dead_code boundaries duplication smells : Pillar

-- `Pillar::ALL`
abbrev pub all : List Pillar
all = cycles ∷ dead_code ∷ boundaries ∷ duplication ∷ smells ∷ []

unfoldable pub as_str : Pillar → String
as_str cycles = "cycles"
as_str dead_code = "dead_code"
as_str boundaries = "boundaries"
as_str duplication = "duplication"
as_str smells = "smells"

unfoldable pub from_name : String → Option Pillar
from_name value = find (λ pillar. as_str pillar == value) all

unfoldable pub rank : Pillar → ℕ
rank cycles = 0
rank dead_code = 1
rank boundaries = 2
rank duplication = 3
rank smells = 4

pub pillar_iff : (p q : Pillar) → (nat_beq (rank p) (rank q) ≡ true) ↔ (p ≡ q)
unfolding rank
pillar_iff cycles q = ground arith
pillar_iff _ q = ground arith

-- The derived `Eq`.
instance abbrev pub pillar_eq : Eq Pillar
pillar_eq = record { test = λ p q. nat_beq (rank p) (rank q); decides = pillar_iff }

-- A pillar is found again by the name that it is written with, so the names differ.
pub from_name-as_str : (p : Pillar) → from_name (as_str p) ≡ some p
unfolding from_name as_str find
from_name-as_str cycles = refl
from_name-as_str _ = refl
