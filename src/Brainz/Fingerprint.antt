-- ===== src/Brainz/Fingerprint.antt =====
-- src/brainz/fingerprint.rs, src/brainz/fingerprint/types.rs and src/fingerprints.rs: what
-- identifies a finding across scans. The identity hash is a number.
use Prim.Native.String.{◌++◌}
use sensez.Prelude.{
  ℕ, zero, suc, ◌/◌, ◌%◌, ◌≡◌, refl, String, List, [], ◌∷◌, get_elem?, unwrap_or, string_eq,
  if◌then◌else◌, ltb,
}
use sensez.Report.Kinds
use sensez.Report.Kinds.{SmellKind}
use sensez.Report.Pillar.{Pillar}

pub data Detector : Type 0 where
  cycles boundaries duplication : Detector
  dead_code : (symbol_kind : String) → Detector
  smell : SmellKind → Detector

-- The `Display` of `Detector`.
unfoldable pub detector_name : Detector → String
detector_name cycles = "cycles"
detector_name (dead_code symbol_kind) = "dead_code/" ++ symbol_kind
detector_name boundaries = "boundaries"
detector_name duplication = "duplication"
detector_name (smell kind) = "smells/" ++ Kinds.as_str kind

-- `hex`: the digits of a 64-bit number, at most 16 of them.
abbrev hex_digits : List String
hex_digits =
    "0" ∷ "1" ∷ "2" ∷ "3" ∷ "4" ∷ "5" ∷ "6" ∷ "7" ∷ "8" ∷ "9" ∷ "a" ∷ "b" ∷ "c" ∷ "d" ∷ "e" ∷ "f"
    ∷ []

hex_fuel : ℕ → ℕ → String
hex_fuel zero n = ""
hex_fuel (suc fuel) n =
    let more = hex_fuel fuel (n / 16) ++ unwrap_or (get_elem? hex_digits (n % 16)) "" in
    if ltb n 16 then unwrap_or (get_elem? hex_digits n) "" else more

unfoldable pub hex : ℕ → String
unfolding hex_fuel
hex = hex_fuel 16

-- `Fingerprint<Pillar, Label, Detector>`; the label is its text.
pub record Print : Type 0 where
  pub hash : ℕ
  pub namespace : Pillar
  pub label : String
  pub class : Detector

-- `Fingerprint::key`
unfoldable pub key : Print → String
key p = hex p.hash

pub record AgedEntry : Type 0 where
  pub first_seen : ℕ
  pub label : String
  pub class : Detector

pub record ResolvedRecord : Type 0 where
  pub class : Detector
  pub resolved_ts : ℕ

abbrev pub Prints : Type 0
Prints = List (Pillar × List Print)

abbrev pub Aged : Type 0
Aged = List (Pillar × List (String × AgedEntry))

abbrev pub ResolvedHistory : Type 0
ResolvedHistory = List (String × ResolvedRecord)

hex-test : hex 0xff8 ≡ "ff8"
unfolding hex
hex-test = refl
