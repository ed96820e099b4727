-- ===== src/Diff/Parse/Decimals.antt =====
-- Numbers written in decimal, read back by src/diff/parse.rs.
use Prim.Native.Char.{Char, code}
use Prim.Native.String.{String, [], ◌∷◌, ◌++◌}
use mathlib.Core.Path.{◌≡◌, refl, ap, ◌∙◌, sym}
use mathlib.Core.Logic.{inl, inr}
use mathlib.Core.Bool.{Bool, true, false, ◌&&◌}
use mathlib.Core.Option.{some}
use native.Mathlib.Omega.{arith}
use native.Mathlib.Nat.{pow-suc}
use text.Mathlib.TextLemmas.{nil-append, cons-append, append_assoc, append-nil}
use sensez.Prelude.{
  ℕ, zero, suc, ◌+◌, ◌*◌, ◌-◌, ◌/◌, ◌%◌, ◌^◌, ◌<◌, ◌≤◌, leb, ltb, ltb→lt, Bool-cases, decimal,
  decimal_fuel, digits, unwrap_or, get_elem?,
}
use sensez.Diff.Parse.Text.{parse_usize, parse_unsigned, parse_digits, largest_usize, is_char}
use sensez.Diff.Parse.Hunks.{lacks, lacks-append}

abbrev digit : ℕ → String
digit d = unwrap_or (get_elem? digits d) ""

digit_char : (d : ℕ) → d < 10 → (c : Char) × (digit d ≡ c ∷ []) × (code c ≡ 48 + d)
digit_char zero h = (_, refl, refl)
digit_char (suc zero) h = (_, refl, refl)
digit_char (suc (suc zero)) h = (_, refl, refl)
digit_char (suc (suc (suc zero))) h = (_, refl, refl)
digit_char (suc (suc (suc (suc zero)))) h = (_, refl, refl)
digit_char (suc (suc (suc (suc (suc zero))))) h = (_, refl, refl)
digit_char (suc (suc (suc (suc (suc (suc zero)))))) h = (_, refl, refl)
digit_char (suc (suc (suc (suc (suc (suc (suc zero))))))) h = (_, refl, refl)
digit_char (suc (suc (suc (suc (suc (suc (suc (suc zero)))))))) h = (_, refl, refl)
digit_char (suc (suc (suc (suc (suc (suc (suc (suc (suc zero))))))))) h = (_, refl, refl)
digit_char (suc (suc (suc (suc (suc (suc (suc (suc (suc (suc d)))))))))) h = absurd (omega arith)

back : (d : ℕ) → (48 + d) - 48 ≡ d
back d = omega arith

-- A digit that follows the number `acc`.
parse_digits-digit :
    (acc d : ℕ) (rest : String)
    → d < 10
    → acc * 10 + d ≤ largest_usize
    → parse_digits acc (digit d ++ rest) ≡ parse_digits (acc * 10 + d) rest
unfolding parse_digits
parse_digits-digit acc d rest h k =
    let (c, is, value) = digit_char d h in
    rw is (
      rw (cons-append c [] rest)
        (rw (nil-append rest) (rw value (rw (back d) (ground (arith, h, k))))))

zero_of : (n : ℕ) → n < 1 → 0 ≡ n
zero_of n h = omega arith

parse_digits-decimal :
    (fuel n : ℕ) (rest : String)
    → n < 10 ^ fuel
    → n ≤ largest_usize
    → parse_digits 0 (decimal_fuel fuel n ++ rest) ≡ parse_digits n rest
unfolding decimal_fuel
parse_digits-decimal zero n rest h k =
    ap (parse_digits 0) (nil-append rest) ∙ ap (λ m. parse_digits m rest) (zero_of n h)
parse_digits-decimal (suc fuel) n rest h k = elim (Bool-cases (ltb n 10)) [
  | inl last ↦ rw last (
      parse_digits-digit 0 n rest (ltb→lt n 10 last) (omega arith)
      ∙ ap (λ m. parse_digits m rest) (omega arith))
  | inr more ↦ rw more (
      ap (parse_digits 0) (append_assoc (decimal_fuel fuel (n / 10)) (digit (n % 10)) rest)
      ∙ (parse_digits-decimal fuel (n / 10) (digit (n % 10) ++ rest)
            (omega (arith, pow-suc 10 fuel)) (omega arith)
          ∙ (parse_digits-digit (n / 10) (n % 10) rest (omega arith) (omega arith)
              ∙ ap (λ m. parse_digits m rest) (omega arith))))
]

abbrev pub is_digit : Char → Bool
is_digit c = leb 48 (code c) && leb (code c) 57

digit-lacks :
    (p : Char → Bool) (d : ℕ)
    → d < 10
    → ((c : Char) → is_digit c ≡ true → p c ≡ false)
    → lacks p (digit d) ≡ true
unfolding lacks
digit-lacks p d h k =
    let (c, is, value) = digit_char d h in rw is (ground (arith, k c (ground (arith, value))))

append_some :
    (text : String) (c : Char) → (d : Char) × (rest : String) × (text ++ c ∷ [] ≡ d ∷ rest)
append_some [] c = (c, [], nil-append (c ∷ []))
append_some (d ∷ text) c = (d, text ++ c ∷ [], cons-append d text (c ∷ []))

-- The digits of a number, at least one.
decimal_fuel-digits :
    (fuel n : ℕ) → 0 < fuel → (c : Char) × (text : String) × (decimal_fuel fuel n ≡ c ∷ text)
unfolding decimal_fuel
decimal_fuel-digits zero n h = absurd (omega arith)
decimal_fuel-digits (suc fuel) n h = elim (Bool-cases (ltb n 10)) [
  | inl last ↦ let (c, is, value) = digit_char n (ltb→lt n 10 last) in (c, [], rw last is)
  | inr more ↦
      let (c, is, value) = digit_char (n % 10) (omega arith) in
      let (d, text, starts) = append_some (decimal_fuel fuel (n / 10)) c in
      (d, text, rw (more, is) starts)
]

decimal_fuel-lacks :
    (p : Char → Bool) (fuel n : ℕ)
    → ((c : Char) → is_digit c ≡ true → p c ≡ false)
    → lacks p (decimal_fuel fuel n) ≡ true
unfolding decimal_fuel lacks
decimal_fuel-lacks p zero n h = refl
decimal_fuel-lacks p (suc fuel) n h = elim (Bool-cases (ltb n 10)) [
  | inl last ↦ rw last (digit-lacks p n (ltb→lt n 10 last) h)
  | inr more ↦ rw more (
      ground (
        arith,
        lacks-append p (decimal_fuel fuel (n / 10)) (digit (n % 10)),
        decimal_fuel-lacks p fuel (n / 10) h,
        digit-lacks p (n % 10) (omega arith) h,
      ))
]

pub decimal-lacks :
    (p : Char → Bool) (n : ℕ)
    → ((c : Char) → is_digit c ≡ true → p c ≡ false)
    → lacks p (decimal n) ≡ true
unfolding decimal
decimal-lacks p n h = decimal_fuel-lacks p 20 n h

parse_usize-digits :
    (text : String) (c : Char) (rest : String)
    → text ≡ c ∷ rest
    → lacks (is_char 43) text ≡ true
    → parse_usize text ≡ parse_digits 0 text
unfolding parse_usize parse_unsigned lacks
parse_usize-digits [] c rest is h = cc is
parse_usize-digits (d ∷ text) c rest is h = ground arith

-- A 64-bit number is read back from its decimal digits.
pub parse_usize-decimal : (n : ℕ) → n ≤ largest_usize → parse_usize (decimal n) ≡ some n
unfolding decimal parse_digits
parse_usize-decimal n h =
    let (c, rest, is) = decimal_fuel-digits 20 n (omega arith) in
    parse_usize-digits (decimal n) c rest is (decimal-lacks (is_char 43) n (λ c d. ground arith))
    ∙ (ap (parse_digits 0) (sym (append-nil (decimal n)))
        ∙ parse_digits-decimal 20 n [] (omega arith) h)
