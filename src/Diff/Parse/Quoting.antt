-- ===== src/Diff/Parse/Quoting.antt =====
-- Paths that git quotes, read back by src/diff/parse.rs byte by byte.
use sensez.Prelude.{
  ℕ, ◌+◌, ◌-◌, ◌*◌, ◌/◌, ◌%◌, ◌<◌, ◌≡◌, refl, ap, ◌∙◌, Bool, true, false, ◌&&◌, ◌||◌, List, [], ◌∷◌,
  ◌++◌, All, arith, not, leb, nat_beq, if◌then◌else◌, Bool-cases, inl, inr,
}
use sensez.Diff.Parse.{unquote_bytes, plain, octal, to_byte, escaped}

-- The letter after the backslash, where git has one for the byte, and zero where it has none:
-- `\a`, `\b`, `\t`, `\n`, `\v`, `\f`, `\r`, `\"` and `\\`.
abbrev letter_of : ℕ → ℕ
letter_of b =
    if nat_beq b 7
    then 97
    else if nat_beq b 8
    then 98
    else if nat_beq b 9
    then 116
    else if nat_beq b 10
    then 110
    else if nat_beq b 11
    then 118
    else if nat_beq b 12
    then 102
    else if nat_beq b 13
    then 114
    else if nat_beq b 34 || nat_beq b 92
    then b
    else 0

abbrev has_letter : ℕ → Bool
has_letter b = not (nat_beq (letter_of b) 0)

-- The bytes of ASCII from the space to the tilde are written as they are, unless they have a letter.
abbrev is_printable : ℕ → Bool
is_printable b = leb 32 b && leb b 126

abbrev in_octal : ℕ → List ℕ → List ℕ
in_octal b rest = 92 ∷ (48 + b / 64) ∷ (48 + b / 8 % 8) ∷ (48 + b % 8) ∷ rest

-- How git writes the bytes of a path between quotes.
unfoldable pub quote : List ℕ → List ℕ
quote [] = []
quote (b ∷ bytes) =
    let rest = quote bytes in
    if has_letter b
    then 92 ∷ letter_of b ∷ rest
    else if is_printable b
    then b ∷ rest
    else in_octal b rest

octal_done :
    (value : ℕ) (rest : List ℕ)
    → unquote_bytes (octal value 0) rest ≡ to_byte value ∷ unquote_bytes plain rest
unfolding unquote_bytes
octal_done value [] = refl
octal_done value (b ∷ rest) = refl

back : (d : ℕ) → (48 + d) - 48 ≡ d
back d = omega arith

octal_digit :
    (value more d : ℕ) (rest : List ℕ)
    → d < 8
    → 0 < more
    → unquote_bytes (octal value more) ((48 + d) ∷ rest)
      ≡ unquote_bytes (octal (value * 8 + d) (more - 1)) rest
unfolding unquote_bytes
octal_digit value more d rest h k = rw (back d) (ground (arith, h, k))

first_digit :
    (d : ℕ) (rest : List ℕ)
    → d < 8
    → unquote_bytes plain (92 ∷ (48 + d) ∷ rest) ≡ unquote_bytes (octal d 2) rest
unfolding unquote_bytes
first_digit d rest h = rw (back d) (ground (arith, h))

in_range : (v b : ℕ) → v ≡ b → b < 256 → to_byte v ≡ b
in_range v b p h = ground arith

unquote-in_octal :
    (b : ℕ) (rest : List ℕ)
    → b < 256
    → unquote_bytes plain (in_octal b rest) ≡ b ∷ unquote_bytes plain rest
unquote-in_octal b rest h =
    first_digit (b / 64) ((48 + b / 8 % 8) ∷ (48 + b % 8) ∷ rest) (omega arith)
    ∙ (octal_digit (b / 64) 2 (b / 8 % 8) ((48 + b % 8) ∷ rest) (omega arith) (omega arith)
        ∙ (octal_digit (b / 64 * 8 + b / 8 % 8) 1 (b % 8) rest (omega arith) (omega arith)
            ∙ (octal_done ((b / 64 * 8 + b / 8 % 8) * 8 + b % 8) rest
                ∙ ap (λ v. v ∷ unquote_bytes plain rest)
                    (in_range ((b / 64 * 8 + b / 8 % 8) * 8 + b % 8) b (omega arith) h))))

unquote-letter :
    (b : ℕ) (rest : List ℕ)
    → has_letter b ≡ true
    → unquote_bytes plain (92 ∷ letter_of b ∷ rest) ≡ b ∷ unquote_bytes plain rest
unfolding unquote_bytes escaped
unquote-letter b rest h = ground arith

unquote-printable :
    (b : ℕ) (rest : List ℕ)
    → has_letter b ≡ false
    → unquote_bytes plain (b ∷ rest) ≡ b ∷ unquote_bytes plain rest
unfolding unquote_bytes
unquote-printable b rest h = ground arith

-- The bytes of a path are read back from the way git quotes them, with a letter after the backslash
-- for the control characters that have one, the quote and the backslash, and in octal for what else is
-- not printable, whatever follows the closing quote.
pub unquote_bytes-quote :
    (bytes after : List ℕ)
    → All (λ b. b < 256) bytes
    → unquote_bytes plain (quote bytes ++ 34 ∷ after) ≡ bytes
unfolding quote unquote_bytes
unquote_bytes-quote [] after h = refl
unquote_bytes-quote (b ∷ bytes) after h =
    let more = quote bytes ++ 34 ∷ after in
    let rest = ap (λ bs. b ∷ bs) (unquote_bytes-quote bytes after h.1) in
    elim (Bool-cases (has_letter b)) [
      | inl lettered ↦ rw lettered (unquote-letter b more lettered ∙ rest)
      | inr none_such ↦ elim (Bool-cases (is_printable b)) [
        | inl printable ↦ rw none_such (rw printable (unquote-printable b more none_such ∙ rest))
        | inr other ↦ rw none_such (rw other (unquote-in_octal b more h.0 ∙ rest))
      ]
    ]
