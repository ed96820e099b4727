-- ===== src/Diff/Parse/Text.antt =====
-- The operations on text of the standard library that src/diff/parse.rs uses.
use Prim.Native.Char.{Char, code}
use Prim.Native.String.{String, [], ◌∷◌, ◌++◌}
use mathlib.Core.Path.{◌≡◌, refl}
use mathlib.Core.Bool.{Bool, ◌||◌, ◌&&◌}
use mathlib.Core.Option.{Option, none, some}
use mathlib.Core.List.{List}
use sensez.Prelude.{ℕ, ◌+◌, ◌*◌, ◌-◌, ◌^◌, if◌then◌else◌, nat_beq, leb, ◌==◌, string_eq}
use sensez.Diff.Words.Pieces.{no_words, emit, push_line}

abbrev pub is_char : ℕ → Char → Bool
is_char n c = nat_beq (code c) n

-- `char::is_whitespace`: the code points with the property White_Space.
unfoldable pub is_whitespace : Char → Bool
is_whitespace c =
    let n = code c in
    (leb 9 n && leb n 13)
    || nat_beq n 32
    || nat_beq n 133
    || nat_beq n 160
    || nat_beq n 5760
    || (leb 8192 n && leb n 8202)
    || nat_beq n 8232
    || nat_beq n 8233
    || nat_beq n 8239
    || nat_beq n 8287
    || nat_beq n 12288

-- `strip_prefix`, for a text and for a character
unfoldable pub strip_prefix : (prefix text : String) → Option String
strip_prefix [] text = some text
strip_prefix (c ∷ prefix) [] = none
strip_prefix (c ∷ prefix) (d ∷ text) =
    let rest = strip_prefix prefix text in if nat_beq (code c) (code d) then rest else none

-- `split(p).next()`: up to the first character that satisfies `p`
unfoldable pub until : (Char → Bool) → String → String
until p [] = []
until p (c ∷ text) = let rest = until p text in if p c then [] else c ∷ rest

-- What follows the first character that satisfies `p`, if there is one.
unfoldable pub after : (Char → Bool) → String → Option String
after p [] = none
after p (c ∷ text) = let rest = after p text in if p c then some text else rest

unfoldable pub trim_start : String → String
trim_start [] = []
trim_start (c ∷ text) = let rest = trim_start text in if is_whitespace c then rest else c ∷ text

unfoldable pub trim_end : String → String
trim_end [] = []
trim_end (c ∷ text) =
    let rest = trim_end text in if is_whitespace c && rest == "" then [] else c ∷ rest

abbrev pub trim : String → String
trim text = trim_end (trim_start text)

-- `lines()`: a line ends with a line feed, and a carriage return before it belongs to its end.
unfoldable pub strip_return : String → String
strip_return [] = []
strip_return (c ∷ text) =
    let rest = strip_return text in if is_char 13 c && text == "" then [] else c ∷ rest

unfoldable pub lines_from : String → String → List String
lines_from line [] = emit line no_words
lines_from line (c ∷ text) =
    let next = push_line (strip_return line) (lines_from [] text) in
    let more = lines_from (line ++ c ∷ []) text in if is_char 10 c then next else more

abbrev pub lines : String → List String
lines text = lines_from [] text

-- `parse::<usize>()`
abbrev pub largest_usize : ℕ
largest_usize = 2 ^ 64 - 1

unfoldable pub parse_digits : ℕ → String → Option ℕ
parse_digits acc [] = some acc
parse_digits acc (c ∷ text) =
    let n = acc * 10 + (code c - 48) in
    let rest = parse_digits n text in
    if leb 48 (code c) && leb (code c) 57 && leb n largest_usize then rest else none

unfoldable pub parse_unsigned : String → Option ℕ
parse_unsigned [] = none
parse_unsigned (c ∷ text) = parse_digits 0 (c ∷ text)

unfoldable pub parse_usize : String → Option ℕ
parse_usize [] = none
parse_usize (c ∷ text) = if is_char 43 c then parse_unsigned text else parse_unsigned (c ∷ text)

trim-test : trim " 12\t" ≡ "12"
unfolding trim_end trim_start is_whitespace
trim-test = refl

parse_usize-test : parse_usize "18446744073709551616" ≡ none
unfolding parse_usize parse_unsigned parse_digits
parse_usize-test = refl
