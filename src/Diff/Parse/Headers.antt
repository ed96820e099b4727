-- ===== src/Diff/Parse/Headers.antt =====
-- The hunk headers that git writes, and what src/diff/parse.rs makes of them.
use Prim.Native.Char.{Char, char}
use Prim.Native.String.{String, ◌∷◌, ◌++◌}
use mathlib.Core.Path.{◌≡◌, refl, ap, ◌∙◌, sym}
use mathlib.Core.Bool.{Bool, true, false, ◌||◌}
use mathlib.Core.Option.{Option, none, some}
use native.Mathlib.Omega.{arith}
use text.Mathlib.TextLemmas.{append-nil, nil-append, cons-append}
use sensez.Prelude.{ℕ, ◌+◌, ◌-◌, ◌<◌, ◌≤◌, if◌then◌else◌, nat_beq, decimal}
use sensez.Diff.Parse.{new_hunk_range, last_line}
use sensez.Diff.Parse.Text.{until, after, trim, parse_usize, largest_usize, is_char, is_whitespace}
use sensez.Diff.Parse.Hunks.{lacks, until-append, after-append, after-lacks, trim-lacks}
use sensez.Diff.Parse.Decimals.{is_digit, decimal-lacks, parse_usize-decimal}

-- ` -<old> +<start>,<count> @@<context>`
abbrev counted_header : (old : String) (start count : ℕ) (context : String) → String
counted_header old start count context =
    old ++ "+" ++ decimal start ++ "," ++ decimal count ++ " @@" ++ context

-- ` -<old> +<start> @@<context>`, which git writes for one line.
abbrev short_header : (old : String) (start : ℕ) (context : String) → String
short_header old start context = old ++ "+" ++ decimal start ++ " @@" ++ context

-- A header of so many lines from `start`, with the count written out or left out.
abbrev pub hunk_header : (old : String) (start : ℕ) (written : Option ℕ) (context : String) → String
hunk_header old start none context = short_header old start context
hunk_header old start (some count) context = counted_header old start count context

-- How many lines such a header means.
abbrev pub lines_of : Option ℕ → ℕ
lines_of none = 1
lines_of (some count) = count

digit_space : (c : Char) → is_digit c ≡ true → is_whitespace c ≡ false
unfolding is_whitespace
digit_space c d = ground arith

number_of : (n : ℕ) → n ≤ largest_usize → parse_usize (trim (decimal n)) ≡ some n
number_of n h =
    ap parse_usize (trim-lacks (decimal n) (decimal-lacks is_whitespace n digit_space))
    ∙ parse_usize-decimal n h

-- A text that begins with a separator.
after_mark :
    (p : Char → Bool) (c : Char) (more : String)
    → p c ≡ true
    → after p ((c ∷ "") ++ more) ≡ some more
unfolding after
after_mark p c more h = rw (cons-append c "" more) (rw (nil-append more) (ground arith))

until_mark :
    (p : Char → Bool) (c : Char) (text more : String)
    → p c ≡ true
    → until p ((c ∷ text) ++ more) ≡ ""
unfolding until
until_mark p c text more h = rw (cons-append c text more) (ground arith)

-- The text up to a separator behind a text without one, and the text that follows it.
until_text :
    (p : Char → Bool) (text : String) (c : Char) (more : String)
    → lacks p text ≡ true
    → p c ≡ true
    → until p (text ++ (c ∷ "") ++ more) ≡ text
until_text p text c more h k =
    until-append p text ((c ∷ "") ++ more) h
    ∙ (ap (λ t. text ++ t) (until_mark p c "" more k) ∙ append-nil text)

after_text :
    (p : Char → Bool) (text : String) (c : Char) (more : String)
    → lacks p text ≡ true
    → p c ≡ true
    → after p (text ++ (c ∷ "") ++ more) ≡ some more
after_text p text c more h k = after-append p text ((c ∷ "") ++ more) h ∙ after_mark p c more k

until_all : (p : Char → Bool) (text : String) → lacks p text ≡ true → until p text ≡ text
unfolding until
until_all p text h =
    ap (until p) (sym (append-nil text)) ∙ (until-append p text "" h ∙ append-nil text)

abbrev is_end : Char → Bool
is_end c = is_char 32 c || is_char 64 c

digits_lack :
    (p : Char → Bool) (n : ℕ)
    → ((c : Char) → is_digit c ≡ true → p c ≡ false)
    → lacks p (decimal n) ≡ true
digits_lack p n h = decimal-lacks p n h

-- What the reader takes for the numbers of the new side.
until_plus :
    (start count : ℕ) (context : String)
    → until (is_char 43) (decimal start ++ "," ++ decimal count ++ " @@" ++ context)
      ≡ decimal start ++ "," ++ decimal count ++ " @@" ++ until (is_char 43) context
unfolding lacks
until_plus start count context =
    let p = is_char 43 in
    let digits = λ (n : ℕ). decimal-lacks p n (λ c d. ground arith) in
    until-append p (decimal start) ("," ++ decimal count ++ " @@" ++ context) (digits start)
    ∙ ap (λ t. decimal start ++ t)
        (until-append p "," (decimal count ++ " @@" ++ context) refl
          ∙ ap (λ t. "," ++ t)
              (until-append p (decimal count) (" @@" ++ context) (digits count)
                ∙ ap (λ t. decimal count ++ t) (until-append p " @@" context refl)))

until_end :
    (start count : ℕ) (more : String)
    → until is_end (decimal start ++ "," ++ decimal count ++ " @@" ++ more)
      ≡ decimal start ++ "," ++ decimal count
unfolding lacks
until_end start count more =
    let digits = λ (n : ℕ). decimal-lacks is_end n (λ c d. ground arith) in
    until-append is_end (decimal start) ("," ++ decimal count ++ " @@" ++ more) (digits start)
    ∙ ap (λ t. decimal start ++ t)
        (until-append is_end "," (decimal count ++ " @@" ++ more) refl
          ∙ ap (λ t. "," ++ t)
              (until-append is_end (decimal count) (" @@" ++ more) (digits count)
                ∙ (ap (λ t. decimal count ++ t) (until_mark is_end (char 32 tt) "@@" more refl)
                    ∙ append-nil (decimal count))))

new_hunk_range-counted :
    (old context : String) (start count : ℕ)
    → lacks (is_char 43) old ≡ true
    → start ≤ largest_usize
    → count ≤ largest_usize
    → new_hunk_range (counted_header old start count context)
      ≡ (if nat_beq count 0 then none else some (start, last_line start count))
unfolding new_hunk_range
new_hunk_range-counted old context start count no_plus h k =
    let tail = decimal start ++ "," ++ decimal count ++ " @@" ++ context in
    let comma = λ (n : ℕ). decimal-lacks (is_char 44) n (λ c d. ground arith) in
    let plus : after (is_char 43) (counted_header old start count context) ≡ some tail =
      after_text (is_char 43) old (char 43 tt) tail no_plus refl in
    let spec : until is_end (until (is_char 43) tail) ≡ decimal start ++ "," ++ decimal count =
      ap (until is_end) (until_plus start count context)
      ∙ until_end start count (until (is_char 43) context) in
    let first : until (is_char 44) (decimal start ++ "," ++ decimal count) ≡ decimal start =
      until_text (is_char 44) (decimal start) (char 44 tt) (decimal count) (comma start) refl in
    let second : after (is_char 44) (decimal start ++ "," ++ decimal count) ≡ some (decimal count) =
      after_text (is_char 44) (decimal start) (char 44 tt) (decimal count) (comma start) refl in
    let third = until_all (is_char 44) (decimal count) (comma count) in
    rw plus (
      rw spec
        (rw first (rw second (rw (number_of start h) (rw third (rw (number_of count k) refl))))))

last_line_exact :
    (start count : ℕ)
    → start + count ≤ largest_usize
    → nat_beq count 0 ≡ false
    → last_line start count ≡ start + count - 1
last_line_exact start count h k = let some_line : 0 < count = ground arith in omega arith

short_plus :
    (start : ℕ) (context : String)
    → until (is_char 43) (decimal start ++ " @@" ++ context)
      ≡ decimal start ++ " @@" ++ until (is_char 43) context
unfolding lacks
short_plus start context =
    let p = is_char 43 in
    until-append p (decimal start) (" @@" ++ context) (decimal-lacks p start (λ c d. ground arith))
    ∙ ap (λ t. decimal start ++ t) (until-append p " @@" context refl)

short_end :
    (start : ℕ) (more : String) → until is_end (decimal start ++ " @@" ++ more) ≡ decimal start
short_end start more =
    let digits = decimal-lacks is_end start (λ c d. ground arith) in
    until-append is_end (decimal start) (" @@" ++ more) digits
    ∙ (ap (λ t. decimal start ++ t) (until_mark is_end (char 32 tt) "@@" more refl)
        ∙ append-nil (decimal start))

new_hunk_range-short :
    (old context : String) (start : ℕ)
    → lacks (is_char 43) old ≡ true
    → start ≤ largest_usize
    → new_hunk_range (short_header old start context) ≡ some (start, last_line start 1)
unfolding new_hunk_range
new_hunk_range-short old context start no_plus h =
    let tail = decimal start ++ " @@" ++ context in
    let comma = decimal-lacks (is_char 44) start (λ c d. ground arith) in
    let plus : after (is_char 43) (short_header old start context) ≡ some tail =
      after_text (is_char 43) old (char 43 tt) tail no_plus refl in
    let spec : until is_end (until (is_char 43) tail) ≡ decimal start =
      ap (until is_end) (short_plus start context) ∙ short_end start (until (is_char 43) context) in
    let first = until_all (is_char 44) (decimal start) comma in
    let second = after-lacks (is_char 44) (decimal start) comma in
    rw plus (rw spec (rw first (rw second (rw (number_of start h) refl))))

-- The reader finds in a hunk header the lines from `start` on, as many as the header says, and none if
-- it says zero, where the numbers fit into a machine word. A header says how many lines there are by
-- a count, or means one where the count is left out, as git writes it. The text before the first
-- plus holds no plus, and what follows the header is any context.
pub new_hunk_range-header :
    (old context : String) (start : ℕ) (written : Option ℕ)
    → lacks (is_char 43) old ≡ true
    → start + lines_of written ≤ largest_usize
    → new_hunk_range (hunk_header old start written context)
      ≡ (if nat_beq (lines_of written) 0 then none else some (start, start + lines_of written - 1))
new_hunk_range-header old context start none no_plus h =
    new_hunk_range-short old context start no_plus (omega arith)
    ∙ ap (λ last. some (start, last)) (last_line_exact start 1 h refl)
new_hunk_range-header old context start (some count) no_plus h =
    new_hunk_range-counted old context start count no_plus (omega arith) (omega arith)
    ∙ ground (arith, last_line_exact start count h)
