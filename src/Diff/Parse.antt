-- ===== src/Diff/Parse.antt =====
-- src/diff/parse.rs: the parser of unified diffs. The two conversions between text and its bytes in
-- UTF-8 are parameters: `bytes`, and `from_utf8_lossy`.
pub mod Text
pub mod Hunks
pub mod Decimals
pub mod Headers
pub mod Quoting
mod Samples
use Prim.Native.Char.{Char}
use sensez.Prelude.{
  ℕ, ◌+◌, ◌-◌, ◌*◌, ◌^◌, ◌%◌, String, Bool, true, false, not, ◌&&◌, ◌||◌, ltb, Option, none, some,
  List, [], ◌∷◌, ◌++◌, ◌>>=◌, nat_beq, leb, if◌then◌else◌, is_some, unwrap_or, ◌==◌, string_eq,
}
use sensez.Diff.Parse.Text.{
  strip_prefix, until, after, trim, trim_start, lines, parse_usize, is_char,
}
use sensez.Diff.{ChangedLines, add_range, add_removed_text}

pub record FileDiff : Type 0 where
  pub path : Option String
  pub ranges : List (ℕ × ℕ)
  pub removed : List String

-- `ranges.extend(range)`
abbrev pub extend_ranges : List (ℕ × ℕ) → Option (ℕ × ℕ) → List (ℕ × ℕ)
extend_ranges ranges none = ranges
extend_ranges ranges (some range) = ranges ++ range ∷ []

-- The last line of a hunk; on a 64-bit machine the sum wraps around in a release build.
abbrev pub last_line : ℕ → ℕ → ℕ
last_line start count = ((start + count) % 2 ^ 64 + (2 ^ 64 - 1)) % 2 ^ 64

-- `new_hunk_range`: the numbers after the first `+`
unfoldable pub new_hunk_range : String → Option (ℕ × ℕ)
new_hunk_range rest = do
  plus ← after (is_char 43) rest
  let spec = until (λ c. is_char 32 c || is_char 64 c) (until (is_char 43) plus)
  start ← parse_usize (trim (until (is_char 44) spec))
  count ← elim (after (is_char 44) spec) [
    | none ↦ some 1
    | some more ↦ parse_usize (trim (until (is_char 44) more))
  ]
  if nat_beq count 0 then none else some (start, last_line start count)

-- The escapes of a character after the backslash: `\n`, `\t`, `\r`, `\a`, `\b`, `\f`, `\v`.
unfoldable pub escaped : ℕ → ℕ
escaped byte =
    if nat_beq byte 110
    then 10
    else if nat_beq byte 116
    then 9
    else if nat_beq byte 114
    then 13
    else if nat_beq byte 97
    then 7
    else if nat_beq byte 98
    then 8
    else if nat_beq byte 102
    then 12
    else if nat_beq byte 118
    then 11
    else byte

abbrev pub is_octal : ℕ → Bool
is_octal byte = leb 48 byte && leb byte 55

-- `u8::try_from(value).unwrap_or(b'?')`
abbrev pub to_byte : ℕ → ℕ
to_byte value = if leb value 255 then value else 63

-- Where the loop of `unquote` stands in the bytes: in an octal escape it has a value, and digits that
-- it may still take.
pub data Reading : Type 0 where
  plain backslash : Reading
  octal : (value more : ℕ) → Reading

-- What a byte outside of an escape does.
abbrev pub take_byte : ℕ → (quoted next : List ℕ) → List ℕ
take_byte byte quoted next =
    if nat_beq byte 34 then [] else if nat_beq byte 92 then quoted else byte ∷ next

-- The bytes up to the closing quote, decoded.
unfoldable pub unquote_bytes : Reading → List ℕ → List ℕ
unquote_bytes plain [] = []
unquote_bytes backslash [] = []
unquote_bytes (octal value more) [] = to_byte value ∷ []
unquote_bytes plain (byte ∷ rest) =
    take_byte byte (unquote_bytes backslash rest) (unquote_bytes plain rest)
unquote_bytes backslash (byte ∷ rest) =
    let digits = unquote_bytes (octal (byte - 48) 2) rest in
    let one = escaped byte ∷ unquote_bytes plain rest in if is_octal byte then digits else one
unquote_bytes (octal value more) (byte ∷ rest) =
    let digits = unquote_bytes (octal (value * 8 + (byte - 48)) (more - 1)) rest in
    let done =
      to_byte value ∷ take_byte byte (unquote_bytes backslash rest) (unquote_bytes plain rest) in
    if ltb 0 more && is_octal byte then digits else done

-- The prefixes that the lines of a diff are told apart by.
abbrev pub section_mark : String
section_mark = "diff --git "

abbrev pub path_mark : String
path_mark = "+++ "

abbrev pub no_path : String
no_path = "/dev/null"

-- The `for` loop of `parse_section`
unfoldable pub read_lines : List String → FileDiff → FileDiff
read_lines [] file = file
read_lines (line ∷ lines) file = elim (strip_prefix "@@" line) [
  | some hunk ↦
      read_lines lines (record file { ranges = extend_ranges file.ranges (new_hunk_range hunk) })
  | none ↦ elim (strip_prefix "-" line) [
    | some text ↦ read_lines lines (record file { removed = file.removed ++ text ∷ [] })
    | none ↦ read_lines lines file
  ]
]

-- The sections of the lines, each without its mark; the lines before the first mark are in none.
unfoldable pub split_sections : Option (List String) → List String → List (List String)
split_sections none [] = []
split_sections (some section) [] = section ∷ []
split_sections none (line ∷ lines) =
    let first = split_sections (some []) lines in
    let skip = split_sections none lines in
    if is_some (strip_prefix section_mark line) then first else skip
split_sections (some section) (line ∷ lines) =
    let next = section ∷ split_sections (some []) lines in
    let more = split_sections (some (section ++ line ∷ [])) lines in
    if is_some (strip_prefix section_mark line) then next else more

module _ (bytes : String → List ℕ) (from_utf8_lossy : List ℕ → String) where
  unfoldable pub unquote : String → String
  unfolding unquote_bytes
  unquote quoted = from_utf8_lossy (unquote_bytes plain (bytes quoted))

  unfoldable pub new_file_path : String → Option String
  new_file_path field =
      let path : String = elim (strip_prefix "\"" field) [
        | some quoted ↦ unquote quoted
        | none ↦ trim (until (is_char 9) field)
      ] in
      if path == no_path then none else some (unwrap_or (strip_prefix "b/" path) path)

  unfoldable pub parse_section : List String → Option FileDiff
  parse_section [] = none
  parse_section (line ∷ lines) = elim (strip_prefix path_mark line) [
    | none ↦ parse_section lines
    | some field ↦ some (
        read_lines lines
          (record { path = new_file_path (trim_start field); ranges = []; removed = [] }))
  ]

  unfoldable pub parse_sections : List (List String) → List FileDiff
  parse_sections [] = []
  parse_sections (section ∷ sections) = elim (parse_section section) [
    | none ↦ parse_sections sections
    | some file ↦ file ∷ parse_sections sections
  ]

  unfoldable pub parse_unified : String → List FileDiff
  unfolding split_sections
  parse_unified text = parse_sections (split_sections none (lines text))

  -- `ChangedLines::from_unified` of mod.rs: `join` joins a path to the base, and `is_ident` is the test
  -- for the identifier characters of the language of a path.
  module _ (canon join : String → String) (is_ident : Option String → Char → Bool) where
    unfoldable pub add_ranges : String → List (ℕ × ℕ) → ChangedLines → ChangedLines
    add_ranges path [] changed = changed
    add_ranges path ((lo, hi) ∷ ranges) changed =
        add_ranges path ranges (add_range canon path lo hi changed)

    unfoldable pub add_removed : Option String → List String → ChangedLines → ChangedLines
    add_removed path [] changed = changed
    add_removed path (line ∷ lines) changed =
        add_removed path lines (add_removed_text (is_ident path) line changed)

    unfoldable pub add_files : List FileDiff → ChangedLines → ChangedLines
    add_files [] changed = changed
    add_files (file ∷ files) changed =
        let ranged : ChangedLines = elim file.path [
          | none ↦ changed
          | some rel ↦ add_ranges (join rel) file.ranges changed
        ] in
        add_files files (add_removed file.path file.removed ranged)

    unfoldable pub from_unified : String → ChangedLines
    from_unified text = add_files (parse_unified text) (record { files = []; removed_names = [] })
