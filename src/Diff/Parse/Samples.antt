-- ===== src/Diff/Parse/Samples.antt =====
-- Diffs, and what src/diff/parse.rs reads from them.
use sensez.Prelude.{ℕ, String, ◌≡◌, refl, true, none, some, List, [], ◌∷◌, ◌++◌, arith}
use sensez.Diff.Parse.{
  new_hunk_range, unquote_bytes, plain, read_lines, split_sections, parse_section, parse_sections,
  parse_unified, new_file_path, escaped,
}
use sensez.Diff.Parse.Text.{
  strip_prefix, until, after, trim_start, trim_end, is_whitespace, lines_from, strip_return,
  parse_usize, parse_unsigned, parse_digits, is_char,
}
use sensez.Diff.Parse.Hunks.{lacks}
use sensez.Diff.Parse.Quoting.{quote, unquote_bytes-quote}
use sensez.Diff.Parse.Headers.{hunk_header, new_hunk_range-header}

-- Paths without a quote reach no conversion of bytes.
abbrev no_bytes : String → List ℕ
no_bytes text = []

abbrev no_text : List ℕ → String
no_text bytes = ""

abbrev hunks : String
hunks =
    "diff --git a/pkg/mod.py b/pkg/mod.py\nindex 111..222 100644\n--- a/pkg/mod.py\n+++ b/pkg/mod.py\n@@ -10,0 +11,3 @@\n@@ -20,1 +23,1 @@\n"

hunks-test :
    parse_unified no_bytes no_text hunks
    ≡ record { path = some "pkg/mod.py"; ranges = (11, 13) ∷ (23, 23) ∷ []; removed = [] } ∷ []
unfolding parse_unified parse_sections parse_section read_lines split_sections new_file_path
    new_hunk_range strip_prefix until after trim_start trim_end is_whitespace lines_from
    strip_return parse_usize parse_unsigned parse_digits
hunks-test = refl

abbrev deletions : String
deletions =
    "diff --git a/gone.py b/gone.py\n--- a/gone.py\n+++ /dev/null\n@@ -1,1 +0,0 @@\n-import keep\n"

-- A deleted file has no path, and a pure deletion no range.
deletions-test :
    parse_unified no_bytes no_text deletions
    ≡ record { path = none; ranges = []; removed = "import keep" ∷ [] } ∷ []
unfolding parse_unified parse_sections parse_section read_lines split_sections new_file_path
    new_hunk_range strip_prefix until after trim_start trim_end is_whitespace lines_from
    strip_return parse_usize parse_unsigned parse_digits
deletions-test = refl

-- `b/\303\274"` is the quoted name of a file whose first letter takes two bytes.
unquote_bytes-test :
    unquote_bytes plain (98 ∷ 47 ∷ 92 ∷ 51 ∷ 48 ∷ 51 ∷ 92 ∷ 50 ∷ 55 ∷ 52 ∷ 34 ∷ 120 ∷ [])
    ≡ 98 ∷ 47 ∷ 195 ∷ 188 ∷ []
unfolding unquote_bytes escaped
unquote_bytes-test = refl

old-lacks : lacks (is_char 43) " -10,0 " ≡ true
unfolding lacks
old-lacks = refl

-- One line, without a count.
new_hunk_range-header_example :
    new_hunk_range (hunk_header " -10,0 " 11 none " fn main()") ≡ some (11, 11)
new_hunk_range-header_example =
    new_hunk_range-header " -10,0 " " fn main()" 11 none old-lacks (omega arith)

-- A letter of two bytes, a line break and a quote.
abbrev odd_path : List ℕ
odd_path = 98 ∷ 47 ∷ 195 ∷ 188 ∷ 10 ∷ 34 ∷ []

quote-test :
    quote odd_path ≡ 98 ∷ 47 ∷ 92 ∷ 51 ∷ 48 ∷ 51 ∷ 92 ∷ 50 ∷ 55 ∷ 52 ∷ 92 ∷ 110 ∷ 92 ∷ 34 ∷ []
unfolding quote
quote-test = refl

unquote_bytes-quote_example : unquote_bytes plain (quote odd_path ++ 34 ∷ 120 ∷ []) ≡ odd_path
unquote_bytes-quote_example =
    unquote_bytes-quote odd_path (120 ∷ [])
      (omega arith, (omega arith, (omega arith, (omega arith, (omega arith, (omega arith, tt))))))
