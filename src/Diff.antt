-- ===== src/Diff.antt =====
-- The diff component, src/diff: which lines a change touched, and the findings it is responsible
-- for. `canon` is the file system's canonical form of a path; the table of its past answers is
-- left out.
pub mod Words
pub mod Parse
pub mod Filter
pub mod Ranges
pub mod Monotone
mod Samples
use Prim.Native.Char.{Char}
use sensez.Prelude.{
  ℕ, ◌-◌, ◌^◌, String, Bool, true, false, ◌&&◌, Option, none, some, List, [], ◌∷◌, ◌++◌, lookup,
  upsert, contains, add, any, leb, is_some, string_eq,
}
use sensez.Diff.Words.{split_words, last_segment}

pub record ChangedLines : Type 0 where
  pub files : List (String × List (ℕ × ℕ))
  pub removed_names : List String

-- `usize::MAX` on a 64-bit machine.
abbrev pub usize_max : ℕ
usize_max = 2 ^ 64 - 1

unfoldable pub extend_names : List String → List String → List String
extend_names [] names = names
extend_names (w ∷ ws) names = extend_names ws (add w names)

-- `is_ident` is `is_ident_char` of the language of the removed text.
unfoldable pub add_removed_text : (is_ident : Char → Bool) → String → ChangedLines → ChangedLines
add_removed_text is_ident text c = record c {
  removed_names = extend_names (split_words is_ident text) c.removed_names;
}

unfoldable pub removed_mentions : ChangedLines → String → Bool
removed_mentions c symbol = contains (last_segment symbol) c.removed_names

unfoldable pub is_empty : ChangedLines → Bool
is_empty c = elim c.files [
  | [] ↦ elim c.removed_names [ [] ↦ true | _ ∷ _ ↦ false ]
  | _ ∷ _ ↦ false
]

module _ (canon : String → String) where
  -- `ChangedLines::add`
  unfoldable pub add_range : String → ℕ → ℕ → ChangedLines → ChangedLines
  add_range file lo hi c = record c {
    files = upsert (canon file) [] (λ ranges. ranges ++ (lo, hi) ∷ []) c.files;
  }

  unfoldable pub add_full_file : String → ChangedLines → ChangedLines
  add_full_file file c = add_range file 1 usize_max c

  unfoldable pub touches : ChangedLines → String → ℕ → ℕ → Bool
  touches c file lo hi = elim (lookup (canon file) c.files) [
    | none ↦ false
    | some ranges ↦ any (λ (a, b). leb lo b && leb a hi) ranges
  ]

  unfoldable pub touches_file : ChangedLines → String → Bool
  touches_file c file = is_some (lookup (canon file) c.files)
