-- ===== src/Diff/Words/Pieces.antt =====
-- The list of pieces: `filter(|word| !word.is_empty())`.
use Prim.Native.String.{String}
use mathlib.Core.List.{List, [], ◌∷◌}
use sensez.Prelude.{if◌then◌else◌, ◌==◌, string_eq}

abbrev pub no_words : List String
no_words = []

abbrev pub emit : String → List String → List String
emit piece words = if piece == "" then words else piece ∷ words

abbrev pub push_line : String → List String → List String
push_line line lines = line ∷ lines
