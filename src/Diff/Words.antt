-- ===== src/Diff/Words.antt =====
-- The words of src/diff/mod.rs: `split` at the characters that are in no identifier, without the
-- empty pieces, and the piece behind the last `.` or `:`.
use Prim.Native.Char.{Char, code}
use Prim.Native.String.{String, [], ◌∷◌, ◌++◌}
use mathlib.Core.Path.{◌≡◌, refl}
use mathlib.Core.Bool.{Bool, true, false, ◌||◌}
use mathlib.Core.List.{List}
use sensez.Prelude.{if◌then◌else◌, nat_beq, ℕ}
use sensez.Diff.Words.Pieces.{no_words, emit}
pub mod Pieces

split_loop : (Char → Bool) → String → String → List String
split_loop is_ident piece [] = emit piece no_words
split_loop is_ident piece (c ∷ text) =
    let inside = split_loop is_ident (piece ++ c ∷ []) text in
    let outside = split_loop is_ident [] text in if is_ident c then inside else emit piece outside

unfoldable pub split_words : (Char → Bool) → String → List String
unfolding split_loop
split_words is_ident text = split_loop is_ident [] text

segment_loop : String → String → String
segment_loop piece [] = piece
segment_loop piece (c ∷ text) =
    let more = segment_loop (piece ++ c ∷ []) text in
    let afresh = segment_loop [] text in
    if nat_beq (code c) 46 || nat_beq (code c) 58 then afresh else more

unfoldable pub last_segment : String → String
unfolding segment_loop
last_segment symbol = segment_loop [] symbol

last_segment-test : last_segment "pkg.mod::name" ≡ "name"
unfolding last_segment
last_segment-test = refl
