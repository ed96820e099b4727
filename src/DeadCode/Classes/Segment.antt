-- ===== src/DeadCode/Classes/Segment.antt =====
-- `last_segment` of src/profiles/node_query.rs: the text after the last `.`.
use Prim.Native.Char.{code}
use Prim.Native.String.{String, [], ◌∷◌, ◌++◌}
use mathlib.Core.Path.{◌≡◌, refl}
use sensez.Prelude.{if◌then◌else◌, nat_beq}

unfoldable pub segment_from : String → String → String
segment_from piece [] = piece
segment_from piece (c ∷ path) =
    let dot = segment_from [] path in
    let other = segment_from (piece ++ c ∷ []) path in if nat_beq (code c) 46 then dot else other

unfoldable pub last_segment : String → String
last_segment path = segment_from [] path

last_segment-test : last_segment "pkg.mod.Name" ≡ "Name"
unfolding last_segment segment_from
last_segment-test = refl
