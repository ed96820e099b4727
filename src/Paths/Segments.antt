-- ===== src/Paths/Segments.antt =====
-- The texts between the slashes of a path.
use Prim.Native.Char.{code}
use Prim.Native.String.{String, [], ◌∷◌, ◌++◌}
use sensez.Prelude.{List, nat_beq, if◌then◌else◌}
use sensez.Paths.Lists.{one, prepend}

unfoldable pub segments : String → String → List String
segments piece [] = one piece
segments piece (c ∷ text) =
    let next = prepend piece (segments [] text) in
    let more = segments (piece ++ c ∷ []) text in if nat_beq (code c) 47 then next else more
