-- ===== src/Paths/Lists.antt =====
-- The lists of segments, where text has the names of their constructors.
use sensez.Prelude.{String, List, [], ◌∷◌}

abbrev pub one : String → List String
one piece = piece ∷ []

abbrev pub prepend : String → List String → List String
prepend piece rest = piece ∷ rest
