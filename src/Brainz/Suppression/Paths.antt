-- ===== src/Brainz/Suppression/Paths.antt =====
-- `is_under` of src/brainz/suppression.rs.
use sensez.Prelude.{
  String, ◌≡◌, refl, Bool, true, false, ◌||◌, ◌&&◌, List, [], ◌∷◌, string_eq, ◌==◌, retain,
}
use sensez.Paths.{components, components_of, parts}
use sensez.Paths.Segments.{segments}

unfoldable pub is_start : List String → List String → Bool
is_start [] file = true
is_start (s ∷ pattern) [] = false
is_start (s ∷ pattern) (t ∷ file) = s == t && is_start pattern file

-- `windows(n).any(|window| window == pattern)`
unfoldable pub has_window : List String → List String → Bool
has_window pattern [] = is_start pattern []
has_window pattern (t ∷ file) = is_start pattern (t ∷ file) || has_window pattern file

unfoldable pub is_under : String → String → Bool
is_under file pattern = elim (components pattern) [
  | [] ↦ false
  | s ∷ rest ↦ has_window (s ∷ rest) (components file)
]

is_under-test : is_under "/repo/core/./forkv2//util.ts" "forkv2/" ≡ true
unfolding is_under components components_of segments parts retain has_window is_start
is_under-test = refl

-- Whole components only.
part-test : is_under "forkv2/util.ts" "v2/" ≡ false
unfolding is_under components components_of segments parts retain has_window is_start
part-test = refl
