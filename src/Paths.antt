-- ===== src/Paths.antt =====
-- `Path::components` of the standard library on Unix, and the order of paths, which src/lsp/schedule.rs
-- keys its map by.
mod Lists
pub mod Segments
use sensez.Prelude.{
  String, ◌≡◌, refl, Bool, true, false, not, ◌||◌, ◌&&◌, List, [], ◌∷◌, if◌then◌else◌, string_eq,
  ◌==◌, retain, str_before,
}
use sensez.Paths.Segments.{segments}

-- Empty segments and all but a leading `.` are left out.
unfoldable pub parts : List String → List String
parts [] = []
parts (first ∷ rest) =
    let later = retain (λ s. not (s == "" || s == ".")) rest in
    if first == "" then later else first ∷ later

-- The root is a component: an empty segment before the first slash.
unfoldable pub components_of : List String → List String
components_of [] = []
components_of (first ∷ []) = parts (first ∷ [])
components_of (first ∷ second ∷ rest) =
    let found = parts (first ∷ second ∷ rest) in if first == "" then "/" ∷ found else found

unfoldable pub components : String → List String
components path = components_of (segments "" path)

-- Paths are compared by their components, and those by their text, as the standard library does for
-- absolute paths without `..`.
unfoldable pub comes_before : List String → List String → Bool
comes_before [] [] = false
comes_before [] (t ∷ ts) = true
comes_before (s ∷ ss) [] = false
comes_before (s ∷ ss) (t ∷ ts) =
    let later = comes_before ss ts in if s == t then later else str_before s t

unfoldable pub path_before : String → String → Bool
path_before a b = comes_before (components a) (components b)

components-test : components "/repo/core/./v2//" ≡ "/" ∷ "repo" ∷ "core" ∷ "v2" ∷ []
unfolding components components_of segments parts retain
components-test = refl

-- The slash comes first, though its character does not.
path_before-test : path_before "/a/c" "/a-b" ≡ true
unfolding path_before comes_before components components_of segments parts retain str_before
path_before-test = refl
