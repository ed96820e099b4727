-- ===== src/Brainz/Triage/Search.antt =====
-- `str::contains`: whether one text stands anywhere in another.
use Prim.Native.Char.{code}
use Prim.Native.String.{String, [], ◌∷◌}
use mathlib.Core.Path.{◌≡◌, refl}
use mathlib.Core.Bool.{Bool, true, false, ◌||◌, ◌&&◌}
use sensez.Prelude.{nat_beq}

unfoldable pub starts_with : (prefix text : String) → Bool
starts_with [] text = true
starts_with (c ∷ prefix) [] = false
starts_with (c ∷ prefix) (d ∷ text) = nat_beq (code c) (code d) && starts_with prefix text

unfoldable pub contains_text : (part text : String) → Bool
contains_text part [] = starts_with part []
contains_text part (c ∷ text) = starts_with part (c ∷ text) || contains_text part text

contains_text-test : contains_text "orphan" "app::orphan (function)" ≡ true
unfolding contains_text starts_with
contains_text-test = refl
