-- ===== src/Diff/Parse/Hunks.antt =====
-- What src/diff/parse.rs reads from the header of a hunk.
use Prim.Native.Char.{Char}
use Prim.Native.String.{String, [], ◌∷◌, ◌++◌}
use mathlib.Core.Path.{◌≡◌, refl, ap, ◌∙◌}
use mathlib.Core.Bool.{Bool, true, false, ◌&&◌}
use mathlib.Core.Option.{none}
use native.Mathlib.Omega.{arith}
use text.Mathlib.TextLemmas.{nil-append, cons-append}
use sensez.Prelude.{if◌then◌else◌, string_eq}
use sensez.Diff.Parse.Text.{until, after, is_whitespace, trim, trim_start, trim_end}

-- No character of the text satisfies `p`.
unfoldable pub lacks : (Char → Bool) → String → Bool
lacks p [] = true
lacks p (c ∷ text) = let rest = lacks p text in if p c then false else rest

pub until-append :
    (p : Char → Bool) (text more : String)
    → lacks p text ≡ true
    → until p (text ++ more) ≡ text ++ until p more
unfolding until lacks
until-append p [] more h = rw (nil-append more) (rw (nil-append (until p more)) refl)
until-append p (c ∷ text) more h =
    rw (cons-append c text more)
      (rw (cons-append c text (until p more)) (ground (arith, until-append p text more)))

pub after-append :
    (p : Char → Bool) (text more : String)
    → lacks p text ≡ true
    → after p (text ++ more) ≡ after p more
unfolding after lacks
after-append p [] more h = ap (after p) (nil-append more)
after-append p (c ∷ text) more h =
    rw (cons-append c text more) (ground (arith, after-append p text more))

pub after-lacks : (p : Char → Bool) (text : String) → lacks p text ≡ true → after p text ≡ none
unfolding after lacks
after-lacks p [] h = refl
after-lacks p (c ∷ text) h = ground (arith, after-lacks p text)

pub lacks-append :
    (p : Char → Bool) (text more : String) → lacks p (text ++ more) ≡ (lacks p text && lacks p more)
unfolding lacks
lacks-append p [] more = ap (lacks p) (nil-append more)
lacks-append p (c ∷ text) more =
    rw (cons-append c text more) (ground (arith, lacks-append p text more))

pub lacks_weaker :
    (p q : Char → Bool) (text : String)
    → ((c : Char) → p c ≡ true → q c ≡ true)
    → lacks q text ≡ true
    → lacks p text ≡ true
unfolding lacks
lacks_weaker p q [] h k = refl
lacks_weaker p q (c ∷ text) h k = ground (arith, h c, lacks_weaker p q text h)

start_lacks : (text : String) → lacks is_whitespace text ≡ true → trim_start text ≡ text
unfolding lacks trim_start
start_lacks [] h = refl
start_lacks (c ∷ text) h = ground arith

end_lacks : (text : String) → lacks is_whitespace text ≡ true → trim_end text ≡ text
unfolding lacks trim_end
end_lacks [] h = refl
end_lacks (c ∷ text) h = ground (arith, end_lacks text)

pub trim-lacks : (text : String) → lacks is_whitespace text ≡ true → trim text ≡ text
trim-lacks text h = ap trim_end (start_lacks text h) ∙ end_lacks text h
