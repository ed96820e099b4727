-- ===== src/Diff/Ranges.antt =====
-- src/diff/mod.rs: what one more range does to `touches`.
use sensez.Prelude.{
  ℕ, ◌≡◌, ◌∙◌, refl, sym, ap, String, Bool, false, ◌&&◌, ◌||◌, Option, none, some, List, [], ◌∷◌,
  ◌++◌, any, leb, lookup, unwrap_or, string_eq, ◌==◌, arith, lookup-upsert, Bool-cases,
  Option-cases, inl, inr,
}
use sensez.Diff.{ChangedLines, touches, add_range}

any-append :
    {A : Type 0} (p : A → Bool) (xs ys : List A) → any p (xs ++ ys) ≡ (any p xs || any p ys)
unfolding any
any-append p [] ys = refl
any-append p (x ∷ xs) ys = ground (arith, any-append p xs ys)

touched : Option (List (ℕ × ℕ)) → ℕ → ℕ → Bool
touched none start end = false
touched (some ranges) start end = any (λ (a, b). leb start b && leb a end) ranges

touched-push :
    (o : Option (List (ℕ × ℕ))) (lo hi start end : ℕ)
    → touched (some (unwrap_or o [] ++ (lo, hi) ∷ [])) start end
      ≡ (touched o start end || (leb start hi && leb lo end))
unfolding touched any
touched-push none lo hi start end = ground arith
touched-push (some ranges) lo hi start end =
    any-append (λ (a, b). leb start b && leb a end) ranges ((lo, hi) ∷ []) ∙ ground arith

touches-touched :
    (canon : String → String) (c : ChangedLines) (f : String) (start end : ℕ)
    → touches canon c f start end ≡ touched (lookup (canon f) c.files) start end
unfolding touches touched
touches-touched canon c f start end = elim (Option-cases (lookup (canon f) c.files)) [
  | inl e ↦ ground arith
  | inr (r, e) ↦ ground arith
]

-- A location is touched after a range was recorded exactly if it was touched before or lies in the
-- same file, by its canonical path, and overlaps the range.
pub touches-add_range :
    (canon : String → String) (c : ChangedLines) (file f : String) (lo hi start end : ℕ)
    → touches canon (add_range canon file lo hi c) f start end
      ≡ (touches canon c f start end || canon file == canon f && (leb start hi && leb lo end))
unfolding add_range
touches-add_range canon c file f lo hi start end =
    let here = lookup (canon f) c.files in
    let there = lookup (canon file) c.files in
    let e = lookup-upsert (canon f) (canon file) [] (λ ranges. ranges ++ (lo, hi) ∷ []) c.files in
    let opened = touches-touched canon c f start end in
    touches-touched canon (add_range canon file lo hi c) f start end
    ∙ (ap (λ o. touched o start end) e ∙ (elim (Bool-cases (canon file == canon f)) [
      | inl same ↦
          let path = (string_eq.decides (canon file) (canon f)).0 same in
          rw same (
            touched-push there lo hi start end
            ∙ ground (arith, opened, ap (λ z. touched (lookup z c.files) start end) path))
      | inr differs ↦ rw differs (sym opened ∙ ground arith)
    ]))
