-- ===== src/DeadCode/Classes/Pass.antt =====
-- src/noze/dead_code/class_entrypoints.rs: what one pass over the classes adds.
use sensez.Prelude.{
  ◌≡◌, refl, ap, String, Bool, true, false, List, [], ◌∷◌, any, contains, add, string_eq, arith,
  contains-add, Bool-cases, inl, inr, ==_self,
}
use mathlib.Core.List.{Memᴰ}
use sensez.DeadCode.Classes.{is_dynamic_base, add_from}

module _ (root_bases : List String) where
  pub contains-add_from :
      (todo : List (String × List String)) (live : List String) (added : Bool) (c : String)
      → contains c live ≡ true
      → contains c (add_from root_bases todo live added).0 ≡ true
  unfolding add_from
  contains-add_from [] live added c h = h
  contains-add_from ((class, bases) ∷ rest) live added c h = ground (
    arith,
    contains-add_from rest live added c h,
    contains-add c class live,
    h,
    contains-add_from rest (add class live) true c,
  )

  abbrev pub depends : List String → List String → Bool
  depends live bases = any (λ base. is_dynamic_base root_bases base live) bases

  add_from-true :
      (todo : List (String × List String)) (live : List String)
      → (add_from root_bases todo live true).1 ≡ true
  unfolding add_from
  add_from-true [] live = refl
  add_from-true ((class, bases) ∷ rest) live =
      ground (arith, add_from-true rest live, add_from-true rest (add class live))

  -- A pass that adds nothing leaves the set as it is.
  pub add_from-same :
      (todo : List (String × List String)) (live : List String)
      → (add_from root_bases todo live false).1 ≡ false
      → (add_from root_bases todo live false).0 ≡ live
  unfolding add_from
  add_from-same [] live h = refl
  add_from-same ((class, bases) ∷ rest) live h =
      ground (arith, add_from-same rest live, add_from-true rest (add class live), h)

  -- Such a pass found no class outside the set with a dynamic base.
  pub add_from-closed :
      (todo : List (String × List String)) (live : List String) (class : String)
      (bases : List String)
      → (add_from root_bases todo live false).1 ≡ false
      → Memᴰ (class, bases) todo
      → depends live bases ≡ true
      → contains class live ≡ true
  unfolding add_from
  add_from-closed [] live class bases h m d = elim m [ ]
  add_from-closed ((c, bs) ∷ rest) live class bases h (Memᴰ.head e) d =
      let same = ap (λ z. contains z.0 live) e in
      let base = ap (λ z. depends live z.1) e in
      ground (arith, same, base, d, h, add_from-true rest (add c live))
  add_from-closed ((c, bs) ∷ rest) live class bases h (Memᴰ.tail m) d =
      ground
        (arith, h, d, add_from-closed rest live class bases, m, add_from-true rest (add c live))

  -- A pass that adds something added a class of its list.
  pub add_from-grows :
      (todo : List (String × List String)) (live : List String)
      → (add_from root_bases todo live false).1 ≡ true
      → (entry : String × List String) × Memᴰ entry todo
        × (contains entry.0 live ≡ false)
        × (contains entry.0 (add_from root_bases todo live false).0 ≡ true)
  unfolding add_from
  add_from-grows [] live h = absurd (ground (arith, h))
  add_from-grows ((c, bs) ∷ rest) live h = elim (Bool-cases (contains c live)) [
    | inl there ↦
        let (e, m, out, in_) = add_from-grows rest live (ground (arith, h, there)) in
        (e, Memᴰ.tail m, out, ground (arith, in_, there))
    | inr new ↦ elim (Bool-cases (depends live bs)) [
      | inl dyn ↦ (
        (c, bs),
        Memᴰ.head refl,
        new,
        ground (
          arith,
          new,
          dyn,
          contains-add c c live,
          ==_self c,
          contains-add_from rest (add c live) true c,
        ),
      )
      | inr free ↦
          let (e, m, out, in_) = add_from-grows rest live (ground (arith, h, new, free)) in
          (e, Memᴰ.tail m, out, ground (arith, in_, new, free))
    ]
  ]
