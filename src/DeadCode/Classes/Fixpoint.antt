-- ===== src/DeadCode/Classes/Fixpoint.antt =====
-- src/noze/dead_code/class_entrypoints.rs: the set that the passes reach.
use sensez.Prelude.{
  any-Mem, Mem-any, ℕ, zero, suc, ◌<◌, ◌≤◌, ◌≡◌, refl, ap, ◌∙◌, ◌↔◌, String, Bool, true, false, not,
  ◌||◌, some, List, [], ◌∷◌, count, length, contains, add, string_eq, arith, contains-add,
  Bool-cases, inl, inr, ◌==◌,
}
use mathlib.Core.List.{Memᴰ}
use mathlib.Core.Path.{subst}
use sensez.DeadCode.Classes.Segment.{last_segment}
use sensez.DeadCode.Classes.{
  is_dynamic_base, add_from, add_dynamic_classes, grow_live, dynamic_classes,
}
use sensez.DeadCode.Classes.Pass.{
  contains-add_from, depends, add_from-same, add_from-closed, add_from-grows,
}

-- A class of the file that has a configured base, or a base that is dynamic itself.
pub data Dynamic (root_bases : List String) (class_bases : List (String × List String))
    : String → Type 0 where
  configured :
      {class base : String} {bases : List String}
      → Memᴰ (class, bases) class_bases
      → Memᴰ base bases
      → (contains (last_segment base) root_bases || contains base root_bases) ≡ true
      → Dynamic root_bases class_bases class
  inherited :
      {class base : String} {bases : List String}
      → Memᴰ (class, bases) class_bases
      → Memᴰ base bases
      → Dynamic root_bases class_bases (last_segment base)
      → Dynamic root_bases class_bases class

module _ (root_bases : List String) (class_bases : List (String × List String)) where
  abbrev IsSubset : List String → Type 0
  IsSubset live = (c : String) → contains c live ≡ true → Dynamic root_bases class_bases c

  entry-Dynamic :
      (live : List String) (class : String) (bases : List String)
      → IsSubset live
      → Memᴰ (class, bases) class_bases
      → depends root_bases live bases ≡ true
      → Dynamic root_bases class_bases class
  unfolding is_dynamic_base
  entry-Dynamic live class bases sub m d =
      let (base, n, e) = any-Mem (λ b. is_dynamic_base root_bases b live) bases d in
      elim (Bool-cases (contains (last_segment base) live)) [
        | inl h ↦ inherited m n (sub (last_segment base) h)
        | inr h ↦ configured m n (ground (arith, e, h))
      ]

  add_from-IsSubset :
      (todo : List (String × List String)) (live : List String) (added : Bool)
      → ((e : String × List String) → Memᴰ e todo → Memᴰ e class_bases)
      → IsSubset live
      → IsSubset (add_from root_bases todo live added).0
  unfolding add_from
  add_from-IsSubset [] live added inside sub = sub
  add_from-IsSubset ((class, bases) ∷ rest) live added inside sub =
      let later = λ (e : String × List String) (m : Memᴰ e rest). inside e (Memᴰ.tail m) in
      let skip = add_from-IsSubset rest live added later sub in
      let more : IsSubset live → depends root_bases live bases ≡ true → IsSubset (add class live) =
        λ s d c h. elim (Bool-cases (class == c)) [
          | inl same ↦
              subst (Dynamic root_bases class_bases) ((string_eq.decides class c).0 same)
                (entry-Dynamic live class bases s (inside (class, bases) (Memᴰ.head refl)) d)
          | inr other ↦ s c (ground (arith, contains-add c class live, h, other))
        ] in
      elim (Bool-cases (contains class live)) [
        | inl there ↦ rw there skip
        | inr new ↦ elim (Bool-cases (depends root_bases live bases)) [
          | inl d ↦ rw new (rw d (add_from-IsSubset rest (add class live) true later (more sub d)))
          | inr d ↦ rw new (rw d skip)
        ]
      ]

count_mono :
    {A : Type 0} (p q : A → Bool) (xs : List A)
    → ((x : A) → q x ≡ true → p x ≡ true)
    → count q xs ≤ count p xs
unfolding count
count_mono p q [] h = omega arith
count_mono p q (x ∷ xs) h = ground (arith, h x, count_mono p q xs h)

count-less :
    {A : Type 0} (p q : A → Bool) (y : A) (xs : List A)
    → ((x : A) → q x ≡ true → p x ≡ true)
    → Memᴰ y xs
    → p y ≡ true
    → q y ≡ false
    → count q xs < count p xs
unfolding count
count-less p q y [] h m a b = elim m [ ]
count-less p q y (x ∷ xs) h (Memᴰ.head e) a b =
    ground (arith, ap p e, ap q e, a, b, count_mono p q xs h)
count-less p q y (x ∷ xs) h (Memᴰ.tail m) a b = ground (arith, h x, count-less p q y xs h m a b)

count-length : {A : Type 0} (p : A → Bool) (xs : List A) → count p xs ≤ length xs
unfolding count
count-length p [] = omega arith
count-length p (x ∷ xs) = ground (arith, count-length p xs)

module _ (root_bases : List String) (class_bases : List (String × List String)) where
  absent : List String → ℕ
  absent live = count (λ (c, _). not (contains c live)) class_bases

  closed :
      (live : List String)
      → (add_from root_bases class_bases live false).1 ≡ false
      → (c : String) → Dynamic root_bases class_bases c
      → contains c live ≡ true
  unfolding is_dynamic_base
  closed live still c (configured {base} {bases} m n e) =
      add_from-closed root_bases class_bases live c bases still m
        (Mem-any (λ b. is_dynamic_base root_bases b live) bases base n (ground (arith, e)))
  closed live still c (inherited {base} {bases} m n d) =
      let below = closed live still (last_segment base) d in
      add_from-closed root_bases class_bases live c bases still m
        (Mem-any (λ b. is_dynamic_base root_bases b live) bases base n (ground (arith, below)))

  fewer :
      (live : List String)
      → (add_from root_bases class_bases live false).1 ≡ true
      → absent (add_from root_bases class_bases live false).0 < absent live
  unfolding absent
  fewer live grown =
      let live' = (add_from root_bases class_bases live false).0 in
      let (e, m, out, in_) = add_from-grows root_bases class_bases live grown in
      count-less (λ (c, _). not (contains c live)) (λ (c, _). not (contains c live')) e class_bases
        (λ x h. ground (arith, h, contains-add_from root_bases class_bases live false x.0)) m
        (ground (arith, out)) (ground (arith, in_))

  grow_live-Dynamic :
      (fuel : ℕ) (live : List String)
      → absent live < fuel
      → IsSubset root_bases class_bases live
      → (t : List String) × (grow_live root_bases fuel class_bases live ≡ some t)
        × ((c : String) → (contains c t ≡ true) ↔ Dynamic root_bases class_bases c)
  unfolding grow_live add_dynamic_classes
  grow_live-Dynamic zero live small sub = absurd (omega arith)
  grow_live-Dynamic (suc fuel) live small sub =
      let pass = add_from root_bases class_bases live false in
      let next = add_from-IsSubset root_bases class_bases class_bases live false (λ e m. m) sub in
      elim (Bool-cases pass.1) [
        | inl grown ↦
            let (t, ends, iff) =
              grow_live-Dynamic fuel pass.0 (omega (arith, fewer live grown)) next in
            (t, ground (arith, grown, ends), iff)
        | inr still ↦ (
          pass.0,
          ground (arith, still),
          λ c. (
            next c,
            λ d.
                ap (contains c) (add_from-same root_bases class_bases live still)
                ∙ closed live still c d,
          ),
        )
      ]

  -- The passes end, within one more than there are classes, and return a class exactly if it has a
  -- configured base, by its full or its short name, or a base whose short name is such a class.
  pub dynamic_classes-Dynamic :
      (t : List String) × (dynamic_classes root_bases class_bases ≡ some t)
      × ((c : String) → (contains c t ≡ true) ↔ Dynamic root_bases class_bases c)
  unfolding dynamic_classes absent contains
  dynamic_classes-Dynamic =
      let few = count-length (λ (c, _). not (contains c [])) class_bases in
      grow_live-Dynamic (suc (length class_bases)) [] (omega (arith, few))
        (λ c h. absurd (ground (arith, h)))
