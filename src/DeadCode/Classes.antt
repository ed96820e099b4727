-- ===== src/DeadCode/Classes.antt =====
-- src/noze/dead_code/class_entrypoints.rs: the classes that a framework creates, because they
-- inherit from a configured base, directly or through another class of the file.
pub mod Segment
pub mod Pass
pub mod Fixpoint
use sensez.Prelude.{
  ℕ, zero, suc, String, Bool, true, false, ◌||◌, Option, none, some, List, [], ◌∷◌, any, length,
  contains, add, string_eq, if◌then◌else◌,
}
use sensez.DeadCode.Classes.Segment.{last_segment}

module _ (root_bases : List String) where
  unfoldable pub is_dynamic_base : String → List String → Bool
  is_dynamic_base base live =
      contains (last_segment base) live
      || (contains (last_segment base) root_bases || contains base root_bases)

  -- The `for` loop of `add_dynamic_classes`.
  unfoldable pub add_from : List (String × List String) → List String → Bool → List String × Bool
  add_from [] live added = (live, added)
  add_from ((class, bases) ∷ rest) live added =
      let skip = add_from rest live added in
      let grow = add_from rest (add class live) true in
      if contains class live
      then skip
      else if any (λ base. is_dynamic_base base live) bases
      then grow
      else skip

  unfoldable pub add_dynamic_classes :
      List (String × List String) → List String → List String × Bool
  add_dynamic_classes class_bases live = add_from class_bases live false

  -- The `while`; `none` means that the fuel ran out.
  unfoldable pub grow_live : ℕ → List (String × List String) → List String → Option (List String)
  grow_live zero class_bases live = none
  grow_live (suc fuel) class_bases live =
      let (live', added) = add_dynamic_classes class_bases live in
      let again = grow_live fuel class_bases live' in if added then again else some live'

  -- Every pass but the last adds a class.
  unfoldable pub dynamic_classes : List (String × List String) → Option (List String)
  dynamic_classes class_bases = grow_live (suc (length class_bases)) class_bases []
