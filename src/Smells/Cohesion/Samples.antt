-- ===== src/Smells/Cohesion/Samples.antt =====
-- A class of four methods, two that share an attribute and two of which one calls the other.
use sensez.Prelude.{
  ℕ, ◌<◌, ◌≡◌, ◌↔◌, refl, some, List, [], ◌∷◌, count, nat_beq, map, any, contains, decimal, ◌>>=◌,
  insert, lookup, retain, join, String,
}
use sensez.DeadCode.Classes.Segment.{last_segment, segment_from}
use sensez.Smells.UnionFind.{find_root, find_loop, union}
use sensez.Smells.Clusters.{Linked, range}
use sensez.Smells.Cohesion.{
  ClassUnit, detect, divergent_change_of, lcom_components, link_methods, link_attrs, link_calls,
  position, count_roots, stateful_methods, is_data_base, make,
}
use sensez.Smells.Cohesion.Linking.{Related}
use sensez.Smells.Cohesion.Counting.{lcom_components-groups}

abbrev shop : ClassUnit
shop = record {
  name = "Shop";
  start_line = 3;
  bases = "abc.ABC" ∷ [];
  implements = [];
  method_attr_use =
      ("pay", "till" ∷ [])
      ∷ ("refund", "log" ∷ "till" ∷ [])
      ∷ ("tax", [])
      ∷ ("open", "door" ∷ [])
      ∷ ("close", "key" ∷ [])
      ∷ [];
  method_calls = ("close", "open" ∷ "tax" ∷ []) ∷ [];
}

abbrev methods : List String
methods = "pay" ∷ "refund" ∷ "open" ∷ "close" ∷ []

lcom_components-test : lcom_components shop (stateful_methods shop) ≡ some 2
unfolding lcom_components stateful_methods link_methods link_attrs link_calls position count_roots
    find_root find_loop union range insert lookup retain
lcom_components-test = refl

detect-test :
    (detect "shop.py" (shop ∷ [])
      >>= (λ fs. some (map {B = String × ℕ} (λ f. (f.message, f.metric)) fs)))
    ≡ some
        (("class splits into 2 cohesion clusters (low LCOM) — prone to divergent change", 2) ∷ [])
unfolding detect divergent_change_of is_data_base last_segment segment_from lcom_components
    stateful_methods link_methods link_attrs link_calls position count_roots find_root find_loop
    union range insert lookup retain contains decimal join make any
detect-test = refl

lcom_components-groups_example :
    (group : ℕ → ℕ) × ((x y : ℕ)
      → x < 4
      → y < 4
      → (group x ≡ group y) ↔ Linked (Related shop methods) x y)
    × ((x : ℕ) → x < 4 → (group x < 4) × (group (group x) ≡ group x))
    × (lcom_components shop methods ≡ some (count (λ x. nat_beq (group x) x) (range 0 4)))
lcom_components-groups_example = lcom_components-groups shop methods
