-- ===== src/Lsp/Server/Soundness/Steps.antt =====
-- Each kind of write to the state keeps it tracked.
use sensez.Prelude.{
  ℕ, ◌<◌, ◌≡◌, refl, ◌∙◌, String, true, false, some, List, ◌∷◌, arith, lookup, insert, count,
  string_eq, lookup-insert, insert-IsKeyed, inl, ==_self,
}
use sensez.Lsp.Schedule.{Workspace, Workspaces, running, max_concurrent_scans}
use sensez.Lsp.Schedule.Counting.{runs, running-insert}
use sensez.Lsp.Server.{land}
use sensez.Lsp.Server.Soundness.{flights, IsTracked}
use sensez.Lsp.Server.Soundness.Flights.{
  flies, flights-land, AllFresh-land, AllFresh-insert_absent, AllFresh-insert_pending,
}

module _ {m : Workspaces} {fl : List (String × ℕ)} (t : IsTracked m fl) (k : String) (w : Workspace)
    (path : w.path ≡ k) where
  named-insert : (j : String) (v : Workspace) → lookup j (insert k w m) ≡ some v → v.path ≡ j
  named-insert j v h = ground (arith, lookup-insert j k w m, string_eq.decides k j, t.named j v)

  -- A scan starts in a free slot.
  pub start-IsTracked :
      runs (lookup k m) ≡ 0
      → running m < max_concurrent_scans
      → w.running ≡ true
      → IsTracked (insert k w m) ((k, w.generation) ∷ fl)
  unfolding count
  start-IsTracked idle room on = record {
    keyed = insert-IsKeyed k w m t.keyed;
    named = named-insert;
    capacity = ground (arith, running-insert k w m);
    flown = λ j. ground (arith, lookup-insert j k w m, t.flown j, string_eq.decides k j);
    fresh = (
      rw (lookup-insert k k w m) (rw (==_self k) (inl refl)),
      AllFresh-insert_absent m k w fl (t.flown k ∙ idle) t.fresh,
    );
  }

  -- A workspace is marked as waiting.
  pub hold-IsTracked :
      runs (some w) ≡ runs (lookup k m) → w.pending ≡ true → IsTracked (insert k w m) fl
  hold-IsTracked same waits = record {
    keyed = insert-IsKeyed k w m t.keyed;
    named = named-insert;
    capacity = omega (arith, running-insert k w m, t.capacity);
    flown = λ j. ground (arith, lookup-insert j k w m, t.flown j, string_eq.decides k j);
    fresh = AllFresh-insert_pending m k w fl waits t.fresh;
  }

  -- A thread of a known workspace comes back.
  pub stop-IsTracked :
      (g : ℕ) → flies k g fl ≡ true → w.running ≡ false → IsTracked (insert k w m) (land k g fl)
  stop-IsTracked g flew off =
      let landed = λ (j : String). flights-land j k g fl flew in
      let still = landed k in
      let none_left : flights k (land k g fl) ≡ 0 = ground (arith, still, ==_self k, t.flown k) in
      record {
        keyed = insert-IsKeyed k w m t.keyed;
        named = named-insert;
        capacity = ground (arith, running-insert k w m, t.capacity);
        flown = λ j.
            ground
              (arith, lookup-insert j k w m, t.flown j, landed j, string_eq.decides k j, none_left);
        fresh = AllFresh-insert_absent m k w _ none_left (AllFresh-land m k g fl t.fresh);
      }
