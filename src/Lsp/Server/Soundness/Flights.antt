-- ===== src/Lsp/Server/Soundness/Flights.antt =====
-- The list of threads under `spawn` and `land`, and freshness under a write to the map.
use sensez.Prelude.{
  ℕ, ◌+◌, ◌≡◌, String, Bool, true, List, [], ◌∷◌, arith, insert, count, any, string_eq, nat_eq,
  ◌==◌, ◌&&◌, lookup-insert, if◌then◌else◌,
}
use sensez.Lsp.Schedule.{Workspace, Workspaces}
use sensez.Lsp.Server.{land}
use sensez.Lsp.Server.Soundness.{flights, AllFresh}

-- The thread of `root` at `generation` is among those in flight.
unfoldable pub flies : String → ℕ → List (String × ℕ) → Bool
flies root generation fl = any (λ (k, g). k == root && g == generation) fl

pub flights-land :
    (j k : String) (g : ℕ) (fl : List (String × ℕ))
    → flies k g fl ≡ true
    → flights j (land k g fl) + (if k == j then 1 else 0) ≡ flights j fl
unfolding flies any land count
flights-land j k g [] h = ground arith
flights-land j k g ((i, h') ∷ fl) h = ground (
  arith,
  flights-land j k g fl,
  string_eq.decides i k,
  string_eq.decides k j,
  string_eq.decides i j,
)

pub AllFresh-land :
    (m : Workspaces) (k : String) (g : ℕ) (fl : List (String × ℕ))
    → AllFresh m fl
    → AllFresh m (land k g fl)
unfolding land
AllFresh-land m k g [] h = tt
AllFresh-land m k g ((i, h') ∷ fl) h = ground (arith, AllFresh-land m k g fl h.1)

-- A write to a workspace with no thread leaves all threads fresh.
pub AllFresh-insert_absent :
    (m : Workspaces) (k : String) (w : Workspace) (fl : List (String × ℕ))
    → flights k fl ≡ 0
    → AllFresh m fl
    → AllFresh (insert k w m) fl
unfolding count
AllFresh-insert_absent m k w [] e h = tt
AllFresh-insert_absent m k w ((i, g) ∷ fl) e h = (
  rw (lookup-insert i k w m) ground (arith, string_eq.decides k i, string_eq.decides i k),
  AllFresh-insert_absent m k w fl (ground arith) h.1,
)

-- So does a write that marks the workspace as waiting.
pub AllFresh-insert_pending :
    (m : Workspaces) (k : String) (w : Workspace) (fl : List (String × ℕ))
    → w.pending ≡ true
    → AllFresh m fl
    → AllFresh (insert k w m) fl
AllFresh-insert_pending m k w [] e h = tt
AllFresh-insert_pending m k w ((i, g) ∷ fl) e h =
    (rw (lookup-insert i k w m) ground arith, AllFresh-insert_pending m k w fl e h.1)
