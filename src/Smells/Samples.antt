-- ===== src/Smells/Samples.antt =====
-- The union-find of src/noze/smells/union_find.rs at work on four nodes.
use sensez.Prelude.{ℕ, zero, suc, ◌≡◌, refl, some, List, [], ◌∷◌, arith}
use sensez.Smells.UnionFind.{find_loop, find_root, union}
use sensez.Smells.UnionFind.Rooted.{Rooted, root, up, roots, is_root}
use sensez.Smells.UnionFind.Finding.{IsForest, Keeps, find_root-root}
use sensez.Smells.UnionFind.Merging.{Joins, union-Joins}

-- 0 hangs below 1, and 1 below 2.
abbrev chain : List ℕ
chain = 1 ∷ 2 ∷ 2 ∷ 3 ∷ []

-- Path halving writes the grandparent.
find_root-test : find_root chain 0 ≡ some (2 ∷ 2 ∷ 2 ∷ 3 ∷ [], 2)
unfolding find_root find_loop
find_root-test = refl

union-test : union chain 0 3 ≡ some (2 ∷ 2 ∷ 3 ∷ 3 ∷ [])
unfolding union find_root find_loop
union-test = refl

from_two : Rooted chain 2 2 0
from_two = root refl refl refl

from_one : Rooted chain 1 2 1
from_one = up refl (omega arith) refl from_two

chain-IsForest : IsForest chain
unfolding IsForest roots is_root
chain-IsForest zero h = (2, 2, up refl (omega arith) refl from_one, omega arith)
chain-IsForest (suc zero) h = (2, 1, from_one, omega arith)
chain-IsForest (suc (suc zero)) h = (2, 0, from_two, omega arith)
chain-IsForest (suc (suc (suc zero))) h = (3, 0, root refl refl refl, omega arith)
chain-IsForest (suc (suc (suc (suc x)))) h = absurd (omega arith)

find_root-root_example :
    (q : List ℕ) × (r : ℕ) × (d : ℕ) × (find_root chain 0 ≡ some (q, r))
    × Rooted chain 0 r d
    × Keeps chain q
    × IsForest q
find_root-root_example = find_root-root chain 0 chain-IsForest (omega arith)

union-Joins_example :
    (q : List ℕ) × (ra : ℕ) × (rb : ℕ) × (d : ℕ) × (e : ℕ) × (union chain 0 3 ≡ some q)
    × Rooted chain 0 ra d
    × Rooted chain 3 rb e
    × Joins chain q ra rb
union-Joins_example = union-Joins chain 0 3 chain-IsForest (omega arith) (omega arith)
