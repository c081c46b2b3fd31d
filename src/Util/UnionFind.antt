-- ===== src/Util/UnionFind.antt =====
-- util/unionfind.cpp: UnionFind.
--
-- The state is the vector `id`. The loop of `find` runs on fuel, one more than the vector is long;
-- `none` says that it ran out. A read beyond the vector, which the code never makes on its own
-- numbers, gives 0.
pub mod Count
pub mod Forest
pub mod Merge
pub mod Init
use alive_next_deprecated.Prelude.{
  ℕ, zero, suc, ◌+◌, ◌==◌, Bool, Option, none, some, List, [], ◌∷◌, ◌++◌, length, get_or, set,
  if◌then◌else◌,
}

-- The numbers from `i` on, `n` of them.
abbrev pub iota : ℕ → ℕ → List ℕ
iota zero i = []
iota (suc n) i = i ∷ iota n (suc i)

unfoldable pub init : ℕ → List ℕ
init n = iota n 0

unfoldable pub mk : List ℕ → ℕ × List ℕ
mk id = let n = length id in (n, id ++ (n ∷ []))

-- The loop: `root` until it is its own successor.
unfoldable pub find_root : ℕ → List ℕ → ℕ → Option ℕ
find_root zero id root = none
find_root (suc fuel) id root =
    let rest = find_root fuel id (get_or id root 0) in
    if root == get_or id root 0 then some root else rest

-- The write and the result of `find`, once its loop has ended.
abbrev pub compressed : List ℕ → ℕ → Option ℕ → Option (ℕ × List ℕ)
compressed id i none = none
compressed id i (some root) = some (root, set id i root)

unfoldable pub find : List ℕ → ℕ → Option (ℕ × List ℕ)
unfolding find_root
find id i = compressed id i (find_root (suc (length id)) id i)

-- The write and the result of `merge`, once both calls of `find` have returned.
abbrev pub linked : ℕ → Option (ℕ × List ℕ) → Option (ℕ × List ℕ)
linked i none = none
linked i (some t) = some (t.0, set t.1 i t.0)

abbrev pub second_find : ℕ → Option (ℕ × List ℕ) → Option (ℕ × List ℕ)
unfolding find
second_find q none = none
second_find q (some s) = linked s.0 (find s.1 q)

unfoldable pub merge : List ℕ → ℕ → ℕ → Option (ℕ × List ℕ)
unfolding find
merge id p q = second_find q (find id p)
