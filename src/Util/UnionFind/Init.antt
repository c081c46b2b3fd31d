-- ===== src/Util/UnionFind/Init.antt =====
-- About the constructor of UnionFind (util/unionfind.cpp).
use alive_next_deprecated.Prelude.{ℕ, zero, suc, ◌+◌, ◌<◌, ◌≡◌, refl, ap, sym, ◌∙◌, arith, length}
use mathlib.Core.Path.{subst}
use alive_next_deprecated.Util.UnionFind.{init, iota}
use alive_next_deprecated.Util.UnionFind.Count.{at}
use alive_next_deprecated.Util.UnionFind.Forest.{Represents}

length-iota : (n i : ℕ) → length (iota n i) ≡ n
length-iota zero i = refl
length-iota (suc n) i = ap suc (length-iota n (suc i))

at-iota : (n i x : ℕ) → x < n → at (iota n i) x ≡ i + x
at-iota zero i x p = absurd (omega arith)
at-iota (suc n) i zero p = omega arith
at-iota (suc n) i (suc x) p = at-iota n (suc i) x (omega arith) ∙ omega arith

-- The vector that the constructor makes represents the identity: every element is alone.
pub init-Represents : (n : ℕ) → Represents (init n) (λ x. x)
unfolding init
init-Represents n = record {
  depth = λ x. 0;
  inside = λ x u. subst (λ y. y < length (iota n 0)) (sym (alone x u)) u;
  next = λ x u. alone x u;
  down = λ x u h. absurd (h (alone x u));
  root = λ x u h. refl;
  root_inside = λ x u. u;
  root_at = λ x u. alone x u;
  root_depth = λ x u h. refl;
  bound = λ x u. omega arith;
}
  where
    alone : (x : ℕ) → x < length (iota n 0) → at (iota n 0) x ≡ x
    alone x u = at-iota n 0 x (subst (λ m. x < m) (length-iota n 0) u) ∙ omega arith
