-- ===== src/Util/UnionFind/Forest.antt =====
-- About UnionFind (util/unionfind.cpp) as a function from the elements to representatives.
use alive_next_deprecated.Prelude.{
  ℕ, zero, suc, ◌≤◌, ◌<◌, ◌≡◌, ◌≢◌, refl, ap, sym, ◌∙◌, arith, ◌==◌, true, List, length, length-set,
  set, Bool-cases, inl, inr, some,
}
use mathlib.Core.Path.{subst}
use alive_next_deprecated.Util.UnionFind.{find_root}
use alive_next_deprecated.Util.UnionFind.Count.{at, moved, moved_le, moved-set_same, at-split}

-- The vector is a forest whose roots are the representatives: every element has its successor's
-- representative, and gets closer to it by a step.
pub record Represents (id : List ℕ) (r : ℕ → ℕ) : Type 0 where
  pub depth : ℕ → ℕ
  pub inside : (x : ℕ) → x < length id → at id x < length id
  pub next : (x : ℕ) → x < length id → r (at id x) ≡ r x
  pub down : (x : ℕ) → x < length id → at id x ≢ x → depth (at id x) < depth x
  pub root : (x : ℕ) → x < length id → at id x ≡ x → r x ≡ x
  pub root_inside : (x : ℕ) → x < length id → r x < length id
  pub root_at : (x : ℕ) → x < length id → at id (r x) ≡ r x
  pub root_depth : (x : ℕ) → x < length id → at id x ≡ x → depth x ≡ 0
  pub bound : (x : ℕ) → x < length id → depth x ≤ moved id (length id)

module _ (id : List ℕ) (r : ℕ → ℕ) (f : Represents id r) where
  find_root_lem : (fuel x : ℕ) → x < length id → f.depth x < fuel → find_root fuel id x ≡ some (r x)
  unfolding find_root
  find_root_lem zero x p q = absurd (omega arith)
  find_root_lem (suc fuel) x p q = elim (Bool-cases (x == at id x)) [
    | inl e ↦ rw e (ap some (sym (f.root x p (ground arith))))
    | inr e ↦ rw e (
        find_root_lem fuel (at id x) (f.inside x p) (closer (λ h. absurd (ground (arith, h))))
        ∙ ap some (f.next x p))
  ]
    where
      closer : at id x ≢ x → f.depth (at id x) < fuel
      closer h = omega (arith, f.down x p h)

  pub find_root_total : (x : ℕ) → x < length id → find_root (suc (length id)) id x ≡ some (r x)
  find_root_total x p =
      find_root_lem (suc (length id)) x p (omega (arith, f.bound x p, moved_le id (length id)))

module _ (id : List ℕ) (r : ℕ → ℕ) (f : Represents id r) (i : ℕ) (p : i < length id) where
  -- An element that is its own representative is a root, and the other way round.
  root_back : r i ≡ i → at id i ≡ i
  root_back e = ap (at id) (sym e) ∙ (f.root_at i p ∙ e)

  below_root : r i ≢ i → f.depth (r i) < f.depth i
  below_root h =
      let top : f.depth (r i) ≡ 0 = f.root_depth (r i) (f.root_inside i p) (f.root_at i p) in
      let step : f.depth (at id i) < f.depth i = f.down i p (λ e. h (f.root i p e)) in omega arith

  same_test : (i == r i) ≡ (i == at id i)
  same_test = elim (Bool-cases (i == at id i)) [
    | inl e ↦ let fixed : r i ≡ i = f.root i p (ground arith) in e_of fixed ∙ sym e
    | inr e ↦ elim (Bool-cases (i == r i)) [
      | inl h ↦
          let fixed : r i ≡ i = ground arith in
          let back : at id i ≡ i = root_back fixed in absurd (ground arith)
      | inr h ↦ h ∙ sym e
    ]
  ]
    where
      e_of : r i ≡ i → (i == r i) ≡ true
      e_of h = ground arith

  abbrev pub new : List ℕ
  new = set id i (r i)

  -- Path compression keeps the representatives.
  pub compress : Represents new r
  compress = record {
    depth = f.depth;
    inside = λ x q.
        subst (λ n. at (set id i (r i)) x < n) (sym (length-set id i (r i)))
          (at-split id i (r i) p (λ y a. y < length id → a < length id) (λ _. f.root_inside i p)
            (λ y _. f.inside y) x (old x q));
    next = λ x q.
        at-split id i (r i) p (λ y a. y < length id → r a ≡ r y)
          (λ _. f.root (r i) (f.root_inside i p) (f.root_at i p)) (λ y _. f.next y) x (old x q);
    down = λ x q.
        at-split id i (r i) p (λ y a. y < length id → a ≢ y → f.depth a < f.depth y)
          (λ _. below_root) (λ y _. f.down y) x (old x q);
    root = λ x q.
        at-split id i (r i) p (λ y a. y < length id → a ≡ y → r y ≡ y) (λ _ h. h) (λ y _. f.root y)
          x (old x q);
    root_inside =
        λ x q. subst (λ n. r x < n) (sym (length-set id i (r i))) (f.root_inside x (old x q));
    root_at = λ x q.
        at-split id i (r i) p (λ y a. (z : ℕ) → z < length id → r z ≡ y → a ≡ y)
          (λ z u e. stays z u e) (λ y _ z u e. ap (at id) (sym e) ∙ (f.root_at z u ∙ e)) (r x) x
          (old x q) refl;
    root_depth = λ x q.
        at-split id i (r i) p (λ y a. y < length id → a ≡ y → f.depth y ≡ 0)
          (λ u h. f.root_depth i u (root_back h)) (λ y _. f.root_depth y) x (old x q);
    bound = λ x q.
        subst (λ n. f.depth x ≤ moved (set id i (r i)) n) (sym (length-set id i (r i)))
          (subst (λ m. f.depth x ≤ m) (sym (moved-set_same id i (r i) p same_test (length id)))
            (f.bound x (old x q)));
  }
    where
      old : (x : ℕ) → x < length (set id i (r i)) → x < length id
      old x q = subst (λ n. x < n) (length-set id i (r i)) q

      stays : (z : ℕ) → z < length id → r z ≡ i → r i ≡ i
      stays z u e = f.root i p (ap (at id) (sym e) ∙ (f.root_at z u ∙ e))
