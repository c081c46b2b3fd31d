-- ===== src/Util/UnionFind/Merge.antt =====
-- About UnionFind::find and UnionFind::merge (util/unionfind.cpp).
use alive_next_deprecated.Prelude.{
  ℕ, ◌+◌, ◌≤◌, ◌<◌, ◌≡◌, ◌≢◌, refl, ap, sym, ◌∙◌, arith, ◌==◌, true, ltb, List, length, length-set,
  set, if◌then◌else◌, Bool-cases, inl, inr, some,
}
use mathlib.Core.Path.{subst}
use alive_next_deprecated.Util.UnionFind.{find, merge, compressed, second_find, linked}
use alive_next_deprecated.Util.UnionFind.Count.{at, moved, at-set_ne, moved-set_more, at-split}
use alive_next_deprecated.Util.UnionFind.Forest.{Represents, find_root_total, compress}

-- The representatives after the class of `i` has got that of `j`.
abbrev pub joined : (ℕ → ℕ) → ℕ → ℕ → ℕ → ℕ
joined r i j x = if r x == i then j else r x

module _ (id : List ℕ) (r : ℕ → ℕ) (f : Represents id r) (i j : ℕ) (p : i < length id)
    (q : j < length id) (ri : at id i ≡ i) (rj : at id j ≡ j) (apart : i ≢ j) where
  own : (x : ℕ) → r x ≡ i → joined r i j x ≡ j
  own x e = let t : (r x == i) ≡ true = ground arith in rw t refl

  other : (x : ℕ) → r x ≢ i → joined r i j x ≡ r x
  other x n = elim (Bool-cases (r x == i)) [ inl e ↦ absurd (n (ground arith)) | inr e ↦ rw e refl ]

  i_own : r i ≡ i
  i_own = f.root i p ri

  j_own : r j ≡ j
  j_own = f.root j q rj

  extra : ℕ → ℕ
  extra t = if t == i then 1 else 0

  deeper : ℕ → ℕ
  unfolding extra
  deeper x = f.depth x + extra (r x)

  deeper_own : (x : ℕ) → r x ≡ i → deeper x ≡ f.depth x + 1
  unfolding deeper extra
  deeper_own x e = let t : (r x == i) ≡ true = ground arith in rw t refl

  deeper_other : (x : ℕ) → r x ≢ i → deeper x ≡ f.depth x
  unfolding deeper extra
  deeper_other x n = elim (Bool-cases (r x == i)) [
    | inl e ↦ absurd (n (ground arith))
    | inr e ↦ rw e (omega arith)
  ]

  deeper_bound :
      (x : ℕ)
      → x < length id
      → deeper x ≤ moved id (length id) + (if ltb i (length id) then 1 else 0)
  unfolding deeper extra
  deeper_bound x u =
      let t : ltb i (length id) ≡ true = ground arith in
      rw t (elim (Bool-cases (r x == i)) [
        | inl e ↦ rw e (omega (arith, f.bound x u))
        | inr e ↦ rw e (omega (arith, f.bound x u))
      ])

  -- Another root is not in the class of `i`.
  elsewhere : (y : ℕ) → i ≢ y → y < length id → at id y ≡ y → r y ≢ i
  elsewhere y n v e h = n (sym h ∙ f.root y v e)

  deeper_link : deeper j < deeper i
  deeper_link =
      let dj : deeper j ≡ f.depth j = deeper_other j (elsewhere j apart q rj) in
      let zj : f.depth j ≡ 0 = f.root_depth j q rj in
      let di : deeper i ≡ f.depth i + 1 = deeper_own i i_own in omega arith

  deeper_down : (y : ℕ) → y < length id → at id y ≢ y → deeper (at id y) < deeper y
  unfolding deeper
  deeper_down y v h =
      let same : extra (r (at id y)) ≡ extra (r y) = ap extra (f.next y v) in
      omega (arith, f.down y v h)

  joined_inside : (x : ℕ) → x < length id → joined r i j x < length id
  joined_inside x u = elim (Bool-cases (r x == i)) [
    | inl e ↦ rw e q
    | inr e ↦ rw e (f.root_inside x u)
  ]

  at-joined : (x : ℕ) → x < length id → at (set id i j) (joined r i j x) ≡ joined r i j x
  at-joined x u = elim (Bool-cases (r x == i)) [
    | inl e ↦ rw e (at-set_ne id i j p j apart ∙ rj)
    | inr e ↦ rw e (at-set_ne id i j p (r x) (λ h. absurd (ground (arith, h))) ∙ f.root_at x u)
  ]

  link : Represents (set id i j) (joined r i j)
  link = record {
    depth = deeper;
    inside = λ x u.
        subst (λ n. at (set id i j) x < n) (sym (length-set id i j))
          (at-split id i j p (λ y a. y < length id → a < length id) (λ _. q) (λ y _. f.inside y) x
            (old x u));
    next = λ x u.
        at-split id i j p (λ y a. y < length id → joined r i j a ≡ joined r i j y)
          (λ _. other j (λ e. apart (sym (sym j_own ∙ e))) ∙ (j_own ∙ sym (own i i_own)))
          (λ y _ v. ap (λ t. if t == i then j else t) (f.next y v)) x (old x u);
    down = λ x u.
        at-split id i j p (λ y a. y < length id → a ≢ y → deeper a < deeper y) (λ _ _. deeper_link)
          (λ y _ v h. deeper_down y v h) x (old x u);
    root = λ x u.
        at-split id i j p (λ y a. y < length id → a ≡ y → joined r i j y ≡ y)
          (λ _ e. absurd (apart (sym e))) (λ y n v e. other y (elsewhere y n v e) ∙ f.root y v e) x
          (old x u);
    root_inside = λ x u.
        subst (λ n. joined r i j x < n) (sym (length-set id i j)) (joined_inside x (old x u));
    root_at = λ x u. at-joined x (old x u);
    root_depth = λ x u.
        at-split id i j p (λ y a. y < length id → a ≡ y → deeper y ≡ 0)
          (λ _ e. absurd (apart (sym e)))
          (λ y n v e. deeper_other y (elsewhere y n v e) ∙ f.root_depth y v e) x (old x u);
    bound = λ x u.
        subst (λ n. deeper x ≤ moved (set id i j) n) (sym (length-set id i j))
          (subst (λ m. deeper x ≤ m) (sym (moved-set_more id i j p apart ri (length id)))
            (deeper_bound x (old x u)));
  }
    where
      old : (x : ℕ) → x < length (set id i j) → x < length id
      old x u = subst (λ n. x < n) (length-set id i j) u

-- What a call of `find` does: it returns the representative and keeps all representatives.
pub Finds : List ℕ → (ℕ → ℕ) → ℕ → Type 0
Finds id r i =
    (next : List ℕ) × ((find id i ≡ some (r i, next))
      × ((length next ≡ length id) × Represents next r))

-- On a vector that represents `r`, the loop of `find` ends for every element of it, and `find`
-- returns the element's representative and a vector of the same size that represents `r` too.
pub find-Finds : (id : List ℕ) (r : ℕ → ℕ) (i : ℕ) → Represents id r → i < length id → Finds id r i
unfolding Finds find
find-Finds id r i f p = (
  set id i (r i),
  (ap (compressed id i) (find_root_total id r f i p), (length-set id i (r i), compress id r f i p)),
)

-- The write of `merge` at two representatives.
joins :
    (id : List ℕ) (r : ℕ → ℕ) (f : Represents id r) (p q : ℕ)
    → p < length id
    → q < length id
    → (s : ℕ → ℕ) × (Represents (set id (r p) (r q)) s
        × ((x : ℕ) → x < length id → s x ≡ joined r (r p) (r q) x))
joins id r f p q u v = elim (Bool-cases (r p == r q)) [
  | inl e ↦
      let same : r p ≡ r q = ground arith in
      let own : r (r p) ≡ r p = f.root (r p) (f.root_inside p u) (f.root_at p u) in
      (
        r,
        (
          subst (λ k. Represents (set id (r p) k) r) (own ∙ same)
              (compress id r f (r p) (f.root_inside p u)),
          λ x w. no_change x same,
        ),
      )
  | inr e ↦
      let apart : r p ≢ r q = λ h. absurd (ground (arith, h)) in
      (
        joined r (r p) (r q),
        (
          link id r f (r p) (r q) (f.root_inside p u) (f.root_inside q v) (f.root_at p u)
              (f.root_at q v) apart,
          λ x w. refl,
        ),
      )
]
  where
    no_change : (x : ℕ) → r p ≡ r q → r x ≡ joined r (r p) (r q) x
    no_change x h = elim (Bool-cases (r x == r p)) [
      | inl e ↦ rw e (ground arith)
      | inr e ↦ rw e refl
    ]

-- What a call of `merge` does: it returns the second representative, which becomes that of the
-- first class, and keeps the others.
pub Merges : List ℕ → (ℕ → ℕ) → ℕ → ℕ → Type 0
Merges id r p q =
    (next : List ℕ) × ((s : ℕ → ℕ) × ((merge id p q ≡ some (r q, next))
        × (Represents next s × ((x : ℕ) → x < length id → s x ≡ joined r (r p) (r q) x))))

-- On a vector that represents `r`, `merge` of two elements ends and returns the representative of
-- the second; the vector then represents the function that gives the class of the first that
-- representative and leaves the others.
pub merge-Merges :
    (id : List ℕ) (r : ℕ → ℕ) (p q : ℕ)
    → Represents id r
    → p < length id
    → q < length id
    → Merges id r p q
unfolding Merges merge Finds
merge-Merges id r p q f u v =
    let (id1, (e1, (l1, f1))) = find-Finds id r p f u in
    let (id2, (e2, (l2, f2))) = find-Finds id1 r q f1 (subst (λ n. q < n) (sym l1) v) in
    let same : length id2 ≡ length id = l2 ∙ l1 in
    let (s, (g, a)) =
      joins id2 r f2 p q (subst (λ n. p < n) (sym same) u) (subst (λ n. q < n) (sym same) v) in
    (
      set id2 (r p) (r q),
      (
        s,
        (
          ap (second_find q) e1 ∙ ap (linked (r p)) e2,
          (g, λ x w. a x (subst (λ n. x < n) (sym same) w)),
        ),
      ),
    )
