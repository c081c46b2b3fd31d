-- ===== src/Ir/ParamAttrs/Merge.antt =====
-- About ParamAttrs::merge and poisonImpliesUB (ir/attrs.cpp).
use alive_next_deprecated.Prelude.{
  ℕ, ◌≤◌, ◌≡◌, refl, ◌∙◌, arith, max, bit_or, Bool, ◌&&◌, ◌||◌, not, if◌then◌else◌, Bool-cases, inl,
  inr, List, [], ◌∷◌,
}
use alive_next_deprecated.Prelude.Digits.{bit-bit_or, bit_and-pow}
use alive_next_deprecated.Ir.ParamAttrs.{
  ParamAttrs, Attribute, position, has, merge, poison_implies_ub, get_deref_bytes, is_empty,
  set_union, before,
}

module _ (p q : ParamAttrs) where
  has-merge : (a : Attribute) → has (merge p q) a ≡ (has p a || has q a)
  unfolding has merge
  has-merge a =
      bit_and-pow (bit_or p.bits q.bits) (position a)
      ∙ (bit-bit_or (position a) p.bits q.bits
          ∙ rw (bit_and-pow p.bits (position a), bit_and-pow q.bits (position a)) refl)

is_empty-union : (rs ss : List (ℕ × ℕ)) → is_empty (set_union rs ss) ≡ (is_empty rs && is_empty ss)
is_empty-union [] [] = refl
is_empty-union [] (s ∷ ss) = refl
is_empty-union (r ∷ rs) [] = refl
is_empty-union (r ∷ rs) (s ∷ ss) = elim (Bool-cases (before r s)) [
  | inl e ↦ rw e refl
  | inr e ↦ rw e (elim (Bool-cases (before s r)) [ inl f ↦ rw f refl | inr f ↦ rw f refl ])
]

-- A disjunction of disjunctions, one pair after the other.
or_pair : (x p q c d : Bool) → x ≡ (p || q) → (x || (c || d)) ≡ ((p || c) || (q || d))
or_pair x p q c d h = rw h (ground arith)

or_last : (x p q c d : Bool) → x ≡ (p || q) → (x || not (c && d)) ≡ ((p || not c) || (q || not d))
or_last x p q c d h = rw h (ground arith)

or_all :
    (a b c d e f a' b' c' d' e' f' : Bool)
    → ((((((a || a') || (b || b')) || (c || c')) || (d || d')) || (e || e')) || not (f && f'))
      ≡ ((((((a || b) || c) || d) || e) || not f) || (((((a' || b') || c') || d') || e') || not f'))
or_all a b c d e f a' b' c' d' e' f' =
    or_last (((((a || a') || (b || b')) || (c || c')) || (d || d')) || (e || e'))
      ((((a || b) || c) || d) || e) ((((a' || b') || c') || d') || e') f f'
      (or_pair ((((a || a') || (b || b')) || (c || c')) || (d || d')) (((a || b) || c) || d)
        (((a' || b') || c') || d') e e'
        (or_pair (((a || a') || (b || b')) || (c || c')) ((a || b) || c) ((a' || b') || c') d d' (
          or_pair ((a || a') || (b || b')) (a || b) (a' || b') c c'
            (or_pair (a || a') a a' b b' refl))))

module _ (b b' d d' : Bool) (x x' s s' : ℕ) where
  abbrev bytes : Bool → Bool → ℕ → ℕ → ℕ
  bytes b d x s = if b then max (if d then x else 0) s else if d then x else 0

  bytes-left : bytes b d x s ≤ bytes (b || b') (d || d') (max x x') (max s s')
  bytes-left = ground arith

  bytes-right : bytes b' d' x' s' ≤ bytes (b || b') (d || d') (max x x') (max s s')
  bytes-right = ground arith

module _ (p q : ParamAttrs) where
  is_empty-merge :
      is_empty (merge p q).initializes ≡ (is_empty p.initializes && is_empty q.initializes)
  unfolding merge
  is_empty-merge = is_empty-union p.initializes q.initializes

  merge-ub : poison_implies_ub (merge p q) ≡ (poison_implies_ub p || poison_implies_ub q)
  unfolding poison_implies_ub
  merge-ub =
      simp (has-merge p q, is_empty-merge)
        (or_all (has p Attribute.by_val) (has p Attribute.dereferenceable)
          (has p Attribute.dereferenceable_or_null) (has p Attribute.no_undef)
          (has p Attribute.writable) (is_empty p.initializes) (has q Attribute.by_val)
          (has q Attribute.dereferenceable) (has q Attribute.dereferenceable_or_null)
          (has q Attribute.no_undef) (has q Attribute.writable) (is_empty q.initializes))

  merge-sizes :
      ((merge p q).deref_bytes ≡ max p.deref_bytes q.deref_bytes)
      × ((merge p q).block_size ≡ max p.block_size q.block_size)
  unfolding merge
  merge-sizes = (refl, refl)

  merge-bytes :
      (get_deref_bytes p ≤ get_deref_bytes (merge p q))
      × (get_deref_bytes q ≤ get_deref_bytes (merge p q))
  unfolding get_deref_bytes
  merge-bytes =
      let (d, b) = merge-sizes in
      rw (has-merge p q Attribute.dereferenceable, has-merge p q Attribute.by_val, d, b)
        (
          bytes-left (has p Attribute.by_val) (has q Attribute.by_val)
              (has p Attribute.dereferenceable) (has q Attribute.dereferenceable) p.deref_bytes
              q.deref_bytes p.block_size q.block_size,
          bytes-right (has p Attribute.by_val) (has q Attribute.by_val)
              (has p Attribute.dereferenceable) (has q Attribute.dereferenceable) p.deref_bytes
              q.deref_bytes p.block_size q.block_size,
        )

-- Poison makes a call undefined under merged attributes exactly where it does under one of the two,
-- and the merged attributes ask for at least as many dereferenceable bytes as either.
pub merge-poison_implies_ub :
    (p q : ParamAttrs)
    → (poison_implies_ub (merge p q) ≡ (poison_implies_ub p || poison_implies_ub q))
      × ((get_deref_bytes p ≤ get_deref_bytes (merge p q))
          × (get_deref_bytes q ≤ get_deref_bytes (merge p q)))
merge-poison_implies_ub p q = (merge-ub p q, merge-bytes p q)
