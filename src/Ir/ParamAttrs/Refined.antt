-- ===== src/Ir/ParamAttrs/Refined.antt =====
-- About ParamAttrs::refinedBy (ir/attrs.cpp), attribute by attribute.
use alive_next_deprecated.Prelude.{
  ℕ, ◌^◌, ◌≡◌, refl, ap, sym, ◌∙◌, arith, bit_and, bit_or, Bool, true, false, ◌&&◌, ◌||◌, not, ◌==◌,
  if◌then◌else◌, Bool-cases, inl, inr, ◌↔◌, ◌⊎◌,
}
use mathlib.Core.Path.{subst}
use alive_next_deprecated.Prelude.Digits.{
  bit, bit-bit_or, bit-bit_and, bit-pow, bit-ext, bit_and-pow,
}
use alive_next_deprecated.Ir.ParamAttrs.{
  ParamAttrs, Attribute, position, has, refined_by, ub_attrs, fixed_attrs,
}

has-bit : (p : ParamAttrs) (a : Attribute) → has p a ≡ bit (position a) p.bits
unfolding has
has-bit p a = bit_and-pow p.bits (position a)

-- The digits of a mask of three.
bit-three :
    (k i j l : ℕ)
    → bit k (bit_or (bit_or (2 ^ i) (2 ^ j)) (2 ^ l)) ≡ (((k == i) || (k == j)) || (k == l))
bit-three k i j l =
    bit-bit_or k (bit_or (2 ^ i) (2 ^ j)) (2 ^ l)
    ∙ rw (bit-bit_or k (2 ^ i) (2 ^ j), bit-pow k i, bit-pow k j, bit-pow k l) refl

below : (bx by bm : Bool) → (bx && (by && bm)) ≡ (by && bm) → bm ≡ true → by ≡ true → bx ≡ true
below bx by bm h p q = ground arith

below_back :
    (bx by bm : Bool) → (bm ≡ true → by ≡ true → bx ≡ true) → (bx && (by && bm)) ≡ (by && bm)
below_back true by bm h = refl
below_back false true true h = absurd (ground (arith, h refl refl))
below_back false true false h = refl
below_back false false bm h = refl

agreed : (bx by bm : Bool) → (bx && bm) ≡ (by && bm) → bm ≡ true → bx ≡ by
agreed bx by bm h p = ground arith

agree_back : (bx by bm : Bool) → (bm ≡ true → bx ≡ by) → (bx && bm) ≡ (by && bm)
agree_back bx by true h = rw (h refl) refl
agree_back true true false h = refl
agree_back true false false h = refl
agree_back false true false h = refl
agree_back false false false h = refl

module _ (x y m : ℕ) where
  bit-inner : (k : ℕ) → bit k (bit_and x (bit_and y m)) ≡ (bit k x && (bit k y && bit k m))
  bit-inner k = bit-bit_and k x (bit_and y m) ∙ ap (λ b. bit k x && b) (bit-bit_and k y m)

  -- What `y` has of the mask, `x` has.
  within_iff :
      (bit_and x (bit_and y m) ≡ bit_and y m)
      ↔ ((k : ℕ) → bit k m ≡ true → bit k y ≡ true → bit k x ≡ true)
  within_iff = (
    λ h k.
        below (bit k x) (bit k y) (bit k m)
          (sym (bit-inner k) ∙ (ap (bit k) h ∙ bit-bit_and k y m)),
    λ h. bit-ext (bit_and x (bit_and y m)) (bit_and y m) (λ k.
        bit-inner k ∙ (below_back (bit k x) (bit k y) (bit k m) (h k) ∙ sym (bit-bit_and k y m))),
  )

  -- `x` and `y` have the same of the mask.
  agree_iff : (bit_and x m ≡ bit_and y m) ↔ ((k : ℕ) → bit k m ≡ true → bit k x ≡ bit k y)
  agree_iff = (
    λ h k e.
        agreed (bit k x) (bit k y) (bit k m)
          (sym (bit-bit_and k x m) ∙ (ap (bit k) h ∙ bit-bit_and k y m)) e,
    λ h. bit-ext (bit_and x m) (bit_and y m) (λ k.
        bit-bit_and k x m
        ∙ (agree_back (bit k x) (bit k y) (bit k m) (h k) ∙ sym (bit-bit_and k y m))),
  )

found : (k i j l : ℕ) → (((k == i) || (k == j)) || (k == l)) ≡ true → (k ≡ i) ⊎ ((k ≡ j) ⊎ (k ≡ l))
found k i j l h = elim (Bool-cases (k == i)) [
  | inl e ↦ inl (ground arith)
  | inr e ↦ elim (Bool-cases (k == j)) [
    | inl f ↦ inr (inl (ground arith))
    | inr f ↦ inr (inr (ground arith))
  ]
]

-- A property of the three positions of a mask holds of every digit of the mask.
three-all :
    (P : ℕ → Type 0) (i j l k : ℕ)
    → P i
    → P j
    → P l
    → bit k (bit_or (bit_or (2 ^ i) (2 ^ j)) (2 ^ l)) ≡ true
    → P k
three-all P i j l k pi pj pl h = elim (found k i j l (sym (bit-three k i j l) ∙ h)) [
  | inl e ↦ subst P (sym e) pi
  | inr r ↦ elim r [ inl e ↦ subst P (sym e) pj | inr e ↦ subst P (sym e) pl ]
]

mask-three :
    (i j l : ℕ)
    → (bit i (bit_or (bit_or (2 ^ i) (2 ^ j)) (2 ^ l)) ≡ true)
      × ((bit j (bit_or (bit_or (2 ^ i) (2 ^ j)) (2 ^ l)) ≡ true)
          × (bit l (bit_or (bit_or (2 ^ i) (2 ^ j)) (2 ^ l)) ≡ true))
mask-three i j l = (
  bit-three i i j l ∙ ground arith,
  (bit-three j i j l ∙ ground arith, bit-three l i j l ∙ ground arith),
)

module _ (x y u v b c : ℕ) where
  three_tests :
      (if not (x == y) then false else if not (u == v) then false else b == c) ≡ true
      → (x ≡ y) × ((u ≡ v) × (b ≡ c))
  three_tests h = (ground arith, (ground arith, ground arith))

  three_tests_back :
      x ≡ y
      → u ≡ v
      → b ≡ c
      → (if not (x == y) then false else if not (u == v) then false else b == c) ≡ true
  three_tests_back p q r = ground arith

-- An attribute of `q` is one of `p`.
pub Carries : Attribute → ParamAttrs → ParamAttrs → Type 0
Carries a p q = has q a ≡ true → has p a ≡ true

-- The attributes that can make a call undefined are not added, the extensions and the register
-- stay, and so does the size of the block.
pub record Refines (p q : ParamAttrs) : Type 0 where
  pub by_val : Carries Attribute.by_val p q
  pub no_undef : Carries Attribute.no_undef p q
  pub writable : Carries Attribute.writable p q
  pub sign_ext : has p Attribute.sign_ext ≡ has q Attribute.sign_ext
  pub zero_ext : has p Attribute.zero_ext ≡ has q Attribute.zero_ext
  pub in_reg : has p Attribute.in_reg ≡ has q Attribute.in_reg
  pub block_size : p.block_size ≡ q.block_size

module _ (p q : ParamAttrs) where
  Within : Type 0
  Within = bit_and p.bits (bit_and q.bits ub_attrs) ≡ bit_and q.bits ub_attrs

  Same : Type 0
  Same = bit_and p.bits fixed_attrs ≡ bit_and q.bits fixed_attrs

  refined_by-tests : refined_by p q ≡ true → Within × (Same × (p.block_size ≡ q.block_size))
  unfolding refined_by Within Same
  refined_by-tests h =
      three_tests (bit_and p.bits (bit_and q.bits ub_attrs)) (bit_and q.bits ub_attrs)
        (bit_and p.bits fixed_attrs) (bit_and q.bits fixed_attrs) p.block_size q.block_size h

  tests-refined_by : Within → Same → p.block_size ≡ q.block_size → refined_by p q ≡ true
  unfolding refined_by Within Same
  tests-refined_by h k e =
      three_tests_back (bit_and p.bits (bit_and q.bits ub_attrs)) (bit_and q.bits ub_attrs)
        (bit_and p.bits fixed_attrs) (bit_and q.bits fixed_attrs) p.block_size q.block_size h k e

  carries : (a : Attribute) → bit (position a) ub_attrs ≡ true → Within → Carries a p q
  unfolding Within Carries
  carries a m h e =
      has-bit p a ∙ (within_iff p.bits q.bits ub_attrs).0 h (position a) m (sym (has-bit q a) ∙ e)

  carried :
      (a : Attribute)
      → Carries a p q
      → bit (position a) q.bits ≡ true
      → bit (position a) p.bits ≡ true
  unfolding Carries
  carried a h e = sym (has-bit p a) ∙ h (has-bit q a ∙ e)

  keeps : (a : Attribute) → bit (position a) fixed_attrs ≡ true → Same → has p a ≡ has q a
  unfolding Same
  keeps a m h =
      has-bit p a ∙ ((agree_iff p.bits q.bits fixed_attrs).0 h (position a) m ∙ sym (has-bit q a))

  kept : (a : Attribute) → has p a ≡ has q a → bit (position a) p.bits ≡ bit (position a) q.bits
  kept a h = sym (has-bit p a) ∙ (h ∙ has-bit q a)

module _ (p q : ParamAttrs) where
  refined_by_sound : refined_by p q ≡ true → Refines p q
  refined_by_sound h =
      let (w, (s, b)) = refined_by-tests p q h in
      record {
        by_val = carries p q Attribute.by_val refl w;
        no_undef = carries p q Attribute.no_undef refl w;
        writable = carries p q Attribute.writable refl w;
        sign_ext = keeps p q Attribute.sign_ext refl s;
        zero_ext = keeps p q Attribute.zero_ext refl s;
        in_reg = keeps p q Attribute.in_reg refl s;
        block_size = b;
      }

  refined_by_complete : Refines p q → refined_by p q ≡ true
  unfolding Within Same
  refined_by_complete r =
      tests-refined_by p q
        ((within_iff p.bits q.bits ub_attrs).1 (λ k.
          three-all (λ n. bit n q.bits ≡ true → bit n p.bits ≡ true) 1 6 18 k
            (carried p q Attribute.by_val r.by_val) (carried p q Attribute.no_undef r.no_undef)
            (carried p q Attribute.writable r.writable)))
        ((agree_iff p.bits q.bits fixed_attrs).1 (λ k.
          three-all (λ n. bit n p.bits ≡ bit n q.bits) 14 13 15 k
            (kept p q Attribute.sign_ext r.sign_ext) (kept p q Attribute.zero_ext r.zero_ext)
            (kept p q Attribute.in_reg r.in_reg)))
        r.block_size

-- The attributes of a parameter are refined by others exactly where the others add none of byval,
-- noundef and writable, keep signext, zeroext and inreg, and keep the size of the block.
pub refined_by-Refines : (p q : ParamAttrs) → (refined_by p q ≡ true) ↔ Refines p q
refined_by-Refines p q = (refined_by_sound p q, refined_by_complete p q)

Carries-trans : (a : Attribute) (p q r : ParamAttrs) → Carries a p q → Carries a q r → Carries a p r
unfolding Carries
Carries-trans a p q r f g h = f (g h)

Carries-self : (a : Attribute) (p : ParamAttrs) → Carries a p p
unfolding Carries
Carries-self a p h = h

Refines-self : (p : ParamAttrs) → Refines p p
Refines-self p = record {
  by_val = Carries-self Attribute.by_val p;
  no_undef = Carries-self Attribute.no_undef p;
  writable = Carries-self Attribute.writable p;
  sign_ext = refl;
  zero_ext = refl;
  in_reg = refl;
  block_size = refl;
}

Refines-trans : (p q r : ParamAttrs) → Refines p q → Refines q r → Refines p r
Refines-trans p q r f g = record {
  by_val = Carries-trans Attribute.by_val p q r f.by_val g.by_val;
  no_undef = Carries-trans Attribute.no_undef p q r f.no_undef g.no_undef;
  writable = Carries-trans Attribute.writable p q r f.writable g.writable;
  sign_ext = f.sign_ext ∙ g.sign_ext;
  zero_ext = f.zero_ext ∙ g.zero_ext;
  in_reg = f.in_reg ∙ g.in_reg;
  block_size = f.block_size ∙ g.block_size;
}

-- Refinement of attributes is reflexive and transitive.
pub refined_by_order :
    (p q r : ParamAttrs)
    → (refined_by p p ≡ true)
      × (refined_by p q ≡ true → refined_by q r ≡ true → refined_by p r ≡ true)
refined_by_order p q r = (
  refined_by_complete p p (Refines-self p),
  λ h k.
      refined_by_complete p r
        (Refines-trans p q r (refined_by_sound p q h) (refined_by_sound q r k)),
)
