-- ===== src/Ir/FnAttrs/Sizes.antt =====
-- About FnAttrs::computeAllocSize (ir/attrs.cpp), against the exact product.
use alive_next_deprecated.Prelude.{
  ℕ, ◌+◌, ◌-◌, ◌*◌, ◌/◌, ◌%◌, ◌^◌, ◌<◌, ◌≡◌, refl, ap, sym, ◌∙◌, arith, Bool, true, false, ◌&&◌,
  ltb, ◌==◌, some, if◌then◌else◌, Bool-cases, inl, inr,
}
use native.Mathlib.Nat.{mod-eq_of_lt, div-lt_iff_lt-mul}
use mathlib.Core.Path.{subst}
use alive_next_deprecated.Prelude.Pow.{pow-pos, pow-add, pow_mono}
use alive_next_deprecated.Smt.Bv.{extract, bvmul, zext_or_trunc}
use alive_next_deprecated.Smt.Overflow.{mul_no_uoverflow}
use alive_next_deprecated.Smt.Overflow.Mul.{mul_no_uoverflow_lem, upper_zero}
use alive_next_deprecated.Ir.FnAttrs.{
  FnAttrs, FnAttribute, Argument, fn_has, check_trunc, compute_alloc_size, no_second,
}

-- The value is a number of the argument's width.
abbrev pub InWidth : Argument → Type 0
InWidth a = a.state_value.value < 2 ^ a.width

-- No bit at or above `n` is set.
extract_high : (n w v : ℕ) → n < w → v < 2 ^ w → (extract (w - 1) n v == 0) ≡ ltb v (2 ^ n)
extract_high n w v p h =
    ap (λ (t : ℕ). (v / 2 ^ n % 2 ^ t) == 0) {x = w - 1 + 1 - n} {y = w - n} (omega arith)
    ∙ rw (mod-eq_of_lt small) (upper_zero n v)
  where
    small : v / 2 ^ n < 2 ^ (w - n)
    small = (div-lt_iff_lt-mul (pow-pos n)).1 (
        subst (λ k. v < k)
          (ap (λ k. 2 ^ k) {x = w} {y = w - n + n} (omega arith) ∙ pow-add (w - n) n) h)

fitting : (t np : Bool) → t ≡ true → np ≡ (np && t)
fitting t np h = ground arith

check_trunc_lem :
    (n : ℕ) (a : Argument) (np : Bool)
    → InWidth a
    → check_trunc n a np ≡ (np && ltb a.state_value.value (2 ^ n))
unfolding check_trunc
check_trunc_lem n a np h = elim (Bool-cases (ltb n a.width)) [
  | inl e ↦ rw e (ap (λ b. np && b) (extract_high n a.width a.state_value.value (ground arith) h))
  | inr e ↦ rw e (
      fitting (ltb a.state_value.value (2 ^ n)) np
        (ground (arith, h, pow_mono a.width n (ground arith))))
]

-- A value that fits is not cut off.
zext_or_trunc_fits : (w n v : ℕ) → v < 2 ^ n → zext_or_trunc w n v ≡ v
zext_or_trunc_fits w n v h = rw (mod-eq_of_lt h) (ground arith)

module _ (n : ℕ) (f : FnAttrs) (args : ℕ → Argument) where
  abbrev first : ℕ
  first = (args f.allocsize_0).state_value.value

  abbrev second : ℕ
  second = (args f.allocsize_1).state_value.value

  -- The number of bytes, as a number without bounds.
  abbrev exact : ℕ
  exact = if f.allocsize_1 == no_second then first else first * second

  -- The arguments and the number of bytes fit `n` bits.
  abbrev in_range : Bool
  in_range =
      if f.allocsize_1 == no_second
      then ltb first (2 ^ n)
      else ltb first (2 ^ n) && ltb second (2 ^ n) && ltb (first * second) (2 ^ n)

  abbrev defined : Bool
  defined =
      if f.allocsize_1 == no_second
      then (args f.allocsize_0).state_value.non_poison
      else (args f.allocsize_0).state_value.non_poison
        && (args f.allocsize_1).state_value.non_poison

  pub record Sizes : Type 0 where
    pub not_poison : (compute_alloc_size n f args).np_size ≡ (defined && in_range)
    pub no_ub : (compute_alloc_size n f args).no_ub ≡ defined
    pub size :
        (compute_alloc_size n f args).np_size ≡ true
        → (compute_alloc_size n f args).size ≡ some exact

regroup :
    (a b t u m p : Bool)
    → (t ≡ true → u ≡ true → m ≡ p)
    → ((((a && t) && b) && m) && u) ≡ ((a && b) && (t && u && p))
regroup a b true true m p h = rw (h refl refl) (ground arith)
regroup a b true false m p h = ground arith
regroup a b false u m p h = ground arith

all_three : (d t u p : Bool) → (d && (t && u && p)) ≡ true → (t ≡ true) × ((u ≡ true) × (p ≡ true))
all_three true true true true h = (refl, (refl, refl))
all_three true true true false h = absurd (ground arith)
all_three true true false p h = absurd (ground arith)
all_three true false u p h = absurd (ground arith)
all_three false t u p h = absurd (ground arith)

module _ (n : ℕ) (a b : Argument) where
  abbrev cut : Argument → ℕ
  cut c = zext_or_trunc c.width n c.state_value.value

  -- The product of the cut arguments does not wrap where the numbers themselves fit.
  product_fits :
      0 < n
      → ltb a.state_value.value (2 ^ n) ≡ true
      → ltb b.state_value.value (2 ^ n) ≡ true
      → mul_no_uoverflow n (cut a) (cut b) ≡ ltb (a.state_value.value * b.state_value.value) (2 ^ n)
  product_fits p s t =
      rw
        (
          zext_or_trunc_fits a.width n a.state_value.value (ground arith),
          zext_or_trunc_fits b.width n b.state_value.value (ground arith),
        )
        (mul_no_uoverflow_lem n a.state_value.value b.state_value.value p (ground arith)
          (ground arith))

  np_two : Bool
  np_two = check_trunc n b (
      (check_trunc n a a.state_value.non_poison && b.state_value.non_poison)
      && mul_no_uoverflow n (cut a) (cut b))

  np_two_lem :
      0 < n
      → InWidth a
      → InWidth b
      → np_two ≡ (
          (a.state_value.non_poison && b.state_value.non_poison)
          && (ltb a.state_value.value (2 ^ n)
              && ltb b.state_value.value (2 ^ n)
              && ltb (a.state_value.value * b.state_value.value) (2 ^ n)))
  unfolding np_two
  np_two_lem p i j =
      rw
        (
          check_trunc_lem n b
              ((check_trunc n a a.state_value.non_poison && b.state_value.non_poison)
                && mul_no_uoverflow n (cut a) (cut b))
              j,
          check_trunc_lem n a a.state_value.non_poison i,
        )
        (regroup a.state_value.non_poison b.state_value.non_poison (ltb a.state_value.value (2 ^ n))
          (ltb b.state_value.value (2 ^ n)) (mul_no_uoverflow n (cut a) (cut b))
          (ltb (a.state_value.value * b.state_value.value) (2 ^ n)) (product_fits p))

  size_two :
      0 < n
      → InWidth a
      → InWidth b
      → np_two ≡ true
      → bvmul n (cut a) (cut b) ≡ a.state_value.value * b.state_value.value
  size_two p i j h =
      let (s, (t, u)) =
        all_three (a.state_value.non_poison && b.state_value.non_poison)
          (ltb a.state_value.value (2 ^ n)) (ltb b.state_value.value (2 ^ n))
          (ltb (a.state_value.value * b.state_value.value) (2 ^ n)) (sym (np_two_lem p i j) ∙ h) in
      rw
        (
          zext_or_trunc_fits a.width n a.state_value.value (ground arith),
          zext_or_trunc_fits b.width n b.state_value.value (ground arith),
        )
        (mod-eq_of_lt (ground arith))

second_part : (d t : Bool) → (d && t) ≡ true → t ≡ true
second_part d t h = ground arith

-- For a function with allocsize whose arguments are numbers of their widths, computeAllocSize gives
-- a size that is not poison exactly where the arguments it names are not poison, they fit the
-- bits of a size, and so does their product; then it is the product. Poison is undefined behaviour.
pub compute_alloc_size-Sizes :
    (n : ℕ) (f : FnAttrs) (args : ℕ → Argument)
    → 0 < n
    → fn_has f FnAttribute.alloc_size ≡ true
    → InWidth (args f.allocsize_0)
    → ((f.allocsize_1 == no_second) ≡ false → InWidth (args f.allocsize_1))
    → Sizes n f args
unfolding compute_alloc_size np_two
compute_alloc_size-Sizes n f args p h i j = elim (Bool-cases (f.allocsize_1 == no_second)) [
  | inl e ↦ record {
    not_poison =
        rw (h, e)
          (check_trunc_lem n (args f.allocsize_0) (args f.allocsize_0).state_value.non_poison i);
    no_ub = rw (h, e) refl;
    size =
        rw (h, e)
          (λ k. ap some (
            zext_or_trunc_fits (args f.allocsize_0).width n (first n f args) (
              one_fits (
                sym (
                  check_trunc_lem n (args f.allocsize_0) (args f.allocsize_0).state_value.non_poison
                    i)
                ∙ k))));
  }
  | inr e ↦ record {
    not_poison = rw (h, e) (np_two_lem n (args f.allocsize_0) (args f.allocsize_1) p i (j e));
    no_ub = rw (h, e) refl;
    size =
        rw (h, e) (λ k. ap some (size_two n (args f.allocsize_0) (args f.allocsize_1) p i (j e) k));
  }
]
  where
    one_fits :
        ((args f.allocsize_0).state_value.non_poison && ltb (first n f args) (2 ^ n)) ≡ true
        → first n f args < 2 ^ n
    one_fits k = ground (
      arith,
      second_part (args f.allocsize_0).state_value.non_poison (ltb (first n f args) (2 ^ n)) k,
    )
