-- ===== src/Smt/Fixed/Laws.antt =====
-- About expr::umul_fix and expr::umul_fix_sat (smt/expr.cpp), against the exact product.
use native.Mathlib.Nat.{mod-eq_of_lt, div-le_self}
use alive_next_deprecated.Prelude.{
  ℕ, ◌+◌, ◌-◌, ◌*◌, ◌/◌, ◌^◌, ◌<◌, ◌≡◌, arith, ltb, ◌==◌, min, ap, ◌∙◌, Bool-cases, inl, inr,
}
use alive_next_deprecated.Prelude.Pow.{pow-add}
use alive_next_deprecated.Smt.Bv.{zext_or_trunc, extract}
use alive_next_deprecated.Smt.Overflow.Mul.{extract-upper, product_lt}
use alive_next_deprecated.Smt.Fixed.{umul_fix_helper, umul_fix, umul_fix_no_uoverflow, umul_fix_sat}

module _ (w wc : ℕ) (pw : 0 < w) {a b c : ℕ} (ha : a < 2 ^ w) (hb : b < 2 ^ w)
    (hc : c < 2 ^ (2 * w)) where
  product_fits : a * b < 2 ^ (w + w)
  product_fits = rw (pow-add w w) (product_lt (2 ^ w) a b ha hb)

  scale_lem : zext_or_trunc wc (2 * w) c ≡ c
  scale_lem = ground (arith, mod-eq_of_lt hc)

  helper_lem : umul_fix_helper w wc a b c ≡ a * b / 2 ^ c
  unfolding umul_fix_helper
  helper_lem = rw (scale_lem, mod-eq_of_lt product_fits)

  helper_lt : a * b / 2 ^ c < 2 ^ (w + w)
  helper_lt = omega (arith, div-le_self (a * b) (2 ^ c), product_fits)

  -- umul_fix_no_uoverflow holds exactly when the scaled product is below 2^w.
  pub umul_fix_no_uoverflow_lem : umul_fix_no_uoverflow w wc a b c ≡ ltb (a * b / 2 ^ c) (2 ^ w)
  unfolding umul_fix_no_uoverflow
  umul_fix_no_uoverflow_lem =
      ap (λ (t : ℕ). extract t w (umul_fix_helper w wc a b c) == 0) {x = w * 2 - 1} {y = 2 * w - 1}
        (omega arith)
      ∙ rw helper_lem (extract-upper w (a * b / 2 ^ c) pw helper_lt)

  -- umul_fix_sat is the scaled product, or the largest value where that is not representable.
  pub umul_fix_sat_lem : umul_fix_sat w wc a b c ≡ min (a * b / 2 ^ c) (2 ^ w - 1)
  unfolding umul_fix_sat umul_fix
  umul_fix_sat_lem =
      rw (umul_fix_no_uoverflow_lem, helper_lem)
        (elim (Bool-cases (ltb (a * b / 2 ^ c) (2 ^ w))) [
          | inl lt ↦
              rw (lt, mod-eq_of_lt {n = a * b / 2 ^ c} {m = 2 ^ w} (ground arith)) (ground arith)
          | inr ge ↦ rw ge (ground arith)
        ])
