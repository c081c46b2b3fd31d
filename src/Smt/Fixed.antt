-- ===== src/Smt/Fixed.antt =====
-- smt/expr.cpp: smul_fix to umul_fix_sat, the products of fixed-point numbers.
pub mod Laws
use alive_next_deprecated.Prelude.{
  ℕ, ◌+◌, ◌-◌, ◌*◌, ◌/◌, ◌%◌, ◌^◌, Bool, ltb, leb, ◌==◌, if◌then◌else◌,
}
use alive_next_deprecated.Smt.Bv.{
  bvmul, bvashr, bvlshr, sext, zext, trunc, zext_or_trunc, extract, int_smin, int_smax, int_umax,
  is_negative,
}

-- `w` is the width of the factors, `wc` that of the scale.
module _ (w wc : ℕ) where
  unfoldable pub smul_fix_helper : ℕ → ℕ → ℕ → ℕ
  smul_fix_helper a b c =
      bvashr (w + w) (bvmul (w + w) (sext w w a) (sext w w b)) (zext_or_trunc wc (2 * w) c)

  unfoldable pub smul_fix : ℕ → ℕ → ℕ → ℕ
  unfolding smul_fix_helper
  smul_fix a b c = trunc w (smul_fix_helper a b c)

  unfoldable pub smul_fix_no_soverflow : ℕ → ℕ → ℕ → Bool
  unfolding smul_fix_helper
  smul_fix_no_soverflow a b c =
      let r = smul_fix_helper a b c in let result = trunc w r in sext w w result == r

  unfoldable pub smul_fix_sat : ℕ → ℕ → ℕ → ℕ
  smul_fix_sat a b c =
      let r = smul_fix_helper a b c in
      if smul_fix_no_soverflow a b c
      then smul_fix a b c
      else if is_negative (w + w) r
      then int_smin w
      else int_smax w

  unfoldable pub umul_fix_helper : ℕ → ℕ → ℕ → ℕ
  umul_fix_helper a b c = bvlshr (bvmul (w + w) (zext w a) (zext w b)) (zext_or_trunc wc (2 * w) c)

  unfoldable pub umul_fix : ℕ → ℕ → ℕ → ℕ
  umul_fix a b c = trunc w (umul_fix_helper a b c)

  unfoldable pub umul_fix_no_uoverflow : ℕ → ℕ → ℕ → Bool
  umul_fix_no_uoverflow a b c = extract (w * 2 - 1) w (umul_fix_helper a b c) == 0

  unfoldable pub umul_fix_sat : ℕ → ℕ → ℕ → ℕ
  umul_fix_sat a b c = if umul_fix_no_uoverflow a b c then umul_fix a b c else int_umax w
