-- ===== src/Smt/Overflow.antt =====
-- smt/expr.cpp: the tests add_no_soverflow to lshr_exact, that a wrapping operation is exact.
--
-- The code looks at the syntax of an operand in two ways, `isConst` and `min_leading_zeros`;
-- `Syntax` holds the answers, which come from the solver's term and are true of its value.
pub mod Add
pub mod Mul
pub mod Shift
use alive_next_deprecated.Prelude.{
  ℕ, ◌+◌, ◌-◌, ◌*◌, ◌/◌, ◌%◌, ◌^◌, Bool, true, false, ◌&&◌, leb, ltb, ◌==◌, if◌then◌else◌,
}
use alive_next_deprecated.Smt.Bv.{
  half, bvadd, bvsub, bvmul, bvsle, bvule, bvshl, bvlshr, bvashr, extract, sext, zext, int_smin,
  int_umax, is_negative,
}

pub record Syntax : Type 0 where
  pub is_const : Bool
  pub min_leading_zeros : ℕ

module _ (w : ℕ) where
  -- The branch for a constant right operand.
  const_add_no_soverflow : ℕ → ℕ → Bool
  const_add_no_soverflow a b =
      let v = bvsub w (int_smin w) b in
      if is_negative w b then bvsle w v a else bvsle w a (bvsub w v 1)

  unfoldable pub add_no_soverflow : Syntax → Syntax → ℕ → ℕ → Bool
  unfolding const_add_no_soverflow
  add_no_soverflow sa sb a b =
      if leb 2 sa.min_leading_zeros && leb 2 sb.min_leading_zeros
      then true
      else if sb.is_const
      then const_add_no_soverflow a b
      else if sa.is_const
      then const_add_no_soverflow b a
      else bvadd (w + 1) (sext w 1 a) (sext w 1 b) == sext w 1 (bvadd w a b)

  const_add_no_uoverflow : ℕ → ℕ → Bool
  const_add_no_uoverflow a b = bvule a (bvsub w (int_umax w) b)

  unfoldable pub add_no_uoverflow : Syntax → Syntax → ℕ → ℕ → Bool
  unfolding const_add_no_uoverflow
  add_no_uoverflow sa sb a b =
      if leb 1 sa.min_leading_zeros && leb 1 sb.min_leading_zeros
      then true
      else if sb.is_const
      then const_add_no_uoverflow a b
      else if sa.is_const
      then const_add_no_uoverflow b a
      else extract w w (bvadd (w + 1) (zext 1 a) (zext 1 b)) == 0

  unfoldable pub add_no_usoverflow : Syntax → Syntax → ℕ → ℕ → Bool
  add_no_usoverflow sa sb a b =
      if leb 1 sa.min_leading_zeros && leb 1 sb.min_leading_zeros
      then true
      else extract w w (bvadd (w + 1) (zext 1 a) (sext w 1 b)) == 0

  unfoldable pub sub_no_soverflow : Syntax → Syntax → ℕ → ℕ → Bool
  sub_no_soverflow sa sb a b =
      if leb 1 sa.min_leading_zeros && leb 1 sb.min_leading_zeros
      then true
      else bvsub (w + 1) (sext w 1 a) (sext w 1 b) == sext w 1 (bvsub w a b)

  unfoldable pub sub_no_uoverflow : ℕ → ℕ → Bool
  sub_no_uoverflow a b = extract w w (bvsub (w + 1) (zext 1 a) (zext 1 b)) == 0

  unfoldable pub mul_no_soverflow : ℕ → ℕ → Bool
  mul_no_soverflow a b = bvmul (w + w) (sext w w a) (sext w w b) == sext w w (bvmul w a b)

  unfoldable pub mul_no_uoverflow : ℕ → ℕ → Bool
  mul_no_uoverflow a b = extract (2 * w - 1) w (bvmul (w + w) (zext w a) (zext w b)) == 0

  unfoldable pub shl_no_soverflow : ℕ → ℕ → Bool
  shl_no_soverflow a b = bvashr w (bvshl w a b) b == a

  unfoldable pub shl_no_uoverflow : ℕ → ℕ → Bool
  shl_no_uoverflow a b = bvlshr (bvshl w a b) b == a

  unfoldable pub ashr_exact : ℕ → ℕ → Bool
  ashr_exact a b = bvshl w (bvashr w a b) b == a

  unfoldable pub lshr_exact : ℕ → ℕ → Bool
  lshr_exact a b = bvshl w (bvlshr a b) b == a
