-- ===== src/Smt/Saturate.antt =====
-- smt/expr.cpp: sadd_sat to ushl_sat, the operations that stop at the end of the range.
pub mod Range
use alive_next_deprecated.Prelude.{ℕ, ◌+◌, ◌-◌, ◌*◌, ◌/◌, ◌%◌, ◌^◌, leb, ltb, if◌then◌else◌}
use alive_next_deprecated.Smt.Bv.{
  bvadd, bvsub, bvshl, bvsle, bvule, sext, int_smin, int_smax, int_umax, is_negative,
}
use alive_next_deprecated.Smt.Overflow.{
  Syntax, add_no_uoverflow, shl_no_soverflow, shl_no_uoverflow,
}

module _ (w : ℕ) where
  unfoldable pub sadd_sat : ℕ → ℕ → ℕ
  sadd_sat a b =
      let add_ext = bvadd (w + 1) (sext w 1 a) (sext w 1 b) in
      if bvsle (w + 1) add_ext (sext w 1 (int_smin w))
      then int_smin w
      else if bvsle (w + 1) (sext w 1 (int_smax w)) add_ext
      then int_smax w
      else bvadd w a b

  unfoldable pub uadd_sat : Syntax → Syntax → ℕ → ℕ → ℕ
  uadd_sat sa sb a b = if add_no_uoverflow w sa sb a b then bvadd w a b else int_umax w

  unfoldable pub ssub_sat : ℕ → ℕ → ℕ
  ssub_sat a b =
      let sub_ext = bvsub (w + 1) (sext w 1 a) (sext w 1 b) in
      if bvsle (w + 1) sub_ext (sext w 1 (int_smin w))
      then int_smin w
      else if bvsle (w + 1) (sext w 1 (int_smax w)) sub_ext
      then int_smax w
      else bvsub w a b

  unfoldable pub usub_sat : ℕ → ℕ → ℕ
  usub_sat a b = if bvule a b then 0 else bvsub w a b

  unfoldable pub sshl_sat : ℕ → ℕ → ℕ
  sshl_sat a b =
      if shl_no_soverflow w a b
      then bvshl w a b
      else if is_negative w a
      then int_smin w
      else int_smax w

  unfoldable pub ushl_sat : ℕ → ℕ → ℕ
  ushl_sat a b = if shl_no_uoverflow w a b then bvshl w a b else int_umax w
