-- ===== src/Smt/Order.antt =====
-- smt/expr.cpp: umin, umax, smin, smax, abs and the rounding to a power of two.
pub mod Laws
use alive_next_deprecated.Prelude.{ℕ, ◌+◌, ◌-◌, ◌*◌, ◌/◌, ◌%◌, ◌^◌, Bool, leb, ltb, if◌then◌else◌}
use alive_next_deprecated.Smt.Bv.{
  bvadd, bvsub, bvmul, bvnot, bvand, bvshl, bvsle, bvule, int_umax, zext_or_trunc, mk_uint,
}
use alive_next_deprecated.Smt.Overflow.{Syntax, add_no_uoverflow}

module _ (w : ℕ) where
  unfoldable pub umin : ℕ → ℕ → ℕ
  umin a b = if bvule a b then a else b

  unfoldable pub umax : ℕ → ℕ → ℕ
  umax a b = if bvule b a then a else b

  unfoldable pub smin : ℕ → ℕ → ℕ
  smin a b = if bvsle w a b then a else b

  unfoldable pub smax : ℕ → ℕ → ℕ
  smax a b = if bvsle w b a then a else b

  unfoldable pub abs : ℕ → ℕ
  abs a = if bvsle w 0 a then a else bvmul w (int_umax w) a

  unfoldable pub round_up : ℕ → ℕ → ℕ
  round_up a power_of_two =
      let minus_1 = bvsub w power_of_two (mk_uint w 1) in
      bvand (bvadd w a minus_1) (bvnot w minus_1)

  unfoldable pub round_up_bits : ℕ → ℕ → ℕ → ℕ
  unfolding round_up
  round_up_bits wb a nbits = round_up a (bvshl w (mk_uint w 1) (zext_or_trunc wb w nbits))

  unfoldable pub round_up_bits_no_overflow : Syntax → Syntax → ℕ → ℕ → ℕ → Bool
  round_up_bits_no_overflow sa sm wb a nbits =
      let power_2 = bvshl w (mk_uint w 1) (zext_or_trunc wb w nbits) in
      let minus_1 = bvsub w power_2 (mk_uint w 1) in add_no_uoverflow w sa sm a minus_1
