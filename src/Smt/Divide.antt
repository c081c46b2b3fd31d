-- ===== src/Smt/Divide.antt =====
-- smt/expr.cpp: sdiv, udiv, srem and urem with their shortcuts, and the tests of exactness.
--
-- A shortcut looks at the terms of the operands, not at their values; `DivSyntax` holds the
-- answers. Outside the shortcuts the solver's operation is built, whose result SMT-LIB defines for
-- a zero divisor too.
pub mod Laws
use alive_next_deprecated.Prelude.{
  ℕ, ◌-◌, ◌+◌, ◌*◌, ◌/◌, ◌%◌, ◌^◌, Bool, ◌&&◌, ◌||◌, Option, none, some, ltb, leb, ◌==◌,
  if◌then◌else◌,
}
use alive_next_deprecated.Smt.Bv.{bvneg, bvmul, half, int_umax, is_negative, mk_uint}

-- Is the right operand the same term (`eq`); which constants are the operands (`isZero`, `isOne`,
-- `isSMin`, `isAllOnes`, `isUInt`); are both known not to be negative; and the exponent that
-- is_power2 finds for a constant right operand.
pub record DivSyntax : Type 0 where
  pub same : Bool
  pub lhs_zero : Bool
  pub lhs_smin : Bool
  pub rhs_zero : Bool
  pub rhs_one : Bool
  pub rhs_all_ones : Bool
  pub non_negative : Bool
  pub rhs_const : Option ℕ
  pub rhs_log : Option ℕ

-- SMT-LIB's bvudiv and bvurem.
abbrev pub bvudiv : ℕ → ℕ → ℕ → ℕ
bvudiv w a b = if b == 0 then int_umax w else a / b

abbrev pub bvurem : ℕ → ℕ → ℕ
bvurem a b = if b == 0 then a else a % b

-- SMT-LIB defines the signed operations by the unsigned ones on the absolute values.
abbrev pub magnitude : ℕ → ℕ → ℕ
magnitude w a = if ltb a (half w) then a else bvneg w a

abbrev pub bvsdiv : ℕ → ℕ → ℕ → ℕ
bvsdiv w a b =
    let q = bvudiv w (magnitude w a) (magnitude w b) in
    if ltb a (half w)
    then if ltb b (half w) then q else bvneg w q
    else if ltb b (half w)
    then bvneg w q
    else q

abbrev pub bvsrem : ℕ → ℕ → ℕ → ℕ
bvsrem w a b =
    let r = bvurem (magnitude w a) (magnitude w b) in if ltb a (half w) then r else bvneg w r

module _ (w : ℕ) (s : DivSyntax) where
  unfoldable pub sdiv : ℕ → ℕ → ℕ
  sdiv a b =
      if s.same
      then mk_uint w 1
      else if s.rhs_zero
      then b
      else if s.lhs_zero || s.rhs_one
      then a
      else if s.lhs_smin && s.rhs_all_ones
      then mk_uint w 0
      else bvsdiv w a b

  unfoldable pub udiv : ℕ → ℕ → ℕ
  udiv a b =
      if s.same
      then mk_uint w 1
      else if s.rhs_zero
      then b
      else if s.lhs_zero || s.rhs_one
      then a
      else bvudiv w a b

  -- The constant `n` on the right: 0 and 1 give 0, a power of two keeps the low bits.
  urem_const : ℕ → ℕ → Option ℕ → ℕ → ℕ
  urem_const a b (some log) n = if leb n 1 then mk_uint w 0 else a % 2 ^ log
  urem_const a b none n = if leb n 1 then mk_uint w 0 else bvurem a b

  urem_step : ℕ → ℕ → Option ℕ → ℕ
  urem_step a b (some n) = urem_const a b s.rhs_log n
  urem_step a b none = bvurem a b

  unfoldable pub urem : ℕ → ℕ → ℕ
  unfolding urem_const urem_step
  urem a b = if s.same || s.lhs_zero then mk_uint w 0 else urem_step a b s.rhs_const

  unfoldable pub srem : ℕ → ℕ → ℕ
  srem a b =
      if s.same || s.lhs_zero || (s.lhs_smin && s.rhs_all_ones)
      then mk_uint w 0
      else if s.rhs_zero
      then b
      else if s.non_negative
      then urem a b
      else bvsrem w a b

  unfoldable pub sdiv_exact : ℕ → ℕ → Bool
  sdiv_exact a b = bvmul w (sdiv a b) b == a

  unfoldable pub udiv_exact : ℕ → ℕ → Bool
  udiv_exact a b = bvmul w (udiv a b) b == a
