-- ===== src/Ir/Constant.antt =====
-- ir/constant.cpp: ConstantBinOp::toSMT and the precondition of a division.
use alive_next_deprecated.Prelude.{
  ℕ, ◌≡◌, arith, Bool, true, false, ◌&&◌, ◌||◌, not, ◌==◌, if◌then◌else◌,
}
use alive_next_deprecated.Smt.Bv.{bvadd, bvsub, int_smin, int_umax}
use alive_next_deprecated.Smt.Overflow.{Syntax}
use alive_next_deprecated.Smt.Divide
use alive_next_deprecated.Smt.Divide.{DivSyntax}
use alive_next_deprecated.Ir.StateValue.{StateValue}
use alive_next_deprecated.Ir.BinOp.{Flags, div_ub}

pub data ConstOp : Type 0 where
  add sub sdiv udiv : ConstOp

-- What is added to the precondition of the transformation.
unfoldable pub const_div_ub : ℕ → ℕ → ℕ → Bool → Bool
const_div_ub w a b sign =
    not (b == 0) && (if sign then not (a == int_smin w) || not (b == int_umax w) else true)

-- The value, and the precondition.
unfoldable pub const_bin_op : ℕ → DivSyntax → ConstOp → StateValue → StateValue → StateValue × Bool
unfolding const_div_ub
const_bin_op w ds add a b =
    (record { value = bvadd w a.value b.value; non_poison = a.non_poison && b.non_poison }, true)
const_bin_op w ds sub a b =
    (record { value = bvsub w a.value b.value; non_poison = a.non_poison && b.non_poison }, true)
const_bin_op w ds sdiv a b = (
  record { value = Divide.sdiv w ds a.value b.value; non_poison = a.non_poison && b.non_poison },
  const_div_ub w a.value b.value true,
)
const_bin_op w ds udiv a b = (
  record { value = Divide.udiv w ds a.value b.value; non_poison = a.non_poison && b.non_poison },
  const_div_ub w a.value b.value false,
)

-- The precondition of a constant division is the definedness of the instruction, for a dividend
-- that is not poison.
const_div_ub-div_ub :
    (w res : ℕ) (f : Flags) (sa sb : Syntax) (ds : DivSyntax) (a b : ℕ) (sign : Bool)
    → const_div_ub w a b sign ≡ div_ub w res f sa sb ds a b true sign
unfolding const_div_ub div_ub
const_div_ub-div_ub w res f sa sb ds a b sign = ground arith
