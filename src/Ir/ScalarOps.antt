-- ===== src/Ir/ScalarOps.antt =====
-- ir/instr.cpp: UnaryOp::toSMT and TernaryOp::toSMT on scalars, but for the constants and the sizes
-- of objects, which ask the state.
pub mod Laws
use alive_next_deprecated.Prelude.{ℕ, ◌+◌, ◌-◌, ◌*◌, ◌/◌, ◌%◌, ◌^◌, Bool, true, ◌&&◌}
use alive_next_deprecated.Smt.Bv.{bvadd, int_umax, mk_uint}
use alive_next_deprecated.Smt.Count
use alive_next_deprecated.Smt.Funnel
use alive_next_deprecated.Smt.Fixed
use alive_next_deprecated.Ir.StateValue.{StateValue}

pub data UnOp : Type 0 where
  copy bit_reverse bswap ctpop ffs : UnOp

pub data TernOp : Type 0 where
  fshl fshr smul_fix umul_fix smul_fix_sat umul_fix_sat : TernOp

unfoldable pub unary_op : ℕ → UnOp → StateValue → StateValue
unary_op w copy v = v
unary_op w bit_reverse v = record v { value = Count.bitreverse w v.value }
unary_op w bswap v = record v { value = Count.bswap w v.value }
unary_op w ctpop v = record v { value = Count.ctpop w v.value }
unary_op w ffs v = record v { value = bvadd w (Count.cttz w v.value (int_umax w)) (mk_uint w 1) }

abbrev all_non_poison : StateValue → StateValue → StateValue → Bool
all_non_poison a b c = a.non_poison && b.non_poison && c.non_poison

abbrev plain : ℕ → Bool → StateValue
plain v np = record { value = v; non_poison = np }

-- `w` is the width of the first two operands and `wc` that of the third.
unfoldable pub ternary_op : ℕ → ℕ → TernOp → StateValue → StateValue → StateValue → StateValue
ternary_op w wc fshl a b c = plain (Funnel.fshl w a.value b.value c.value) (all_non_poison a b c)
ternary_op w wc fshr a b c = plain (Funnel.fshr w a.value b.value c.value) (all_non_poison a b c)
ternary_op w wc smul_fix a b c =
    plain (Fixed.smul_fix w wc a.value b.value c.value)
      (all_non_poison a b c && Fixed.smul_fix_no_soverflow w wc a.value b.value c.value)
ternary_op w wc umul_fix a b c =
    plain (Fixed.umul_fix w wc a.value b.value c.value)
      (all_non_poison a b c && Fixed.umul_fix_no_uoverflow w wc a.value b.value c.value)
ternary_op w wc smul_fix_sat a b c =
    plain (Fixed.smul_fix_sat w wc a.value b.value c.value) (all_non_poison a b c)
ternary_op w wc umul_fix_sat a b c =
    plain (Fixed.umul_fix_sat w wc a.value b.value c.value) (all_non_poison a b c)
