-- ===== src/Ir/ConversionOp.antt =====
-- ir/instr.cpp: ConversionOp::toSMT on integers: sext, zext and trunc.
--
-- `w` is the width of the operand and `to` that of the result.
pub mod Laws
use alive_next_deprecated.Prelude.{
  ℕ, ◌+◌, ◌-◌, ◌/◌, ◌%◌, ◌^◌, Bool, true, ◌&&◌, not, ltb, leb, ◌==◌, if◌then◌else◌,
}
use alive_next_deprecated.Smt.Bv.{extract, is_negative}
use alive_next_deprecated.Smt.Bv
use alive_next_deprecated.Ir.StateValue.{StateValue}

pub data ConvOp : Type 0 where
  sext zext trunc : ConvOp

pub record ConvFlags : Type 0 where
  pub nneg : Bool
  pub nsw : Bool
  pub nuw : Bool

-- The value, and the condition under which it adds no poison.
unfoldable pub conv_fn : ConvOp → ConvFlags → ℕ → ℕ → ℕ → ℕ × Bool
conv_fn sext f w to v = (Bv.sext w (to - w) v, true)
conv_fn zext f w to v = (Bv.zext (to - w) v, if f.nneg then not (is_negative w v) else true)
conv_fn trunc f w to v =
    let val_truncated = Bv.trunc to v in
    (
      val_truncated,
      (if f.nuw then extract (w - 1) to v == 0 else true)
          && (if f.nsw then Bv.sext to (w - to) val_truncated == v else true),
    )

unfoldable pub convert : ConvOp → ConvFlags → ℕ → ℕ → StateValue → StateValue
unfolding conv_fn
convert op f w to v =
    let (v2, np) = conv_fn op f w to v.value in
    record { value = v2; non_poison = v.non_poison && np }
