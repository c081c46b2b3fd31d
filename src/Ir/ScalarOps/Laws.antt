-- ===== src/Ir/ScalarOps/Laws.antt =====
-- About UnaryOp::toSMT and TernaryOp::toSMT (ir/instr.cpp): ffs and umul_fix.
use native.Mathlib.Nat.{mod-eq_of_lt}
use alive_next_deprecated.Prelude.{
  ℕ, suc, ◌+◌, ◌-◌, ◌*◌, ◌/◌, ◌%◌, ◌^◌, ◌<◌, ◌≡◌, refl, arith, ◌&&◌, ltb, min, ◌⊎◌, inl, inr,
}
use alive_next_deprecated.Prelude.Pow.{lt-pow, pow-pos}
use alive_next_deprecated.Prelude.Div.{mod_unique}
use alive_next_deprecated.Smt.Bv.{bit, int_umax}
use alive_next_deprecated.Smt.Count.Position.{IsClear, IsLowest, cttz-IsLowest}
use alive_next_deprecated.Smt.Fixed.Laws.{umul_fix_no_uoverflow_lem, umul_fix_sat_lem}
use alive_next_deprecated.Ir.StateValue.{StateValue}
use alive_next_deprecated.Ir.ScalarOps.{UnOp, TernOp, unary_op, ternary_op}

-- `r` is one more than the position of the lowest one, or 0 where no bit is set.
abbrev pub IsFirstSet : ℕ → ℕ → ℕ → Type 0
IsFirstSet w a r =
    ((i : ℕ) × (i < w) × (bit i a ≡ 1) × IsClear a 0 i × (r ≡ suc i)) ⊎ ((r ≡ 0) × IsClear a 0 w)

add_one : (m i : ℕ) → 1 < m → suc i < m → (i + 1 % m) % m ≡ suc i
add_one m i p h =
    rw (mod-eq_of_lt {n = 1} {m = m} p, mod-eq_of_lt {n = i + 1} {m = m} (omega arith))
      (omega arith)

ffs_lem :
    (w a r : ℕ) → 0 < w → IsLowest a (int_umax w) w r → IsFirstSet w a ((r + 1 % 2 ^ w) % 2 ^ w)
ffs_lem w a r pw (inl (lt, b, z)) =
    inl (r, lt, b, z, add_one (2 ^ w) r (omega (arith, lt-pow w)) (omega (arith, lt-pow w)))
ffs_lem w a r pw (inr (e, z)) = inr (
  rw (e, mod-eq_of_lt {n = 1} {m = 2 ^ w} (omega (arith, lt-pow w)))
      (mod_unique (2 ^ w) (2 ^ w - 1 + 1) 1 0 (pow-pos w) (omega (arith, pow-pos w))),
  z,
)

-- At a positive width, ffs is one more than the position of the lowest one, and 0 where no bit is
-- set.
pub unary_op-ffs :
    (w : ℕ) (v : StateValue) → 0 < w → IsFirstSet w v.value (unary_op w UnOp.ffs v).value
unfolding unary_op
unary_op-ffs w v pw = ffs_lem w v.value _ pw (cttz-IsLowest w v.value (int_umax w))

-- For factors of the width and a scale that fits its double: umul_fix is poison exactly where an
-- operand is or the scaled product does not fit; umul_fix_sat gives the largest number there, and
-- the scaled product else.
pub ternary_op-umul_fix :
    (w wc : ℕ) (a b c : StateValue)
    → 0 < w
    → a.value < 2 ^ w
    → b.value < 2 ^ w
    → c.value < 2 ^ (2 * w)
    → ((ternary_op w wc TernOp.umul_fix a b c).non_poison ≡ (
        (a.non_poison && b.non_poison && c.non_poison)
        && ltb (a.value * b.value / 2 ^ c.value) (2 ^ w)))
      × ((ternary_op w wc TernOp.umul_fix_sat a b c).value
          ≡ min (a.value * b.value / 2 ^ c.value) (2 ^ w - 1))
unfolding ternary_op
ternary_op-umul_fix w wc a b c pw ha hb hc =
    (rw (umul_fix_no_uoverflow_lem w wc pw ha hb hc) refl, umul_fix_sat_lem w wc pw ha hb hc)
