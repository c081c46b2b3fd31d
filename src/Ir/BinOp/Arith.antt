-- ===== src/Ir/BinOp/Arith.antt =====
-- About BinOp::toSMT (ir/instr.cpp): add, sub, the divisions, the shifts and the overflow bits.
use native.Mathlib.Nat.{mod-eq_of_lt, div-mul-le_self, div-add-mod'}
use alive_next_deprecated.Prelude.{
  ℕ, ◌+◌, ◌-◌, ◌*◌, ◌/◌, ◌%◌, ◌^◌, ◌<◌, ◌≡◌, ◌≢◌, refl, ap, Bool-cases, inl, inr, arith, Bool, true,
  false, ◌&&◌, ◌||◌, if◌then◌else◌, not, ltb, leb, ◌==◌,
}
use alive_next_deprecated.Prelude.Int.{◌+ℤ◌, ◌-ℤ◌, quot}
use alive_next_deprecated.Smt.Bv.{to_int, int_smin, int_umax, to_bv_bool}
use alive_next_deprecated.Smt.Overflow.{Syntax}
use alive_next_deprecated.Smt.Overflow.Add.{
  Describes, fits_signed, add_no_soverflow_lem, add_no_uoverflow_lem, sub_no_soverflow_lem,
  sub_no_uoverflow_lem,
}
use alive_next_deprecated.Smt.Overflow.Mul.{mul_no_uoverflow_lem}
use alive_next_deprecated.Smt.Overflow.Shift.{shl_no_uoverflow_lem, lshr_exact_lem}
use alive_next_deprecated.Smt.Divide.{DivSyntax, bvsdiv, bvsrem, udiv_exact}
use alive_next_deprecated.Smt.Divide.Laws.{AgreesWith, udiv_lem, sdiv_lem, urem_lem, srem_lem}
use alive_next_deprecated.Ir.StateValue.{StateValue}
use alive_next_deprecated.Ir.BinOp.{Op, ZipOp, Flags, when, div_ub, scalar_op, zip_op}
use alive_next_deprecated.Ir.BinOp.Quotient.{quot-fits}

either_test :
    (ap m n : Bool) → when true ((ap && not m) || not n) ≡ (if ap then not (m && n) else not n)
either_test ap m n = ground arith

module _ (w res : ℕ) (pw : 0 < w) (f : Flags) {sa sb : Syntax} (ds : DivSyntax) (a b : StateValue)
    (da : Describes w sa a.value) (db : Describes w sb b.value) where
  -- For operands of the width of which the syntax tells the truth: add is poison exactly where an
  -- operand is or a flag forbids the overflow that happens; its value wraps, and it is never
  -- undefined.
  pub scalar_op-add : scalar_op w res f sa sb ds Op.add a b ≡ (
    record {
      value = (a.value + b.value) % 2 ^ w;
      non_poison =
          a.non_poison
          && b.non_poison
          && (when f.nsw (fits_signed w (to_int w a.value +ℤ to_int w b.value))
              && when f.nuw (ltb (a.value + b.value) (2 ^ w)));
    },
    true,
  )
  unfolding scalar_op
  scalar_op-add = rw (add_no_soverflow_lem w pw da db, add_no_uoverflow_lem w pw da db)

  -- For operands of the width of which the syntax tells the truth: sub is poison exactly where an
  -- operand is, or nsw is given and the signed difference does not fit, or nuw is given and the
  -- subtrahend is the larger; its value wraps, and it is never undefined.
  pub scalar_op-sub : scalar_op w res f sa sb ds Op.sub a b ≡ (
    record {
      value = (a.value + (2 ^ w - b.value)) % 2 ^ w;
      non_poison =
          a.non_poison
          && b.non_poison
          && (when f.nsw (fits_signed w (to_int w a.value -ℤ to_int w b.value))
              && when f.nuw (leb b.value a.value));
    },
    true,
  )
  unfolding scalar_op
  scalar_op-sub = rw (
    sub_no_soverflow_lem w pw da db,
    sub_no_uoverflow_lem w a.value b.value da.in_range db.in_range,
  )

  -- For operands of the width of which the syntax tells the truth: the overflow bits of the signed
  -- and unsigned sums and differences and of the unsigned product are set exactly where the exact
  -- result is not representable.
  pub zip_op-overflow :
      ((zip_op w res f sa sb ds ZipOp.sadd_overflow a b).1.value
        ≡ to_bv_bool (not (fits_signed w (to_int w a.value +ℤ to_int w b.value))))
      × ((zip_op w res f sa sb ds ZipOp.uadd_overflow a b).1.value
          ≡ to_bv_bool (not (ltb (a.value + b.value) (2 ^ w))))
      × ((zip_op w res f sa sb ds ZipOp.ssub_overflow a b).1.value
          ≡ to_bv_bool (not (fits_signed w (to_int w a.value -ℤ to_int w b.value))))
      × ((zip_op w res f sa sb ds ZipOp.usub_overflow a b).1.value
          ≡ to_bv_bool (not (leb b.value a.value)))
      × ((zip_op w res f sa sb ds ZipOp.umul_overflow a b).1.value
          ≡ to_bv_bool (not (ltb (a.value * b.value) (2 ^ w))))
  unfolding zip_op
  zip_op-overflow = (
    rw (add_no_soverflow_lem w pw da db),
    rw (add_no_uoverflow_lem w pw da db),
    rw (sub_no_soverflow_lem w pw da db),
    rw (sub_no_uoverflow_lem w a.value b.value da.in_range db.in_range),
    rw (mul_no_uoverflow_lem w a.value b.value pw da.in_range db.in_range),
  )

  -- For operands of the width: shl without nsw, and lshr, are poison exactly where an operand is,
  -- the amount is the width or more, or nuw or exact is given and a bit is lost.
  pub scalar_op-shift :
      f.nsw ≡ false
      → ((scalar_op w res f sa sb ds Op.shl a b).0.non_poison ≡ (
          a.non_poison
          && b.non_poison
          && (ltb b.value w && true && when f.nuw (ltb (a.value * 2 ^ b.value) (2 ^ w)))))
        × ((scalar_op w res f sa sb ds Op.lshr a b).0.non_poison ≡ (
            a.non_poison
            && b.non_poison
            && (ltb b.value w && when f.exact (a.value % 2 ^ b.value == 0))))
  unfolding scalar_op
  scalar_op-shift e = (
    rw (e, shl_no_uoverflow_lem w a.value b.value),
    rw (lshr_exact_lem w a.value b.value da.in_range),
  )

  -- Where the divisions without a sign, and those with one, are not undefined; a dividend that is
  -- poison may be any, also the least value.
  abbrev pub unsigned_ok : Bool
  unsigned_ok = b.non_poison && not (b.value == 0)

  abbrev pub signed_ok : Bool
  signed_ok =
      b.non_poison
      && (not (b.value == 0)
          && (if a.non_poison
              then fits_signed w (quot (to_int w a.value) (to_int w b.value))
              else not (b.value == int_umax w)))

  signed_div_ub : div_ub w res f sa sb ds a.value b.value a.non_poison true ≡ (
      not (b.value == 0)
      && (if a.non_poison
          then fits_signed w (quot (to_int w a.value) (to_int w b.value))
          else not (b.value == int_umax w)))
  unfolding div_ub
  signed_div_ub = elim (Bool-cases (b.value == 0)) [
    | inl e ↦ rw e refl
    | inr e ↦
        rw (e, quot-fits w pw a.value b.value da.in_range db.in_range (ground arith))
          (either_test a.non_poison (a.value == int_smin w) (b.value == int_umax w))
  ]

  unsigned_div_ub : div_ub w res f sa sb ds a.value b.value a.non_poison false ≡ not (b.value == 0)
  unfolding div_ub
  unsigned_div_ub = ground arith

  -- For operands of the width: udiv and urem are undefined exactly where the divisor is poison or
  -- 0; sdiv and srem also where the exact signed quotient does not fit the width or, for a
  -- dividend that is poison, where the divisor is -1.
  pub scalar_op-div_ub :
      ((scalar_op w res f sa sb ds Op.udiv a b).1 ≡ unsigned_ok)
      × ((scalar_op w res f sa sb ds Op.urem a b).1 ≡ unsigned_ok)
      × ((scalar_op w res f sa sb ds Op.sdiv a b).1 ≡ signed_ok)
      × ((scalar_op w res f sa sb ds Op.srem a b).1 ≡ signed_ok)
  unfolding scalar_op
  scalar_op-div_ub = (
    ap (λ t. b.non_poison && t) unsigned_div_ub,
    ap (λ t. b.non_poison && t) unsigned_div_ub,
    ap (λ t. b.non_poison && t) signed_div_ub,
    ap (λ t. b.non_poison && t) signed_div_ub,
  )

  module _ (ok : AgreesWith w ds a.value b.value) (nz : b.value ≢ 0) where
    exact_lem : udiv_exact w ds a.value b.value ≡ (a.value % b.value == 0)
    unfolding udiv_exact
    exact_lem =
        rw
          (
            udiv_lem w pw ok da.in_range db.in_range nz,
            mod-eq_of_lt {n = a.value / b.value * b.value} {m = 2 ^ w}
                (omega (arith, div-mul-le_self a.value b.value, da.in_range)),
          )
          (ground (arith, div-add-mod' a.value b.value))

    -- For operands of the width, a divisor that is not 0, and shortcuts that tell the truth: udiv
    -- is the quotient, urem is the remainder; both are undefined exactly where the divisor is
    -- poison, and poison exactly where the dividend is or, for udiv, exact is given and a
    -- remainder is left.
    pub scalar_op-unsigned_div :
        (scalar_op w res f sa sb ds Op.udiv a b ≡ (
          record {
            value = a.value / b.value;
            non_poison = a.non_poison && true && when f.exact (a.value % b.value == 0);
          },
          b.non_poison && true,
        ))
        × (scalar_op w res f sa sb ds Op.urem a b ≡ (
          record { value = a.value % b.value; non_poison = a.non_poison && true && true },
          b.non_poison && true,
        ))
    unfolding scalar_op
    scalar_op-unsigned_div = (
      rw (exact_lem, udiv_lem w pw ok da.in_range db.in_range nz, nonzero_test),
      rw (urem_lem w pw ok da.in_range db.in_range nz, nonzero_test),
    )
      where
        nonzero_test : (b.value == 0) ≡ false
        nonzero_test = ground arith

    -- For operands of the width, a divisor that is not 0, shortcuts that tell the truth, and a
    -- quotient that does not overflow: the values of sdiv and srem are SMT-LIB's signed quotient
    -- and remainder.
    pub scalar_op-signed_div :
        ¬ ((a.value ≡ int_smin w) × (b.value ≡ int_umax w))
        → ((scalar_op w res f sa sb ds Op.sdiv a b).0.value ≡ bvsdiv w a.value b.value)
          × ((scalar_op w res f sa sb ds Op.srem a b).0.value ≡ bvsrem w a.value b.value)
    unfolding scalar_op
    scalar_op-signed_div ne = (
      sdiv_lem w pw ok da.in_range db.in_range nz ne,
      srem_lem w pw ok da.in_range db.in_range nz,
    )
