-- ===== src/Ir/BinOp.antt =====
-- ir/instr.cpp: div_ub and BinOp::toSMT, on scalars; ir/state.cpp: State::getVal.
--
-- `w` is the width of the operands; `sa` and `sb` are what the code sees of their terms, `ds` what
-- the divisions see. A scalar operation gives its value, the condition under which it adds no
-- poison, and the condition under which it has no undefined behaviour.
pub mod Quotient
pub mod Arith
use alive_next_deprecated.Prelude.{
  ℕ, ◌+◌, ◌-◌, ◌*◌, ◌/◌, ◌%◌, ◌^◌, Bool, true, false, ◌&&◌, ◌||◌, not, ltb, leb, ◌==◌,
  if◌then◌else◌, List, [], ◌∷◌,
}
use alive_next_deprecated.Smt.Bv.{
  bvadd, bvsub, bvmul, bvshl, bvlshr, bvashr, bvand, bvor, bvxor, bvult, bvslt, int_smin, int_umax,
  mk_uint, to_bv_bool,
}
use alive_next_deprecated.Smt.Overflow
use alive_next_deprecated.Smt.Overflow.{Syntax}
use alive_next_deprecated.Smt.Divide
use alive_next_deprecated.Smt.Divide.{DivSyntax}
use alive_next_deprecated.Smt.Saturate
use alive_next_deprecated.Smt.Order
use alive_next_deprecated.Smt.Count
use alive_next_deprecated.Ir.StateValue.{StateValue}

pub data Op : Type 0 where
  add sub mul sdiv udiv srem urem shl ashr lshr : Op
  sadd_sat uadd_sat ssub_sat usub_sat sshl_sat ushl_sat : Op
  and or xor cttz ctlz : Op
  umin umax smin smax abs ucmp scmp clmul pext pdep : Op

unfoldable pub is_div_or_rem : Op → Bool
is_div_or_rem op = elim op [ sdiv ↦ true | srem ↦ true | udiv ↦ true | urem ↦ true | _ ↦ false ]

-- The operations that also tell whether they overflowed (`vertical_zip`).
pub data ZipOp : Type 0 where
  sadd_overflow uadd_overflow ssub_overflow usub_overflow smul_overflow umul_overflow : ZipOp

pub record Flags : Type 0 where
  pub nsw : Bool
  pub nuw : Bool
  pub exact : Bool
  pub disjoint : Bool

pub record Outcome : Type 0 where
  pub value : ℕ
  pub non_poison : Bool
  pub no_ub : Bool

abbrev pub when : Bool → Bool → Bool
when flag test = if flag then test else true

-- State::getVal, for the first use of the value: where poison is undefined behaviour, what is read
-- is not poison, and the state gets the condition that the value is not.
abbrev pub get_val : StateValue → Bool → StateValue
get_val v is_poison_ub = if is_poison_ub then record v { non_poison = true } else v

abbrev pub not_poison : StateValue → Bool → Bool
not_poison v is_poison_ub = if is_poison_ub then v.non_poison else true

abbrev pure : ℕ → Bool → Outcome
pure v np = record { value = v; non_poison = np; no_ub = true }

-- `ap` and `bp` tell that the operands are not poison; `res` is the width of a comparison's result.
module _ (w res : ℕ) (flags : Flags) (sa sb : Syntax) (ds : DivSyntax) where
  unfoldable pub div_ub : ℕ → ℕ → Bool → Bool → Bool
  div_ub a b ap sign =
      not (b == 0) && when sign ((ap && not (a == int_smin w)) || not (b == int_umax w))

  abbrev division : ℕ → Bool → Bool → Outcome
  division v exact no_ub = record { value = v; non_poison = exact; no_ub = no_ub }

  abbrev add_fn : ℕ → ℕ → Outcome
  add_fn a b = pure (bvadd w a b) (
      when flags.nsw (Overflow.add_no_soverflow w sa sb a b)
      && when flags.nuw (Overflow.add_no_uoverflow w sa sb a b))

  abbrev sub_fn : ℕ → ℕ → Outcome
  sub_fn a b = pure (bvsub w a b) (
      when flags.nsw (Overflow.sub_no_soverflow w sa sb a b)
      && when flags.nuw (Overflow.sub_no_uoverflow w a b))

  abbrev mul_fn : ℕ → ℕ → Outcome
  mul_fn a b = pure (bvmul w a b) (
      when flags.nsw (Overflow.mul_no_soverflow w a b)
      && when flags.nuw (Overflow.mul_no_uoverflow w a b))

  abbrev sdiv_fn : ℕ → Bool → ℕ → Outcome
  unfolding div_ub
  sdiv_fn a ap b =
      division (Divide.sdiv w ds a b) (when flags.exact (Divide.sdiv_exact w ds a b))
        (div_ub a b ap true)

  abbrev udiv_fn : ℕ → Bool → ℕ → Outcome
  unfolding div_ub
  udiv_fn a ap b =
      division (Divide.udiv w ds a b) (when flags.exact (Divide.udiv_exact w ds a b))
        (div_ub a b ap false)

  abbrev srem_fn : ℕ → Bool → ℕ → Outcome
  unfolding div_ub
  srem_fn a ap b = division (Divide.srem w ds a b) true (div_ub a b ap true)

  abbrev urem_fn : ℕ → Bool → ℕ → Outcome
  unfolding div_ub
  urem_fn a ap b = division (Divide.urem w ds a b) true (div_ub a b ap false)

  abbrev shl_fn : ℕ → ℕ → Outcome
  shl_fn a b = pure (bvshl w a b) (
      bvult b w
      && when flags.nsw (Overflow.shl_no_soverflow w a b)
      && when flags.nuw (Overflow.shl_no_uoverflow w a b))

  abbrev ashr_fn : ℕ → ℕ → Outcome
  ashr_fn a b = pure (bvashr w a b) (bvult b w && when flags.exact (Overflow.ashr_exact w a b))

  abbrev lshr_fn : ℕ → ℕ → Outcome
  lshr_fn a b = pure (bvlshr a b) (bvult b w && when flags.exact (Overflow.lshr_exact w a b))

  abbrev sadd_sat_fn : ℕ → ℕ → Outcome
  sadd_sat_fn a b = pure (Saturate.sadd_sat w a b) true

  abbrev uadd_sat_fn : ℕ → ℕ → Outcome
  uadd_sat_fn a b = pure (Saturate.uadd_sat w sa sb a b) true

  abbrev ssub_sat_fn : ℕ → ℕ → Outcome
  ssub_sat_fn a b = pure (Saturate.ssub_sat w a b) true

  abbrev usub_sat_fn : ℕ → ℕ → Outcome
  usub_sat_fn a b = pure (Saturate.usub_sat w a b) true

  abbrev sshl_sat_fn : ℕ → ℕ → Outcome
  sshl_sat_fn a b = pure (Saturate.sshl_sat w a b) (bvult b w)

  abbrev ushl_sat_fn : ℕ → ℕ → Outcome
  ushl_sat_fn a b = pure (Saturate.ushl_sat w a b) (bvult b w)

  unfoldable pub bin_op : Op → ℕ → Bool → ℕ → Bool → Outcome
  unfolding div_ub
  bin_op add a ap b bp = add_fn a b
  bin_op sub a ap b bp = sub_fn a b
  bin_op mul a ap b bp = mul_fn a b
  bin_op sdiv a ap b bp = sdiv_fn a ap b
  bin_op udiv a ap b bp = udiv_fn a ap b
  bin_op srem a ap b bp = srem_fn a ap b
  bin_op urem a ap b bp = urem_fn a ap b
  bin_op shl a ap b bp = shl_fn a b
  bin_op ashr a ap b bp = ashr_fn a b
  bin_op lshr a ap b bp = lshr_fn a b
  bin_op sadd_sat a ap b bp = sadd_sat_fn a b
  bin_op uadd_sat a ap b bp = uadd_sat_fn a b
  bin_op ssub_sat a ap b bp = ssub_sat_fn a b
  bin_op usub_sat a ap b bp = usub_sat_fn a b
  bin_op sshl_sat a ap b bp = sshl_sat_fn a b
  bin_op ushl_sat a ap b bp = ushl_sat_fn a b
  bin_op and a ap b bp = pure (bvand a b) true
  bin_op or a ap b bp = pure (bvor a b) (when flags.disjoint (bvand a b == 0))
  bin_op xor a ap b bp = pure (bvxor a b) true
  bin_op cttz a ap b bp = pure (Count.cttz w a (mk_uint w w)) (b == 0 || not (a == 0))
  bin_op ctlz a ap b bp = pure (Count.ctlz w a) (b == 0 || not (a == 0))
  bin_op umin a ap b bp = pure (Order.umin w a b) (ap && bp)
  bin_op umax a ap b bp = pure (Order.umax w a b) (ap && bp)
  bin_op smin a ap b bp = pure (Order.smin w a b) (ap && bp)
  bin_op smax a ap b bp = pure (Order.smax w a b) (ap && bp)
  bin_op abs a ap b bp = pure (Order.abs w a) (ap && bp && (b == 0 || not (a == int_smin w)))
  bin_op ucmp a ap b bp =
      pure (if a == b then 0 else if bvult a b then int_umax res else mk_uint res 1) (ap && bp)
  bin_op scmp a ap b bp =
      pure (if a == b then 0 else if bvslt w a b then int_umax res else mk_uint res 1) (ap && bp)
  bin_op clmul a ap b bp = pure (Count.clmul w a b) (ap && bp)
  bin_op pext a ap b bp = pure (Count.pext w a b) (ap && bp)
  bin_op pdep a ap b bp = pure (Count.pdep w a b) (ap && bp)

  -- The value and the overflow bit, as a one-bit vector.
  unfoldable pub zip_fn : ZipOp → ℕ → ℕ → ℕ × ℕ
  zip_fn sadd_overflow a b = (bvadd w a b, to_bv_bool (not (Overflow.add_no_soverflow w sa sb a b)))
  zip_fn uadd_overflow a b = (bvadd w a b, to_bv_bool (not (Overflow.add_no_uoverflow w sa sb a b)))
  zip_fn ssub_overflow a b = (bvsub w a b, to_bv_bool (not (Overflow.sub_no_soverflow w sa sb a b)))
  zip_fn usub_overflow a b = (bvsub w a b, to_bv_bool (not (Overflow.sub_no_uoverflow w a b)))
  zip_fn smul_overflow a b = (bvmul w a b, to_bv_bool (not (Overflow.mul_no_soverflow w a b)))
  zip_fn umul_overflow a b = (bvmul w a b, to_bv_bool (not (Overflow.mul_no_uoverflow w a b)))

  -- The lambda scalar_op: poison of an operand is poison of the result.
  unfoldable pub lane_op : Op → StateValue → StateValue → StateValue × Bool
  unfolding bin_op
  lane_op op a b =
      let r = bin_op op a.value a.non_poison b.value b.non_poison in
      (
        record { value = r.value; non_poison = a.non_poison && b.non_poison && r.non_poison },
        r.no_ub,
      )

  -- The lambda on scalars, the right operand read by getVal.
  unfoldable pub scalar_op : Op → StateValue → StateValue → StateValue × Bool
  unfolding lane_op is_div_or_rem
  scalar_op op a b =
      let (v, no_ub) = lane_op op a (get_val b (is_div_or_rem op)) in
      (v, not_poison b (is_div_or_rem op) && no_ub)

  unfoldable pub zip_op : ZipOp → StateValue → StateValue → StateValue × StateValue
  unfolding zip_fn
  zip_op op a b =
      let (v1, v2) = zip_fn op a.value b.value in
      let np = a.non_poison && b.non_poison in
      (record { value = v1; non_poison = np }, record { value = v2; non_poison = np })
