-- ===== src/Ir/Vector.antt =====
-- ir/instr.cpp: BinOp::toSMT lane by lane, Select::toSMT on integers, and ShuffleVector::toSMT.
--
-- A vector is the list of its lanes. What the code sees of the terms of a lane depends on its
-- number. The value of a lane that is poison for certain (getDummyValue) is 0.
use alive_next_deprecated.Prelude.{
  ℕ, zero, suc, ◌-◌, ◌*◌, ◌%◌, ◌<◌, ◌≤◌, ◌≡◌, refl, arith, Bool, true, false, ◌&&◌, ltb, leb, ◌==◌,
  List, [], ◌∷◌, ◌++◌, get_or, length, if◌then◌else◌, ◌∙◌, Bool-cases, inl, inr,
}
use alive_next_deprecated.Prelude.Div.{mod_once}
use alive_next_deprecated.Smt.Overflow.{Syntax}
use alive_next_deprecated.Smt.Divide.{DivSyntax}
use alive_next_deprecated.Ir.StateValue.{StateValue}
use alive_next_deprecated.Ir.BinOp.{Op, Flags, is_div_or_rem, get_val, not_poison, lane_op}

abbrev pub Lanes : Type 0
Lanes = List StateValue

abbrev pub dummy : StateValue
dummy = record { value = 0; non_poison = false }

abbrev pub lane : Lanes → ℕ → StateValue
lane v i = get_or v i dummy

-- getVal on a vector.
abbrev pub get_lanes : Lanes → Bool → Lanes
get_lanes [] is_poison_ub = []
get_lanes (v ∷ vs) is_poison_ub = get_val v is_poison_ub ∷ get_lanes vs is_poison_ub

abbrev pub lanes_not_poison : Lanes → Bool → Bool
lanes_not_poison [] is_poison_ub = true
lanes_not_poison (v ∷ vs) is_poison_ub =
    not_poison v is_poison_ub && lanes_not_poison vs is_poison_ub

-- abs, cttz and ctlz take their second operand from a scalar.
unfoldable pub scalar_rhs : Op → Bool
scalar_rhs op = elim op [ Op.abs ↦ true | Op.cttz ↦ true | Op.ctlz ↦ true | _ ↦ false ]

module _ (w res : ℕ) (f : Flags) (sa sb : ℕ → Syntax) (ds : ℕ → DivSyntax) where
  -- The rounds from `i` on, and whether all lanes are without undefined behaviour.
  unfoldable pub bin_lanes : Op → ℕ → Lanes → (ℕ → StateValue) → Lanes × Bool
  bin_lanes op i [] b = ([], true)
  bin_lanes op i (ai ∷ rest) b =
      let (v, ub) = lane_op w res f (sa i) (sb i) (ds i) op ai (b i) in
      let (vals, ubs) = bin_lanes op (suc i) rest b in (v ∷ vals, ub && ubs)

  -- The divisions read a vector whose lanes are not poison, and the state gets that they are not.
  unfoldable pub bin_op_vector : Op → Lanes → Lanes → StateValue → Lanes × Bool
  unfolding bin_lanes scalar_rhs is_div_or_rem
  bin_op_vector op a b scalar =
      let poison_ub = is_div_or_rem op in
      let (vals, no_ub) =
        bin_lanes op 0 a
          (λ (i : ℕ). if scalar_rhs op then scalar else lane (get_lanes b poison_ub) i) in
      (vals, lanes_not_poison b poison_ub && no_ub)

unfoldable pub select_value : StateValue → StateValue → StateValue → StateValue
select_value c a b =
    let cond = c.value == 1 in
    record {
      value = if cond then a.value else b.value;
      non_poison = c.non_poison && (if cond then a.non_poison else b.non_poison);
    }

-- The lane that a number of the mask names, of two vectors of the same size.
unfoldable pub shuffle_lane : Lanes → Lanes → ℕ → StateValue
shuffle_lane v1 v2 m =
    let sz = length v1 in
    if leb (2 * sz) m then dummy else lane (if ltb m sz then v1 else v2) (m % sz)

unfoldable pub shuffle : Lanes → Lanes → List ℕ → Lanes
unfolding shuffle_lane
shuffle v1 v2 [] = []
shuffle v1 v2 (m ∷ mask) = shuffle_lane v1 v2 m ∷ shuffle v1 v2 mask

lane-append :
    (v1 v2 : Lanes) (m : ℕ)
    → lane (v1 ++ v2) m ≡ (if ltb m (length v1) then lane v1 m else lane v2 (m - length v1))
lane-append [] v2 m = ground arith
lane-append (x ∷ v1) v2 zero = ground arith
lane-append (x ∷ v1) v2 (suc m) = lane-append v1 v2 m ∙ ground arith

lane-beyond : (v : Lanes) (i : ℕ) → length v ≤ i → lane v i ≡ dummy
lane-beyond [] i h = refl
lane-beyond (x ∷ v) zero h = absurd (omega arith)
lane-beyond (x ∷ v) (suc i) h = lane-beyond v i (omega arith)

shuffle_lane_lem :
    (v1 v2 : Lanes) (m : ℕ) → length v1 ≡ length v2 → shuffle_lane v1 v2 m ≡ lane (v1 ++ v2) m
unfolding shuffle_lane
shuffle_lane_lem v1 v2 m e = elim (Bool-cases (leb (2 * length v1) m)) [
  | inl far ↦ rw (far, lane-append v1 v2 m) (ground (arith, lane-beyond v2 (m - length v1)))
  | inr near ↦ rw (near, lane-append v1 v2 m, mod_once (length v1) m (ground arith)) (ground arith)
]

-- For two vectors of one size and a lane of the mask, shuffle gives the lane of the two vectors
-- joined that the mask names, and poison for a number beyond both.
pub shuffle_lem :
    (v1 v2 : Lanes) (mask : List ℕ) (i : ℕ)
    → length v1 ≡ length v2
    → i < length mask
    → lane (shuffle v1 v2 mask) i ≡ lane (v1 ++ v2) (get_or mask i 0)
unfolding shuffle
shuffle_lem v1 v2 [] i e h = elim h [ ]
shuffle_lem v1 v2 (m ∷ mask) zero e h = shuffle_lane_lem v1 v2 m e
shuffle_lem v1 v2 (m ∷ mask) (suc i) e h = shuffle_lem v1 v2 mask i e (omega arith)
