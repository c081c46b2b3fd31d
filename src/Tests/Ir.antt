-- ===== src/Tests/Ir.antt =====
-- Inputs for the tests of the instructions and of the alias sets.
use alive_next_deprecated.Prelude.{
  ℕ, ◌+◌, ◌*◌, ◌-◌, ◌/◌, ◌%◌, ◌^◌, ◌≡◌, refl, arith, true, false, ◌&&◌, ◌||◌, not, ltb, leb, ◌==◌,
  none, min, ◌∷◌, [], ◌++◌, List, get_or, if◌then◌else◌,
}
use alive_next_deprecated.Prelude.Int.{◌+ℤ◌, ◌-ℤ◌, quot, ltb_ℤ, leb_ℤ}
use alive_next_deprecated.Smt.Bv.{to_int, to_bv_bool, int_umax, half}
use alive_next_deprecated.Smt.Overflow.Add.{fits_signed}
use alive_next_deprecated.Smt.Divide.{DivSyntax, bvsdiv, bvsrem}
use alive_next_deprecated.Smt.Divide.Laws.{AgreesWith}
use alive_next_deprecated.Tests.Arith.{plain, plain-Describes}
use alive_next_deprecated.Ir.StateValue.{StateValue}
use alive_next_deprecated.Ir.BinOp.{Flags, Op, ZipOp, when, scalar_op, zip_op}
use alive_next_deprecated.Ir.BinOp.Arith.{
  scalar_op-add, scalar_op-sub, zip_op-overflow, scalar_op-shift, scalar_op-div_ub,
  scalar_op-unsigned_div, scalar_op-signed_div,
}
use alive_next_deprecated.Ir.ICmp.{Cond, compare, compare-signed}
use alive_next_deprecated.Ir.ConversionOp.{ConvOp, ConvFlags, conv_fn}
use alive_next_deprecated.Ir.ConversionOp.Laws.{conv_fn-extend, conv_fn-trunc}
use alive_next_deprecated.Ir.ScalarOps.{UnOp, TernOp, unary_op, ternary_op}
use alive_next_deprecated.Ir.ScalarOps.Laws.{IsFirstSet, unary_op-ffs, ternary_op-umul_fix}
use alive_next_deprecated.Ir.Vector.{Lanes, lane, dummy, bin_op_vector, shuffle, shuffle_lem}
use alive_next_deprecated.Ir.AliasSet.{
  AliasSet, size, may_alias, may_alias_expr, intersect_with, union_with, set_may_alias_up_to,
}
use alive_next_deprecated.Ir.AliasSet.Sets.{may_alias-intersect_union, may_alias-set_up_to}
use alive_next_deprecated.Ir.AliasSet.Query.{may_alias_expr_sound, may_alias_expr_missed}

abbrev defined : ℕ → StateValue
defined n = record { value = n; non_poison = true }

abbrev all_flags : Flags
all_flags = record { nsw = true; nuw = true; exact = true; disjoint = false }

abbrev nuw_exact : Flags
nuw_exact = record { nsw = false; nuw = true; exact = true; disjoint = false }

-- Two terms on which no shortcut of a division applies.
abbrev no_shortcut : DivSyntax
no_shortcut = record {
  same = false;
  lhs_zero = false;
  lhs_smin = false;
  rhs_zero = false;
  rhs_one = false;
  rhs_all_ones = false;
  non_negative = false;
  rhs_const = none;
  rhs_log = none;
}

no_shortcut-AgreesWith : (w a b : ℕ) → AgreesWith w no_shortcut a b
no_shortcut-AgreesWith w a b = record {
  same = λ h. cc;
  lhs_zero = λ h. cc;
  lhs_smin = λ h. cc;
  rhs_zero = λ h. cc;
  rhs_one = λ h. cc;
  rhs_all_ones = λ h. cc;
  non_negative = λ h. cc;
  rhs_const = λ n h. cc;
  rhs_log = λ k n h g. cc;
}

add_example : scalar_op 8 1 all_flags plain plain no_shortcut Op.add (defined 100) (defined 90) ≡ (
  record {
    value = (100 + 90) % 2 ^ 8;
    non_poison =
        true
        && true
        && (when true (fits_signed 8 (to_int 8 100 +ℤ to_int 8 90))
            && when true (ltb (100 + 90) (2 ^ 8)));
  },
  true,
)
add_example =
    scalar_op-add 8 1 (omega arith) all_flags no_shortcut (defined 100) (defined 90)
      (plain-Describes 8 100 (omega arith)) (plain-Describes 8 90 (omega arith))

sub_example : scalar_op 8 1 all_flags plain plain no_shortcut Op.sub (defined 100) (defined 190) ≡ (
  record {
    value = (100 + (2 ^ 8 - 190)) % 2 ^ 8;
    non_poison =
        true
        && true
        && (when true (fits_signed 8 (to_int 8 100 -ℤ to_int 8 190)) && when true (leb 190 100));
  },
  true,
)
sub_example =
    scalar_op-sub 8 1 (omega arith) all_flags no_shortcut (defined 100) (defined 190)
      (plain-Describes 8 100 (omega arith)) (plain-Describes 8 190 (omega arith))

overflow_example :
    ((zip_op 8 1 all_flags plain plain no_shortcut ZipOp.sadd_overflow
        (defined 100)
        (defined 190)).1.value
      ≡ to_bv_bool (not (fits_signed 8 (to_int 8 100 +ℤ to_int 8 190))))
    × ((zip_op 8 1 all_flags plain plain no_shortcut ZipOp.uadd_overflow
          (defined 100)
          (defined 190)).1.value
        ≡ to_bv_bool (not (ltb (100 + 190) (2 ^ 8))))
    × ((zip_op 8 1 all_flags plain plain no_shortcut ZipOp.ssub_overflow
          (defined 100)
          (defined 190)).1.value
        ≡ to_bv_bool (not (fits_signed 8 (to_int 8 100 -ℤ to_int 8 190))))
    × ((zip_op 8 1 all_flags plain plain no_shortcut ZipOp.usub_overflow
          (defined 100)
          (defined 190)).1.value
        ≡ to_bv_bool (not (leb 190 100)))
    × ((zip_op 8 1 all_flags plain plain no_shortcut ZipOp.umul_overflow
          (defined 100)
          (defined 190)).1.value
        ≡ to_bv_bool (not (ltb (100 * 190) (2 ^ 8))))
overflow_example =
    zip_op-overflow 8 1 (omega arith) all_flags no_shortcut (defined 100) (defined 190)
      (plain-Describes 8 100 (omega arith)) (plain-Describes 8 190 (omega arith))

shift_example :
    ((scalar_op 8 1 nuw_exact plain plain no_shortcut Op.shl (defined 100) (defined 2)).0.non_poison
      ≡ (true && true && (ltb 2 8 && true && when true (ltb (100 * 2 ^ 2) (2 ^ 8)))))
    × ((scalar_op 8 1 nuw_exact plain plain no_shortcut Op.lshr
          (defined 100)
          (defined 2)).0.non_poison
        ≡ (true && true && (ltb 2 8 && when true (100 % 2 ^ 2 == 0))))
shift_example =
    scalar_op-shift 8 1 (omega arith) nuw_exact no_shortcut (defined 100) (defined 2)
      (plain-Describes 8 100 (omega arith)) (plain-Describes 8 2 (omega arith)) refl

div_ub_example :
    ((scalar_op 8 1 all_flags plain plain no_shortcut Op.udiv (defined 128) (defined 255)).1
      ≡ (true && not (255 == 0)))
    × ((scalar_op 8 1 all_flags plain plain no_shortcut Op.urem (defined 128) (defined 255)).1
        ≡ (true && not (255 == 0)))
    × ((scalar_op 8 1 all_flags plain plain no_shortcut Op.sdiv (defined 128) (defined 255)).1 ≡ (
        true
        && (not (255 == 0)
            && (if true
                then fits_signed 8 (quot (to_int 8 128) (to_int 8 255))
                else not (255 == int_umax 8)))))
    × ((scalar_op 8 1 all_flags plain plain no_shortcut Op.srem (defined 128) (defined 255)).1 ≡ (
        true
        && (not (255 == 0)
            && (if true
                then fits_signed 8 (quot (to_int 8 128) (to_int 8 255))
                else not (255 == int_umax 8)))))
div_ub_example =
    scalar_op-div_ub 8 1 (omega arith) all_flags no_shortcut (defined 128) (defined 255)
      (plain-Describes 8 128 (omega arith)) (plain-Describes 8 255 (omega arith))

unsigned_div_example :
    (scalar_op 8 1 all_flags plain plain no_shortcut Op.udiv (defined 100) (defined 7) ≡ (
      record { value = 100 / 7; non_poison = true && true && when true (100 % 7 == 0) },
      true && true,
    ))
    × (scalar_op 8 1 all_flags plain plain no_shortcut Op.urem (defined 100) (defined 7)
        ≡ (record { value = 100 % 7; non_poison = true && true && true }, true && true))
unsigned_div_example =
    scalar_op-unsigned_div 8 1 (omega arith) all_flags no_shortcut (defined 100) (defined 7)
      (plain-Describes 8 100 (omega arith)) (plain-Describes 8 7 (omega arith))
      (no_shortcut-AgreesWith 8 100 7) (λ h. absurd (omega arith))

-- A divisor that is poison, whatever its value.
poison-udiv :
    (scalar_op 8 1 all_flags plain plain no_shortcut Op.udiv
      (defined 100)
      (record { value = 7; non_poison = false })).1
    ≡ false
unfolding scalar_op
poison-udiv = refl

poison-bin_op_vector :
    (bin_op_vector 8 1 all_flags
      (λ i. plain)
      (λ i. plain)
      (λ i. no_shortcut)
      Op.udiv
      (defined 100 ∷ defined 9 ∷ [])
      (defined 7 ∷ record { value = 3; non_poison = false } ∷ [])
      dummy).1
    ≡ false
unfolding bin_op_vector
poison-bin_op_vector = refl

signed_div_example :
    ((scalar_op 8 1 all_flags plain plain no_shortcut Op.sdiv (defined 200) (defined 7)).0.value
      ≡ bvsdiv 8 200 7)
    × ((scalar_op 8 1 all_flags plain plain no_shortcut Op.srem (defined 200) (defined 7)).0.value
        ≡ bvsrem 8 200 7)
signed_div_example =
    scalar_op-signed_div 8 1 (omega arith) all_flags no_shortcut (defined 200) (defined 7)
      (plain-Describes 8 200 (omega arith)) (plain-Describes 8 7 (omega arith))
      (no_shortcut-AgreesWith 8 200 7) (λ h. absurd (omega arith)) (λ (p, q). absurd (omega arith))

compare_example :
    (compare 8 Cond.slt 200 5 ≡ ltb_ℤ (to_int 8 200) (to_int 8 5))
    × (compare 8 Cond.sle 200 5 ≡ leb_ℤ (to_int 8 200) (to_int 8 5))
    × (compare 8 Cond.sgt 200 5 ≡ ltb_ℤ (to_int 8 5) (to_int 8 200))
    × (compare 8 Cond.sge 200 5 ≡ leb_ℤ (to_int 8 5) (to_int 8 200))
compare_example = compare-signed 8 (omega arith) 200 5 (omega arith) (omega arith)

abbrev conv_flags : ConvFlags
conv_flags = record { nneg = true; nsw = true; nuw = true }

extend_example :
    (to_int 16 (conv_fn ConvOp.sext conv_flags 8 16 200).0 ≡ to_int 8 200)
    × ((conv_fn ConvOp.zext conv_flags 8 16 200).0 ≡ 200)
    × ((conv_fn ConvOp.zext conv_flags 8 16 200).1 ≡ (not true || ltb 200 (half 8)))
extend_example = conv_fn-extend conv_flags 8 16 200 (omega arith) (omega arith) (omega arith)

trunc_example : conv_fn ConvOp.trunc conv_flags 16 8 200 ≡ (
  200 % 2 ^ 8,
  (if true then ltb 200 (2 ^ 8) else true)
      && (if true then fits_signed 8 (to_int 16 200) else true),
)
trunc_example = conv_fn-trunc conv_flags 16 8 200 (omega arith) (omega arith) (omega arith)

ffs_example : IsFirstSet 8 40 (unary_op 8 UnOp.ffs (defined 40)).value
ffs_example = unary_op-ffs 8 (defined 40) (omega arith)

umul_fix_example :
    ((ternary_op 8 8 TernOp.umul_fix (defined 200) (defined 90) (defined 4)).non_poison
      ≡ ((true && true && true) && ltb (200 * 90 / 2 ^ 4) (2 ^ 8)))
    × ((ternary_op 8 8 TernOp.umul_fix_sat (defined 200) (defined 90) (defined 4)).value
        ≡ min (200 * 90 / 2 ^ 4) (2 ^ 8 - 1))
umul_fix_example =
    ternary_op-umul_fix 8 8 (defined 200) (defined 90) (defined 4) (omega arith) (omega arith)
      (omega arith) (omega arith)

-- Four local blocks with a gap, and two others.
abbrev gap_set : AliasSet
gap_set = record { local = true ∷ false ∷ true ∷ false ∷ []; non_local = false ∷ true ∷ [] }

abbrev other_set : AliasSet
other_set = record { local = true ∷ true ∷ true ∷ []; non_local = true ∷ [] }

may_alias_sound_example : may_alias gap_set true 0 ≡ true
unfolding may_alias_expr
may_alias_sound_example = may_alias_expr_sound gap_set true 0 refl

may_alias_missed_example : may_alias_expr gap_set true 2 ≡ false
unfolding may_alias
may_alias_missed_example = may_alias_expr_missed gap_set true 1 2 refl refl (omega arith)

intersect_union_example :
    (may_alias (intersect_with gap_set other_set) true 1
      ≡ (may_alias gap_set true 1 && may_alias other_set true 1))
    × (may_alias (union_with gap_set other_set) true 1
        ≡ (may_alias gap_set true 1 || may_alias other_set true 1))
unfolding size
intersect_union_example =
    may_alias-intersect_union gap_set other_set true 1 (omega arith) (omega arith)

set_up_to_example :
    may_alias (set_may_alias_up_to gap_set true 2) true 3
    ≡ (if leb 3 2 then true else may_alias gap_set true 3)
unfolding size
set_up_to_example = may_alias-set_up_to gap_set true 2 3 (omega arith)

abbrev low_lanes : Lanes
low_lanes = defined 1 ∷ defined 2 ∷ []

abbrev high_lanes : Lanes
high_lanes = defined 3 ∷ defined 4 ∷ []

abbrev mask : List ℕ
mask = 3 ∷ 0 ∷ 7 ∷ []

shuffle_example :
    lane (shuffle low_lanes high_lanes mask) 2 ≡ lane (low_lanes ++ high_lanes) (get_or mask 2 0)
shuffle_example = shuffle_lem low_lanes high_lanes mask 2 refl (omega arith)
