-- ===== src/Ir/FnAttrs.antt =====
-- ir/attrs.h, ir/attrs.cpp: FnAttrs, the attributes of a function, and the size it allocates.
--
-- `computeAllocSize` reads the arguments from the state; here they are a function from their
-- positions. The encoding into a state and the printing are not here.
pub mod Sizes
use alive_next_deprecated.Prelude.{
  ℕ, ◌+◌, ◌*◌, ◌-◌, ◌^◌, bit_and, bit_or, Bool, true, false, ◌&&◌, ◌||◌, not, ltb, ◌==◌, Option,
  none, some, if◌then◌else◌,
}
use alive_next_deprecated.Smt.Bv.{extract, bvmul, zext_or_trunc}
use alive_next_deprecated.Smt.Overflow.{mul_no_uoverflow}
use alive_next_deprecated.Ir.StateValue.{StateValue}
use alive_next_deprecated.Ir.MemoryAccess.{can_write_something}

pub data FnAttribute : Type 0 where
  nnan no_return dereferenceable non_null no_free no_undef align no_throw no_alias : FnAttribute
  will_return dereferenceable_or_null null_pointer_is_valid alloc_size zero_ext : FnAttribute
  sign_ext no_fp_class asm no_free_obj : FnAttribute

abbrev pub fn_position : FnAttribute → ℕ
fn_position nnan = 0
fn_position no_return = 1
fn_position dereferenceable = 2
fn_position non_null = 3
fn_position no_free = 4
fn_position no_undef = 5
fn_position align = 6
fn_position no_throw = 7
fn_position no_alias = 8
fn_position will_return = 9
fn_position dereferenceable_or_null = 10
fn_position null_pointer_is_valid = 11
fn_position alloc_size = 12
fn_position zero_ext = 13
fn_position sign_ext = 14
fn_position no_fp_class = 15
fn_position asm = 16
fn_position no_free_obj = 17

abbrev pub fn_mask : FnAttribute → ℕ
fn_mask a = 2 ^ fn_position a

pub data DenormalMode : Type 0 where
  ieee positive_zero preserve_sign dynamic : DenormalMode

abbrev pub mode_number : DenormalMode → ℕ
mode_number ieee = 0
mode_number positive_zero = 1
mode_number preserve_sign = 2
mode_number dynamic = 3

pub record FpDenormalAttrs : Type 0 where
  pub input : DenormalMode
  pub output : DenormalMode

abbrev pub same_denormal : FpDenormalAttrs → FpDenormalAttrs → Bool
same_denormal a b =
    (mode_number a.input == mode_number b.input) && (mode_number a.output == mode_number b.output)

abbrev pub same_denormal32 : Option FpDenormalAttrs → Option FpDenormalAttrs → Bool
same_denormal32 none none = true
same_denormal32 none (some b) = false
same_denormal32 (some a) none = false
same_denormal32 (some a) (some b) = same_denormal a b

pub record FnAttrs : Type 0 where
  pub fp_denormal : FpDenormalAttrs
  pub fp_denormal32 : Option FpDenormalAttrs
  pub bits : ℕ
  pub allockind : ℕ
  pub deref_bytes : ℕ
  pub deref_or_null_bytes : ℕ
  pub alignment : ℕ
  pub allocsize_0 : ℕ
  pub allocsize_1 : ℕ
  pub mem : ℕ
  pub nofpclass : ℕ

unfoldable pub fn_has : FnAttrs → FnAttribute → Bool
fn_has f a = not (bit_and f.bits (fn_mask a) == 0)

unfoldable pub fn_set : FnAttrs → FnAttribute → FnAttrs
fn_set f a = record f { bits = bit_or f.bits (fn_mask a) }

unfoldable pub is_alloc : FnAttrs → Bool
unfolding fn_has
is_alloc f = not (f.allockind == 0) || fn_has f FnAttribute.alloc_size

unfoldable pub infer_implied_attributes : FnAttrs → FnAttrs
unfolding fn_set
infer_implied_attributes f =
    if not (can_write_something f.mem) then fn_set f FnAttribute.no_free else f

-- An argument's width and its value in the state.
pub record Argument : Type 0 where
  pub width : ℕ
  pub state_value : StateValue

-- The size, where there is one, whether it is not poison, and the condition added to the state.
pub record AllocSize : Type 0 where
  pub size : Option ℕ
  pub np_size : Bool
  pub no_ub : Bool

abbrev pub no_second : ℕ
no_second = 2 ^ 32 - 1

unfoldable pub check_trunc : ℕ → Argument → Bool → Bool
check_trunc bits_size_t var np =
    if ltb bits_size_t var.width
    then np && (extract (var.width - 1) bits_size_t var.state_value.value == 0)
    else np

unfoldable pub compute_alloc_size : ℕ → FnAttrs → (ℕ → Argument) → AllocSize
unfolding fn_has check_trunc
compute_alloc_size bits_size_t f args =
    let arg0 = args f.allocsize_0 in
    let arg1 = args f.allocsize_1 in
    let first = zext_or_trunc arg0.width bits_size_t arg0.state_value.value in
    let np_first = check_trunc bits_size_t arg0 arg0.state_value.non_poison in
    let v = zext_or_trunc arg1.width bits_size_t arg1.state_value.value in
    let np_both =
      (np_first && arg1.state_value.non_poison) && mul_no_uoverflow bits_size_t first v in
    let nothing : AllocSize = record { size = none; np_size = true; no_ub = true } in
    let one : AllocSize = record {
      size = some first;
      np_size = np_first;
      no_ub = arg0.state_value.non_poison;
    } in
    let two : AllocSize = record {
      size = some (bvmul bits_size_t first v);
      np_size = check_trunc bits_size_t arg1 np_both;
      no_ub = arg0.state_value.non_poison && arg1.state_value.non_poison;
    } in
    if not (fn_has f FnAttribute.alloc_size)
    then nothing
    else if not (f.allocsize_1 == no_second)
    then two
    else one

unfoldable pub is_non_null : FnAttrs → Bool
unfolding fn_has
is_non_null f =
    fn_has f FnAttribute.non_null
    || (not (fn_has f FnAttribute.null_pointer_is_valid) && ltb 0 f.deref_bytes)

unfoldable pub fn_poison_implies_ub : FnAttrs → Bool
unfolding fn_has
fn_poison_implies_ub f =
    fn_has f FnAttribute.no_undef
    || fn_has f FnAttribute.dereferenceable
    || fn_has f FnAttribute.dereferenceable_or_null
    || fn_has f FnAttribute.alloc_size
    || fn_has f FnAttribute.nnan

-- `none` is a width that the switch calls unreachable.
unfoldable pub set_fp_denormal : FnAttrs → FpDenormalAttrs → ℕ → Option FnAttrs
set_fp_denormal f attr bits =
    if bits == 0
    then some (record f { fp_denormal = attr })
    else if bits == 32
    then some (record f { fp_denormal32 = some attr })
    else none

abbrev pub value_or : Option FpDenormalAttrs → FpDenormalAttrs → FpDenormalAttrs
value_or none d = d
value_or (some a) d = a

unfoldable pub get_fp_denormal : FnAttrs → ℕ → FpDenormalAttrs
get_fp_denormal f ty_bits =
    if ty_bits == 32 then value_or f.fp_denormal32 f.fp_denormal else f.fp_denormal

unfoldable pub fn_refined_by : FnAttrs → FnAttrs → Bool
unfolding fn_has
fn_refined_by f other =
    let attrs = fn_mask FnAttribute.null_pointer_is_valid in
    if not (bit_and f.bits attrs == bit_and other.bits attrs)
    then false
    else if fn_has f FnAttribute.no_return && fn_has other FnAttribute.will_return
    then false
    else same_denormal f.fp_denormal other.fp_denormal
      && same_denormal32 f.fp_denormal32 other.fp_denormal32
