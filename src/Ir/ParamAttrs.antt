-- ===== src/Ir/ParamAttrs.antt =====
-- ir/attrs.h, ir/attrs.cpp: ParamAttrs, the attributes of a parameter.
--
-- The attributes are the bits of a word; the fields are 64-bit numbers. The encoding into a state
-- and the printing are not here.
pub mod Refined
pub mod Merge
use alive_next_deprecated.Prelude.{
  ℕ, zero, suc, ◌+◌, ◌*◌, ◌^◌, max, bit_and, bit_or, Bool, true, false, ◌&&◌, ◌||◌, not, ltb, ◌==◌,
  List, [], ◌∷◌, length, if◌then◌else◌,
}
use alive_next_deprecated.Util.Compiler

pub data Attribute : Type 0 where
  non_null by_val no_capture no_read no_write dereferenceable no_undef align returned : Attribute
  no_alias dereferenceable_or_null alloc_ptr alloc_align zero_ext sign_ext in_reg : Attribute
  no_fp_class dead_on_unwind writable dead_on_return no_free no_free_obj is_arg : Attribute

abbrev pub position : Attribute → ℕ
position non_null = 0
position by_val = 1
position no_capture = 2
position no_read = 3
position no_write = 4
position dereferenceable = 5
position no_undef = 6
position align = 7
position returned = 8
position no_alias = 9
position dereferenceable_or_null = 10
position alloc_ptr = 11
position alloc_align = 12
position zero_ext = 13
position sign_ext = 14
position in_reg = 15
position no_fp_class = 16
position dead_on_unwind = 17
position writable = 18
position dead_on_return = 19
position no_free = 20
position no_free_obj = 21
position is_arg = 31

abbrev pub mask : Attribute → ℕ
mask a = 2 ^ position a

pub record ParamAttrs : Type 0 where
  pub bits : ℕ
  pub deref_bytes : ℕ
  pub deref_or_null_bytes : ℕ
  pub block_size : ℕ
  pub alignment : ℕ
  pub initializes : List (ℕ × ℕ)

unfoldable pub has : ParamAttrs → Attribute → Bool
has p a = not (bit_and p.bits (mask a) == 0)

unfoldable pub set_attribute : ParamAttrs → Attribute → ParamAttrs
set_attribute p a = record p { bits = bit_or p.bits (mask a) }

-- The attributes that may give UB to the caller if added, and those that cannot change.
abbrev pub ub_attrs : ℕ
ub_attrs =
    bit_or (bit_or (mask Attribute.by_val) (mask Attribute.no_undef)) (mask Attribute.writable)

abbrev pub fixed_attrs : ℕ
fixed_attrs =
    bit_or (bit_or (mask Attribute.sign_ext) (mask Attribute.zero_ext)) (mask Attribute.in_reg)

unfoldable pub refined_by : ParamAttrs → ParamAttrs → Bool
refined_by p other =
    let other_params = bit_and other.bits ub_attrs in
    if not (bit_and p.bits other_params == other_params)
    then false
    else if not (bit_and p.bits fixed_attrs == bit_and other.bits fixed_attrs)
    then false
    else p.block_size == other.block_size

abbrev pub is_empty : List (ℕ × ℕ) → Bool
is_empty [] = true
is_empty (r ∷ rs) = false

unfoldable pub poison_implies_ub : ParamAttrs → Bool
unfolding has
poison_implies_ub p =
    has p Attribute.by_val
    || has p Attribute.dereferenceable
    || has p Attribute.dereferenceable_or_null
    || has p Attribute.no_undef
    || has p Attribute.writable
    || not (is_empty p.initializes)

unfoldable pub get_deref_bytes : ParamAttrs → ℕ
unfolding has
get_deref_bytes p =
    let bytes = if has p Attribute.dereferenceable then p.deref_bytes else 0 in
    if has p Attribute.by_val then max bytes p.block_size else bytes

-- The loop over the ranges to initialise.
abbrev pub max_high : List (ℕ × ℕ) → ℕ → ℕ
max_high [] bytes = bytes
max_high (r ∷ rs) bytes = max_high rs (max bytes r.1)

unfoldable pub max_access_size : ParamAttrs → ℕ
unfolding has get_deref_bytes
max_access_size p =
    let bytes = get_deref_bytes p in
    let or_null =
      if has p Attribute.dereferenceable_or_null then max bytes p.deref_or_null_bytes else bytes in
    Compiler.round_up (max_high p.initializes or_null) p.alignment

-- std::pair compares its first components first.
abbrev pub before : ℕ × ℕ → ℕ × ℕ → Bool
before r s = ltb r.0 s.0 || ((r.0 == s.0) && ltb r.1 s.1)

-- ranges::set_union, on as many rounds as the two lists are long.
abbrev pub union_rounds : ℕ → List (ℕ × ℕ) → List (ℕ × ℕ) → List (ℕ × ℕ)
union_rounds zero rs ss = []
union_rounds (suc n) [] ss = ss
union_rounds (suc n) (r ∷ rs) [] = r ∷ rs
union_rounds (suc n) (r ∷ rs) (s ∷ ss) =
    let left = r ∷ union_rounds n rs (s ∷ ss) in
    let right = s ∷ union_rounds n (r ∷ rs) ss in
    let both = r ∷ union_rounds n rs ss in
    if before r s then left else if before s r then right else both

abbrev pub set_union : List (ℕ × ℕ) → List (ℕ × ℕ) → List (ℕ × ℕ)
set_union rs ss = union_rounds (suc (length rs + length ss)) rs ss

unfoldable pub merge : ParamAttrs → ParamAttrs → ParamAttrs
merge p other = record {
  bits = bit_or p.bits other.bits;
  deref_bytes = max p.deref_bytes other.deref_bytes;
  deref_or_null_bytes = max p.deref_or_null_bytes other.deref_or_null_bytes;
  block_size = max p.block_size other.block_size;
  alignment = max p.alignment other.alignment;
  initializes = set_union p.initializes other.initializes;
}
