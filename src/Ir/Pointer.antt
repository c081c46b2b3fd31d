-- ===== src/Ir/Pointer.antt =====
-- ir/pointer.cpp: the packed representation of Pointer, and its getters.
--
-- A representation is the value of the term `p`. A logical pointer is, from the top, a bit 0 and a
-- padding (only where integers are cast to pointers), the block id, the offset and the attributes;
-- a physical one is a bit 1, a padding, the address and the attributes. `isLocal` is the one that
-- does not simplify.
pub mod Parts
pub mod Layout
pub mod Physical
use alive_next_deprecated.Prelude.{
  ℕ, ◌+◌, ◌-◌, ◌*◌, ◌/◌, ◌%◌, ◌^◌, max, bit_or, Bool, true, false, ◌&&◌, ◌||◌, not, ltb, leb, ◌==◌,
  if◌then◌else◌,
}
use alive_next_deprecated.Smt.Bv.{extract, concat, mk_uint, to_bv_bool}
use alive_next_deprecated.Ir.Config.{Config}
use alive_next_deprecated.Ir.ParamAttrs.{ParamAttrs, Attribute, has}

module _ (c : Config) where
  abbrev pub has_logical_bit : Bool
  has_logical_bit = c.has_int2ptr

  unfoldable pub total_bits_logical : ℕ
  total_bits_logical =
      to_bv_bool has_logical_bit + c.bits_for_ptrattrs + c.bits_for_bid + c.bits_for_offset

  unfoldable pub total_bits_physical : ℕ
  total_bits_physical = to_bv_bool has_logical_bit * (1 + c.bits_for_ptrattrs + c.bits_ptr_address)

  unfoldable pub padding_logical : ℕ
  unfolding total_bits_logical total_bits_physical
  padding_logical =
      let l = total_bits_logical in let p = total_bits_physical in if ltb p l then 0 else p - l

  unfoldable pub padding_physical : ℕ
  unfolding total_bits_logical total_bits_physical
  padding_physical =
      let l = total_bits_logical in let p = total_bits_physical in if ltb l p then 0 else l - p

  unfoldable pub total_bits : ℕ
  unfolding total_bits_logical total_bits_physical
  total_bits = max total_bits_logical total_bits_physical

  unfoldable pub has_local_bit : Bool
  has_local_bit =
      (not (c.num_locals_src == 0) || not (c.num_locals_tgt == 0)) && not (c.num_nonlocals == 0)

  unfoldable pub bits_short_bid : ℕ
  unfolding has_local_bit
  bits_short_bid = c.bits_for_bid - to_bv_bool has_local_bit

  -- `prepend_if` with zeros of the given width: the value stays, since only the width grows.
  abbrev prepend_zeros : ℕ → ℕ → Bool → ℕ
  prepend_zeros width e prepend = if prepend then concat width 0 e else e

  abbrev with_attr : ℕ → ℕ → ℕ
  with_attr p attr = if c.bits_for_ptrattrs == 0 then p else concat c.bits_for_ptrattrs p attr

  -- The first constructor: from a block id with its local bit, an offset and attributes.
  unfoldable pub mk_pointer : ℕ → ℕ → ℕ → ℕ
  mk_pointer bid offset attr =
      with_attr
        (prepend_zeros (c.bits_for_bid + c.bits_for_offset) (concat c.bits_for_offset bid offset)
          has_logical_bit)
        attr

  unfoldable pub mk_physical : ℕ → ℕ → ℕ
  unfolding padding_physical
  mk_physical addr attr =
      with_attr (concat c.bits_ptr_address (concat padding_physical 1 0) addr) attr

  unfoldable pub mk_long_bid : ℕ → Bool → ℕ
  unfolding has_local_bit bits_short_bid
  mk_long_bid short_bid local =
      if not has_local_bit then short_bid else concat bits_short_bid (to_bv_bool local) short_bid

  -- A round of the lambda `add`: the bits and the next index.
  abbrev add_attr : Bool → Bool → ℕ × ℕ → ℕ × ℕ
  add_attr b set s = if b then (bit_or s.0 (to_bv_bool set * 2 ^ s.1), s.1 + 1) else s

  unfoldable pub attr_to_bitvec : ParamAttrs → ℕ
  unfolding has
  attr_to_bitvec attrs =
      let s1 = add_attr c.has_nocapture (has attrs Attribute.no_capture) (0, 0) in
      let s2 = add_attr c.has_noread (has attrs Attribute.no_read) s1 in
      let s3 = add_attr c.has_nowrite (has attrs Attribute.no_write) s2 in
      let s4 = add_attr c.has_ptr_arg (has attrs Attribute.is_arg) s3 in
      mk_uint c.bits_for_ptrattrs s4.0

  unfoldable pub is_logical : ℕ → Bool
  unfolding total_bits
  is_logical p = if has_logical_bit then extract (total_bits - 1) (total_bits - 1) p == 0 else true

  unfoldable pub is_local : ℕ → ℕ → ℕ → Bool
  unfolding has_local_bit
  is_local locals nonlocals p =
      let bit = c.bits_for_bid - 1 + c.bits_for_offset + c.bits_for_ptrattrs in
      let local = extract bit bit p == 1 in
      if has_local_bit
      then local
      else if locals == 0
      then false
      else if nonlocals == 0
      then true
      else local

  unfoldable pub get_bid : ℕ → ℕ
  get_bid p =
      let start = c.bits_for_offset + c.bits_for_ptrattrs in
      extract (start + c.bits_for_bid - 1) start p

  unfoldable pub get_short_bid : ℕ → ℕ
  unfolding has_local_bit
  get_short_bid p =
      let start = c.bits_for_offset + c.bits_for_ptrattrs in
      extract (start + c.bits_for_bid - 1 - to_bv_bool has_local_bit) start p

  unfoldable pub get_offset : ℕ → ℕ
  get_offset p = extract (c.bits_for_offset + c.bits_for_ptrattrs - 1) c.bits_for_ptrattrs p

  unfoldable pub get_attrs : ℕ → ℕ
  get_attrs p = if c.bits_for_ptrattrs == 0 then 0 else extract (c.bits_for_ptrattrs - 1) 0 p

  unfoldable pub get_physical_address : ℕ → ℕ
  get_physical_address p =
      extract (c.bits_for_ptrattrs + c.bits_ptr_address - 1) c.bits_for_ptrattrs p
