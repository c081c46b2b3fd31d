-- ===== src/Ir/Byte.antt =====
-- ir/memory.cpp: Byte, the packed representation of a byte of memory, and the sizes that it rests
-- on.
--
-- A representation is the value of the term `p`. Of the memory the code asks only whether it is in
-- assembly mode, `asm`. The differences of widths are of unsigned numbers; where a padding is used
-- its parts fit.
pub mod Fit
pub mod Pack
pub mod Ptr
pub mod Int
pub mod NonPtr
use alive_next_deprecated.Prelude.{
  ℕ, zero, suc, ◌+◌, ◌-◌, ◌*◌, ◌/◌, ◌%◌, ◌^◌, max, Bool, true, false, ◌&&◌, ◌||◌, not, ltb, leb,
  ◌==◌, if◌then◌else◌,
}
use alive_next_deprecated.Smt.Bv.{extract, concat, mk_uint, to_bv_bool, int_umax}
use alive_next_deprecated.Util.Compiler
use alive_next_deprecated.Ir.Config.{Config}
use alive_next_deprecated.Ir.Pointer

-- std::countr_zero of a 32-bit number, the remaining positions being `n`.
abbrev pub countr_zero : ℕ → ℕ → ℕ
countr_zero zero x = 0
countr_zero (suc n) x = let rest = countr_zero n (x / 2) in if x % 2 == 1 then 0 else suc rest

module _ (c : Config) where
  unfoldable pub size_byte_number : ℕ
  size_byte_number =
      if c.num_sub_byte_bits == 0
      then 0
      else max
          (Compiler.ilog2_ceil (Compiler.divide_up (2 ^ c.num_sub_byte_bits) c.bits_byte) false) 1

  unfoldable pub sub_byte_bits : ℕ
  unfolding size_byte_number
  sub_byte_bits = c.num_sub_byte_bits + size_byte_number

  unfoldable pub does_int_mem_access : Bool
  does_int_mem_access = c.does_int_load || c.does_int_store

  unfoldable pub does_ptr_mem_access : Bool
  does_ptr_mem_access = c.does_ptr_load || c.does_ptr_store

  unfoldable pub byte_has_ptr_bit : Bool
  unfolding does_int_mem_access does_ptr_mem_access
  byte_has_ptr_bit = does_int_mem_access && does_ptr_mem_access

  unfoldable pub bits_ptr_byte_offset : ℕ
  bits_ptr_byte_offset =
      if leb c.bits_program_pointer c.bits_byte
      then 0
      else countr_zero 32 (c.bits_program_pointer / c.bits_byte)

  -- Byte::bitsByte.
  unfoldable pub total_bits : ℕ
  unfolding does_int_mem_access does_ptr_mem_access byte_has_ptr_bit sub_byte_bits
      bits_ptr_byte_offset
  total_bits =
      let ptr_bits =
        to_bv_bool does_ptr_mem_access * (1 + Pointer.total_bits c + bits_ptr_byte_offset) in
      let int_bits =
        to_bv_bool does_int_mem_access * (c.bits_byte + c.bits_poison_per_byte) + sub_byte_bits in
      max 1 (to_bv_bool byte_has_ptr_bit + max ptr_bits int_bits)

  unfoldable pub padding_ptr_byte : ℕ
  unfolding total_bits byte_has_ptr_bit bits_ptr_byte_offset
  padding_ptr_byte =
      total_bits - to_bv_bool byte_has_ptr_bit - 1 - Pointer.total_bits c - bits_ptr_byte_offset

  unfoldable pub padding_nonptr_byte : ℕ
  unfolding total_bits byte_has_ptr_bit size_byte_number
  padding_nonptr_byte =
      total_bits
      - to_bv_bool byte_has_ptr_bit
      - c.bits_byte
      - c.bits_poison_per_byte
      - c.num_sub_byte_bits
      - size_byte_number

  -- Byte `i` of a pointer.
  unfoldable pub mk_ptr_byte : Bool → ℕ → ℕ → ℕ
  unfolding does_ptr_mem_access byte_has_ptr_bit bits_ptr_byte_offset padding_ptr_byte
  mk_ptr_byte non_poison value i =
      let np = to_bv_bool non_poison in
      let p1 = if byte_has_ptr_bit then concat 1 1 np else np in
      let p2 = concat (Pointer.total_bits c) p1 value in
      let p3 =
        if bits_ptr_byte_offset == 0
        then p2
        else concat bits_ptr_byte_offset p2 (mk_uint bits_ptr_byte_offset i) in
      if not does_ptr_mem_access then 0 else concat padding_ptr_byte p3 0

  -- The part of a byte of an integer that is only there with sub-byte accesses.
  unfoldable pub stored_part : Bool → ℕ → ℕ → ℕ
  unfolding size_byte_number
  stored_part asm bits_read byte_number =
      let stored = if bits_read % 8 == 0 then 0 else bits_read in
      if asm
      then 0
      else concat size_byte_number (mk_uint c.num_sub_byte_bits stored)
          (mk_uint size_byte_number byte_number)

  -- A byte of an integer; `non_poison` has bits_poison_per_byte bits.
  unfoldable pub mk_nonptr_byte : Bool → ℕ → ℕ → ℕ → ℕ → ℕ
  unfolding does_int_mem_access byte_has_ptr_bit sub_byte_bits padding_nonptr_byte stored_part
  mk_nonptr_byte asm non_poison value bits_read byte_number =
      let p0 = concat c.bits_byte non_poison value in
      let p1 =
        if byte_has_ptr_bit then concat (c.bits_poison_per_byte + c.bits_byte) 0 p0 else p0 in
      let p2 =
        if c.num_sub_byte_bits == 0
        then p1
        else concat sub_byte_bits p1 (stored_part asm bits_read byte_number) in
      if not does_int_mem_access then 0 else concat padding_nonptr_byte p2 0

  -- `non_poison` given as a Boolean: all of its bits, or none.
  unfoldable pub poison_bits : Bool → ℕ
  poison_bits b = if b then int_umax c.bits_poison_per_byte else 0

  unfoldable pub mk_poison_byte : Bool → ℕ
  unfolding mk_nonptr_byte poison_bits
  mk_poison_byte asm = mk_nonptr_byte asm (poison_bits false) 0 0 1

  unfoldable pub is_ptr : ℕ → Bool
  unfolding does_ptr_mem_access byte_has_ptr_bit total_bits
  is_ptr p =
      if not byte_has_ptr_bit
      then does_ptr_mem_access
      else extract (total_bits - 1) (total_bits - 1) p == 1

  unfoldable pub ptr_nonpoison : Bool → ℕ → Bool
  unfolding byte_has_ptr_bit total_bits
  ptr_nonpoison asm p =
      let bit = total_bits - 1 - to_bv_bool byte_has_ptr_bit in
      if asm then true else extract bit bit p == 1

  unfoldable pub ptr_value : ℕ → ℕ
  unfolding does_ptr_mem_access bits_ptr_byte_offset padding_ptr_byte
  ptr_value p =
      let start = bits_ptr_byte_offset + padding_ptr_byte in
      if not does_ptr_mem_access then 0 else extract (Pointer.total_bits c + start - 1) start p

  unfoldable pub ptr_byteoffset : ℕ → ℕ
  unfolding does_ptr_mem_access bits_ptr_byte_offset padding_ptr_byte
  ptr_byteoffset p =
      let start = padding_ptr_byte in
      if not does_ptr_mem_access
      then 0
      else if bits_ptr_byte_offset == 0
      then 0
      else extract (bits_ptr_byte_offset + start - 1) start p

  unfoldable pub nonptr_nonpoison : Bool → ℕ → ℕ
  unfolding does_int_mem_access sub_byte_bits padding_nonptr_byte
  nonptr_nonpoison asm p =
      let start = padding_nonptr_byte + c.bits_byte + sub_byte_bits in
      if not does_int_mem_access
      then 0
      else if asm
      then int_umax c.bits_poison_per_byte
      else extract (start + c.bits_poison_per_byte - 1) start p

  unfoldable pub nonptr_value : ℕ → ℕ
  unfolding does_int_mem_access sub_byte_bits padding_nonptr_byte
  nonptr_value p =
      let start = padding_nonptr_byte + sub_byte_bits in
      if not does_int_mem_access then 0 else extract (start + c.bits_byte - 1) start p

  unfoldable pub num_stored_bits : ℕ → ℕ
  unfolding size_byte_number padding_nonptr_byte
  num_stored_bits p =
      let start = padding_nonptr_byte + size_byte_number in
      extract (start + c.num_sub_byte_bits - 1) start p

  unfoldable pub byte_number : ℕ → ℕ
  unfolding size_byte_number padding_nonptr_byte
  byte_number p = extract (padding_nonptr_byte + size_byte_number - 1) padding_nonptr_byte p

  unfoldable pub is_poison : Bool → ℕ → Bool
  unfolding does_int_mem_access does_ptr_mem_access byte_has_ptr_bit is_ptr ptr_nonpoison
      nonptr_nonpoison
  is_poison asm p =
      let np = nonptr_nonpoison asm p in
      if not does_int_mem_access
      then (if does_ptr_mem_access then not (ptr_nonpoison asm p) else true)
      else if asm
      then false
      else if byte_has_ptr_bit && (c.bits_poison_per_byte == 1)
      then not (np == 1)
      else if is_ptr p
      then not (ptr_nonpoison asm p)
      else not (np == int_umax c.bits_poison_per_byte)
