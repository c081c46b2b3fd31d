-- ===== src/Ir/Blocks.antt =====
-- ir/memory.cpp: the tests on the ids of non-local blocks, `disjoint`, and the bit sets that
-- load_bv and store_bv keep in a word.
--
-- The ids are unsigned; the terms of `disjoint` are their values, with what the code sees of the
-- terms (the alignments are equal, the sizes are constants) as Booleans and options.
pub mod Laws
use alive_next_deprecated.Prelude.{
  ℕ, ◌+◌, ◌-◌, ◌*◌, ◌/◌, ◌%◌, ◌^◌, bit_or, bit_and, Bool, true, false, ◌&&◌, ◌||◌, not, ltb, leb,
  ◌==◌, Option, none, some, if◌then◌else◌,
}
use alive_next_deprecated.Smt.Bv.{
  bvadd, bvsub, bvshl, bvlshr, extract, int_umax, zext_or_trunc, to_bv_bool, mk_uint,
}
use alive_next_deprecated.Ir.Config.{Config}

module _ (c : Config) where
  abbrev null_block : ℕ
  null_block = to_bv_bool c.has_null_block

  unfoldable pub is_globalvar : ℕ → Bool → Bool
  is_globalvar bid include_tgt =
      let srcglb = leb null_block bid && ltb bid (null_block + c.num_globals_src) in
      let tgtglb = leb c.num_nonlocals_src bid && ltb bid c.num_nonlocals in
      srcglb || (include_tgt && tgtglb)

  unfoldable pub is_constglb : ℕ → Bool → Bool
  is_constglb bid src_only =
      if leb null_block bid && ltb bid (c.num_consts_src + null_block)
      then true
      else not src_only && (leb c.num_nonlocals_src bid && ltb bid c.num_nonlocals)

  unfoldable pub get_fncallmem_bid : ℕ
  get_fncallmem_bid =
      c.num_nonlocals_src - c.num_inaccessiblememonly_fns - to_bv_bool c.has_write_fncall

  unfoldable pub is_fncall_mem : ℕ → Bool
  unfolding get_fncallmem_bid
  is_fncall_mem bid =
      if not c.has_write_fncall && (c.num_inaccessiblememonly_fns == 0)
      then false
      else leb get_fncallmem_bid bid && ltb bid c.num_nonlocals_src

  unfoldable pub always_alive : ℕ → Bool
  unfolding is_globalvar is_fncall_mem
  always_alive bid = is_globalvar bid true || is_fncall_mem bid

  unfoldable pub always_noread : ℕ → Bool → Bool
  unfolding is_fncall_mem
  always_noread bid is_fncall_accessible =
      (not c.null_is_dereferenceable && ltb bid null_block)
      || (not is_fncall_accessible && is_fncall_mem bid)

  unfoldable pub always_nowrite : ℕ → Bool → Bool → Bool
  unfolding always_noread is_constglb
  always_nowrite bid src_only is_fncall_accessible =
      always_noread bid is_fncall_accessible || is_constglb bid src_only

-- An alignment is the logarithm of the real one; 1ull is a 64-bit number.
unfoldable pub align_ge_size : Option ℕ → Option ℕ → Bool
align_ge_size none sz = false
align_ge_size (some algn) none = false
align_ge_size (some algn) (some sz) = leb sz (2 ^ algn % 2 ^ 64)

-- What the code sees of the terms: equal alignments, and the constants among the four.
pub record SeenBlocks : Type 0 where
  pub same_align : Bool
  pub align1 : Option ℕ
  pub align2 : Option ℕ
  pub len1 : Option ℕ
  pub len2 : Option ℕ

-- The values are of `w` bits.
unfoldable pub disjoint : ℕ → SeenBlocks → ℕ → ℕ → ℕ → ℕ → Bool
unfolding align_ge_size
disjoint w s begin1 len1 begin2 len2 =
    if s.same_align && (align_ge_size s.align1 s.len1 && align_ge_size s.align2 s.len2)
    then not (begin1 == begin2)
    else leb (bvadd w begin2 len2) begin1 || leb (bvadd w begin1 len1) begin2

-- `none` for the word without bits; `all_ones` says that the code sees the constant.
unfoldable pub load_bv : ℕ → Bool → ℕ → ℕ → ℕ → Option Bool
load_bv bw all_ones var wi idx0 =
    if bw == 0
    then none
    else if all_ones
    then some true
    else some (extract 0 0 (bvlshr var (zext_or_trunc wi bw idx0)) == 1)

-- The lambda `set` of store_bv, on a word of `bw` bits and a block id of that width.
unfoldable pub set_bit : ℕ → Bool → ℕ → ℕ → ℕ
set_bit bw val var bid =
    let one = bvshl bw 1 bid in
    let full = int_umax bw in
    let mask = bit_or (bvshl bw full (bvadd bw bid 1)) (bvlshr full (bvsub bw bw bid)) in
    if val then bit_or var one else bit_and var mask
