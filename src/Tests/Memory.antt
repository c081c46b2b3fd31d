-- ===== src/Tests/Memory.antt =====
-- Inputs for the tests of the attributes and of the packed pointers and bytes.
use alive_next_deprecated.Prelude.{
  ℕ, ◌^◌, ◌<◌, ◌≡◌, refl, arith, true, false, zero, suc, none, some, not, ◌&&◌, List, [], ◌↔◌,
}
use alive_next_deprecated.Prelude.Pow.{pow-pos}
use alive_next_deprecated.Ir.MemoryAccess.{
  AccessType, AccessOp, apply_op, can_read, can_write, can_only_read, can_only_write,
  can_access_anything, can_write_something, same_type,
}
use alive_next_deprecated.Ir.MemoryAccess.Table.{apply_op-table, readable, writable}
use alive_next_deprecated.Ir.MemoryAccess.Query.{can_only_iff}
use alive_next_deprecated.Ir.ParamAttrs.{ParamAttrs, refined_by}
use alive_next_deprecated.Ir.ParamAttrs.Refined.{Refines, refined_by-Refines}
use alive_next_deprecated.Ir.FnAttrs.{
  FnAttrs, FnAttribute, DenormalMode, Argument, fn_has, check_trunc, compute_alloc_size,
  fn_refined_by, set_fp_denormal, get_fp_denormal, infer_implied_attributes, fn_set, is_alloc,
  is_non_null, fn_poison_implies_ub,
}
use alive_next_deprecated.Ir.FnAttrs.Sizes.{Sizes, compute_alloc_size-Sizes}
use alive_next_deprecated.Smt.Overflow.{mul_no_uoverflow}
use alive_next_deprecated.Ir.Config.{Config}
use alive_next_deprecated.Ir.Pointer
use alive_next_deprecated.Ir.Pointer.{
  mk_pointer, mk_physical, mk_long_bid, bits_short_bid, has_local_bit, is_logical, get_attrs,
  get_physical_address, total_bits_logical, total_bits_physical,
}
use alive_next_deprecated.Ir.Pointer.Layout.{Unpacks, mk_pointer-Unpacks}
use alive_next_deprecated.Ir.Pointer.Physical.{mk_physical-Unpacks}
use alive_next_deprecated.Ir.Byte.{
  mk_ptr_byte, mk_nonptr_byte, does_ptr_mem_access, does_int_mem_access, bits_ptr_byte_offset,
  size_byte_number, num_stored_bits, byte_number,
}
use alive_next_deprecated.Ir.Byte.Ptr.{ReadsPtr, mk_ptr_byte-ReadsPtr}
use alive_next_deprecated.Ir.Byte.NonPtr.{ReadsInt, mk_nonptr_byte-ReadsInt, mk_nonptr_byte-sub}

apply_op-table_example :
    (can_read (apply_op AccessOp.only_write 5) AccessType.other
      ≡ readable AccessOp.only_write (can_read 5) AccessType.other)
    × (can_write (apply_op AccessOp.only_write 5) AccessType.other
        ≡ writable AccessOp.only_write (can_write 5) AccessType.other)
apply_op-table_example = apply_op-table AccessOp.only_write 5 AccessType.other

can_only_iff_example :
    ((can_only_read 2 AccessType.args ≡ true)
      ↔ ((t : AccessType) → can_read 2 t ≡ same_type t AccessType.args))
    × (((can_only_write 2 AccessType.args ≡ true)
          ↔ ((t : AccessType) → can_write 2 t ≡ same_type t AccessType.args))
        × ((can_access_anything 2 ≡ true)
            ↔ ((t : AccessType) → (can_read 2 t && can_write 2 t) ≡ true)))
can_only_iff_example = can_only_iff 2 AccessType.args

abbrev attrs : ℕ → List (ℕ × ℕ) → ParamAttrs
attrs bits ranges = record {
  bits = bits;
  deref_bytes = 8;
  deref_or_null_bytes = 0;
  block_size = 4;
  alignment = 1;
  initializes = ranges;
}

refined_by-Refines_example :
    (refined_by (attrs 98 []) (attrs 64 []) ≡ true) ↔ Refines (attrs 98 []) (attrs 64 [])
refined_by-Refines_example = refined_by-Refines (attrs 98 []) (attrs 64 [])

-- A function that allocates, with a number and a size in bytes as its arguments.
abbrev calloc : FnAttrs
calloc = record {
  fp_denormal = record { input = DenormalMode.ieee; output = DenormalMode.ieee };
  fp_denormal32 = none;
  bits = 4096;
  allockind = 1;
  deref_bytes = 0;
  deref_or_null_bytes = 0;
  alignment = 1;
  allocsize_0 = 0;
  allocsize_1 = 1;
  mem = 0;
  nofpclass = 0;
}

abbrev calloc_args : ℕ → Argument
calloc_args zero = record { width = 16; state_value = record { value = 12; non_poison = true } }
calloc_args (suc i) = record { width = 8; state_value = record { value = 20; non_poison = true } }

calloc-compute_alloc_size :
    compute_alloc_size 8 calloc calloc_args
    ≡ record { size = some 240; np_size = true; no_ub = true }
unfolding compute_alloc_size fn_has check_trunc mul_no_uoverflow
calloc-compute_alloc_size = refl

calloc-is_alloc :
    (is_alloc calloc && (fn_poison_implies_ub calloc && not (is_non_null calloc))) ≡ true
unfolding is_alloc fn_has fn_poison_implies_ub is_non_null
calloc-is_alloc = refl

calloc-infer_implied_attributes :
    infer_implied_attributes calloc ≡ fn_set calloc FnAttribute.no_free
unfolding infer_implied_attributes fn_set can_write_something can_write
calloc-infer_implied_attributes = refl

compute_alloc_size-Sizes_example : Sizes 8 calloc calloc_args
unfolding fn_has
compute_alloc_size-Sizes_example =
    compute_alloc_size-Sizes 8 calloc calloc_args (omega arith) refl (omega arith)
      (λ e. omega arith)

abbrev config : Config
config = record {
  bits_byte = 8;
  bits_poison_per_byte = 8;
  num_sub_byte_bits = 3;
  bits_for_ptrattrs = 2;
  bits_for_bid = 3;
  bits_for_offset = 4;
  bits_program_pointer = 64;
  bits_ptr_address = 8;
  num_locals_src = 1;
  num_locals_tgt = 1;
  num_nonlocals = 2;
  num_nonlocals_src = 2;
  num_consts_src = 0;
  num_globals_src = 1;
  num_inaccessiblememonly_fns = 0;
  has_int2ptr = true;
  has_null_block = true;
  has_write_fncall = false;
  has_nocapture = true;
  has_noread = true;
  has_nowrite = false;
  has_ptr_arg = false;
  null_is_dereferenceable = false;
  does_int_load = true;
  does_int_store = true;
  does_ptr_load = true;
  does_ptr_store = false;
}

mk_pointer-Unpacks_example :
    Unpacks config (mk_pointer config (mk_long_bid config 2 true) 9 1) 2 true 9 1
unfolding has_local_bit bits_short_bid
mk_pointer-Unpacks_example =
    mk_pointer-Unpacks config 2 true 9 1 refl (omega arith) (omega arith) (omega arith)
      (omega arith) (omega arith)

mk_physical-Unpacks_example :
    (is_logical config (mk_physical config 200 3) ≡ false)
    × ((get_physical_address config (mk_physical config 200 3) ≡ 200)
        × ((get_attrs config (mk_physical config 200 3) ≡ 3)
            × (mk_physical config 200 3 < 2 ^ Pointer.total_bits config)))
mk_physical-Unpacks_example =
    mk_physical-Unpacks config 200 3 refl (omega arith) (omega arith) (omega arith)

mk_ptr_byte-ReadsPtr_example : ReadsPtr config false (mk_ptr_byte config true 700 5) true 700 5
unfolding does_ptr_mem_access bits_ptr_byte_offset Pointer.total_bits total_bits_logical
    total_bits_physical
mk_ptr_byte-ReadsPtr_example =
    mk_ptr_byte-ReadsPtr config false true 700 5 refl (omega arith) (omega arith) (omega arith)

mk_nonptr_byte-ReadsInt_example :
    ReadsInt config false (mk_nonptr_byte config false 255 77 5 0) 255 77
unfolding does_int_mem_access
mk_nonptr_byte-ReadsInt_example =
    mk_nonptr_byte-ReadsInt config false 255 77 5 0 refl (omega arith) (omega arith) (omega arith)
      (omega arith)

mk_nonptr_byte-sub_example :
    (num_stored_bits config (mk_nonptr_byte config false 255 77 5 0) ≡ 5)
    × (byte_number config (mk_nonptr_byte config false 255 77 5 0) ≡ 0)
unfolding does_int_mem_access
mk_nonptr_byte-sub_example =
    mk_nonptr_byte-sub config 255 77 5 0 refl (omega arith) (omega arith) (omega arith)
      (omega (arith, pow-pos (size_byte_number config)))

abbrev flushed : FnAttrs
flushed = record calloc {
  fp_denormal32 =
      some (record { input = DenormalMode.preserve_sign; output = DenormalMode.positive_zero });
}

calloc-set_fp_denormal :
    (set_fp_denormal calloc (get_fp_denormal flushed 32) 32 ≡ some flushed)
    × (fn_refined_by calloc flushed ≡ false)
unfolding set_fp_denormal get_fp_denormal fn_refined_by fn_has
calloc-set_fp_denormal = (refl, refl)
