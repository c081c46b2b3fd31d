-- ===== src/Ir/Config.antt =====
-- ir/globals.h: the sizes and the modes of a run, which are global variables.
--
-- They are computed before the execution from the two functions and do not change in it.
use alive_next_deprecated.Prelude.{ℕ, Bool}

pub record Config : Type 0 where
  pub bits_byte : ℕ
  pub bits_poison_per_byte : ℕ
  pub num_sub_byte_bits : ℕ
  pub bits_for_ptrattrs : ℕ
  pub bits_for_bid : ℕ
  pub bits_for_offset : ℕ
  pub bits_program_pointer : ℕ
  pub bits_ptr_address : ℕ
  pub num_locals_src : ℕ
  pub num_locals_tgt : ℕ
  pub num_nonlocals : ℕ
  pub num_nonlocals_src : ℕ
  pub num_consts_src : ℕ
  pub num_globals_src : ℕ
  pub num_inaccessiblememonly_fns : ℕ
  pub has_int2ptr : Bool
  pub has_null_block : Bool
  pub has_write_fncall : Bool
  pub has_nocapture : Bool
  pub has_noread : Bool
  pub has_nowrite : Bool
  pub has_ptr_arg : Bool
  pub null_is_dereferenceable : Bool
  pub does_int_load : Bool
  pub does_int_store : Bool
  pub does_ptr_load : Bool
  pub does_ptr_store : Bool
