-- ===== src/Ir/Byte/Fit.antt =====
-- About the widths of the parts of a byte (ir/memory.cpp).
use alive_next_deprecated.Prelude.{ℕ, ◌+◌, ◌-◌, ◌*◌, ◌≡◌, arith, max, Bool, true, false}
use alive_next_deprecated.Smt.Bv.{to_bv_bool}
use alive_next_deprecated.Ir.Config.{Config}
use alive_next_deprecated.Ir.Pointer
use alive_next_deprecated.Ir.Byte.{
  total_bits, padding_ptr_byte, padding_nonptr_byte, bits_ptr_byte_offset, byte_has_ptr_bit,
  does_ptr_mem_access, does_int_mem_access, sub_byte_bits, size_byte_number,
}

ptr_room :
    (d : Bool) (h t off int : ℕ)
    → d ≡ true
    → max 1 (h + max (to_bv_bool d * (1 + t + off)) int)
      ≡ (((max 1 (h + max (to_bv_bool d * (1 + t + off)) int) - h - 1 - t - off) + off) + t) + 1 + h
ptr_room true h t off int e = omega arith
ptr_room false h t off int e = absurd (ground arith)

int_room :
    (d : Bool) (h b np num size ptr : ℕ)
    → d ≡ true
    → max 1 (h + max ptr (to_bv_bool d * (b + np) + (num + size)))
      ≡ (((max 1 (h + max ptr (to_bv_bool d * (b + np) + (num + size))) - h - b - np - num - size)
            + (num + size))
          + b)
        + np
        + h
int_room true h b np num size ptr e = omega arith
int_room false h b np num size ptr e = absurd (ground arith)

module _ (c : Config) where
  pub total-ptr :
      does_ptr_mem_access c ≡ true
      → total_bits c
        ≡ (((padding_ptr_byte c + bits_ptr_byte_offset c) + Pointer.total_bits c) + 1)
          + to_bv_bool (byte_has_ptr_bit c)
  unfolding total_bits padding_ptr_byte
  total-ptr e =
      ptr_room (does_ptr_mem_access c) (to_bv_bool (byte_has_ptr_bit c)) (Pointer.total_bits c)
        (bits_ptr_byte_offset c)
        (to_bv_bool (does_int_mem_access c) * (c.bits_byte + c.bits_poison_per_byte)
          + sub_byte_bits c)
        e

  pub total-int :
      does_int_mem_access c ≡ true
      → total_bits c
        ≡ (((padding_nonptr_byte c + sub_byte_bits c) + c.bits_byte) + c.bits_poison_per_byte)
          + to_bv_bool (byte_has_ptr_bit c)
  unfolding total_bits padding_nonptr_byte sub_byte_bits
  total-int e =
      int_room (does_int_mem_access c) (to_bv_bool (byte_has_ptr_bit c)) c.bits_byte
        c.bits_poison_per_byte c.num_sub_byte_bits (size_byte_number c)
        (to_bv_bool (does_ptr_mem_access c) * (1 + Pointer.total_bits c + bits_ptr_byte_offset c)) e
