-- ===== src/Ir/Byte/Pack.antt =====
-- About the bytes of a pointer (ir/memory.cpp), field by field.
use alive_next_deprecated.Prelude.{
  ℕ, ◌+◌, ◌^◌, ◌<◌, ◌≡◌, refl, ap, ◌∙◌, arith, Bool, true, false, not, ◌==◌, if◌then◌else◌,
}
use native.Mathlib.Nat.{mod-eq_of_lt}
use alive_next_deprecated.Prelude.Pow.{pow-pos}
use alive_next_deprecated.Prelude.Fields.{field, above, field-above, field-below, field-whole}
use alive_next_deprecated.Smt.Bv.{concat, to_bv_bool, mk_uint}
use alive_next_deprecated.Ir.Config.{Config}
use alive_next_deprecated.Ir.Pointer
use alive_next_deprecated.Ir.Pointer.Parts.{packed-above}
use alive_next_deprecated.Ir.Byte.{
  padding_ptr_byte, bits_ptr_byte_offset, byte_has_ptr_bit, does_ptr_mem_access, mk_ptr_byte,
}

-- The bits above the pointer: the pointer bit, if there is one, and the poison bit.
unfoldable pub top : Bool → Bool → ℕ
top bit np = if bit then above 1 1 (to_bv_bool np) else to_bv_bool np

unfoldable pub ptr_word : Config → Bool → ℕ → ℕ → ℕ
unfolding top
ptr_word c np value i =
    above (padding_ptr_byte c)
      (above (bits_ptr_byte_offset c)
        (above (Pointer.total_bits c) (top (byte_has_ptr_bit c) np) value) i)
      0

pub used : (b : Bool) → b ≡ true → (v : ℕ) → (if not b then 0 else v) ≡ v
used true e v = refl
used false e v = absurd (ground arith)

pub otherwise : (b : Bool) → b ≡ false → (u v : ℕ) → (if b then u else v) ≡ v
otherwise false e u v = refl
otherwise true e u v = absurd (ground arith)

pub mk_ptr_byte-word :
    (c : Config) (np : Bool) (value i : ℕ)
    → does_ptr_mem_access c ≡ true
    → i < 2 ^ bits_ptr_byte_offset c
    → mk_ptr_byte c np value i ≡ ptr_word c np value i
unfolding mk_ptr_byte ptr_word top
mk_ptr_byte-word c np value i e p =
    used (does_ptr_mem_access c) e (
      above (padding_ptr_byte c)
        (if bits_ptr_byte_offset c == 0
          then x
          else concat (bits_ptr_byte_offset c) x (mk_uint (bits_ptr_byte_offset c) i))
        0)
    ∙ ap (λ k. above (padding_ptr_byte c) k 0)
        (ap (λ k. if bits_ptr_byte_offset c == 0 then x else concat (bits_ptr_byte_offset c) x k)
            (mod-eq_of_lt p)
          ∙ packed-above (bits_ptr_byte_offset c) x i p)
  where
    x : ℕ
    x = above (Pointer.total_bits c) (top (byte_has_ptr_bit c) np) value

module _ (c : Config) (np : Bool) (value i : ℕ) (value_fits : value < 2 ^ Pointer.total_bits c)
    (i_fits : i < 2 ^ bits_ptr_byte_offset c) where
  -- A field of the top, `s` bits from its lowest.
  pub top-field :
      (t s n : ℕ)
      → t ≡ padding_ptr_byte c + (bits_ptr_byte_offset c + (Pointer.total_bits c + s))
      → field t n (ptr_word c np value i) ≡ field s n (top (byte_has_ptr_bit c) np)
  unfolding ptr_word
  top-field t s n e =
      let x : ℕ = above (Pointer.total_bits c) (top (byte_has_ptr_bit c) np) value in
      let y : ℕ = above (bits_ptr_byte_offset c) x i in
      ap (λ k. field k n (above (padding_ptr_byte c) y 0)) e
      ∙ (field-above (padding_ptr_byte c) (bits_ptr_byte_offset c + (Pointer.total_bits c + s)) n y
            0 (pow-pos (padding_ptr_byte c))
          ∙ (field-above (bits_ptr_byte_offset c) (Pointer.total_bits c + s) n x i i_fits
              ∙ field-above (Pointer.total_bits c) s n (top (byte_has_ptr_bit c) np) value
                  value_fits))

  pub value-field :
      (t : ℕ)
      → t ≡ padding_ptr_byte c + (bits_ptr_byte_offset c + 0)
      → field t (Pointer.total_bits c) (ptr_word c np value i) ≡ value
  unfolding ptr_word
  value-field t e =
      let n : ℕ = Pointer.total_bits c in
      let x : ℕ = above n (top (byte_has_ptr_bit c) np) value in
      let y : ℕ = above (bits_ptr_byte_offset c) x i in
      ap (λ k. field k n (above (padding_ptr_byte c) y 0)) e
      ∙ (field-above (padding_ptr_byte c) (bits_ptr_byte_offset c + 0) n y 0
            (pow-pos (padding_ptr_byte c))
          ∙ (field-above (bits_ptr_byte_offset c) 0 n x i i_fits
              ∙ (field-below n 0 n (top (byte_has_ptr_bit c) np) value (omega arith)
                  ∙ field-whole n value value_fits)))

  pub offset-field :
      (t : ℕ)
      → t ≡ padding_ptr_byte c + 0
      → field t (bits_ptr_byte_offset c) (ptr_word c np value i) ≡ i
  unfolding ptr_word
  offset-field t e =
      let n : ℕ = bits_ptr_byte_offset c in
      let x : ℕ = above (Pointer.total_bits c) (top (byte_has_ptr_bit c) np) value in
      ap (λ k. field k n (above (padding_ptr_byte c) (above n x i) 0)) e
      ∙ (field-above (padding_ptr_byte c) 0 n (above n x i) 0 (pow-pos (padding_ptr_byte c))
          ∙ (field-below n 0 n x i (omega arith) ∙ field-whole n i i_fits))

pub top-np : (bit np : Bool) → (field 0 1 (top bit np) == 1) ≡ np
unfolding top
top-np true true = refl
top-np true false = refl
top-np false true = refl
top-np false false = refl

pub top-bit : (np : Bool) → (field 1 1 (top true np) == 1) ≡ true
unfolding top
top-bit true = refl
top-bit false = refl

pub top-lt : (bit np : Bool) → top bit np < 2 ^ (1 + to_bv_bool bit)
unfolding top
top-lt true true = omega arith
top-lt true false = omega arith
top-lt false true = omega arith
top-lt false false = omega arith
