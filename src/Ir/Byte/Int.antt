-- ===== src/Ir/Byte/Int.antt =====
-- About the bytes of an integer (ir/memory.cpp), field by field.
use alive_next_deprecated.Prelude.{
  ℕ, ◌+◌, ◌*◌, ◌^◌, ◌≤◌, ◌<◌, ◌≡◌, refl, ap, sym, ◌∙◌, arith, Bool, true, ◌==◌, if◌then◌else◌,
  Bool-cases, inl, inr,
}
use alive_next_deprecated.Prelude.Pow.{pow-pos}
use alive_next_deprecated.Prelude.Fields.{
  field, above, above-lt, field-above, field-below, field-whole,
}
use alive_next_deprecated.Smt.Bv.{concat}
use alive_next_deprecated.Ir.Config.{Config}
use alive_next_deprecated.Ir.Pointer.Parts.{prepended}
use alive_next_deprecated.Ir.Byte.{
  padding_nonptr_byte, byte_has_ptr_bit, does_int_mem_access, sub_byte_bits, size_byte_number,
  stored_part, mk_nonptr_byte,
}
use alive_next_deprecated.Ir.Byte.Pack.{used, otherwise}

unfoldable pub int_word : Config → ℕ → ℕ → ℕ → ℕ
int_word c np value sub =
    above (padding_nonptr_byte c) (above (sub_byte_bits c) (above c.bits_byte np value) sub) 0

-- Without sub-byte accesses the part has no bits.
no_sub_bits : (c : Config) → c.num_sub_byte_bits ≡ 0 → sub_byte_bits c ≡ 0
unfolding sub_byte_bits size_byte_number
no_sub_bits c e = rw e refl

pub mk_nonptr_byte-word :
    (c : Config) (asm : Bool) (np value bits_read number : ℕ)
    → does_int_mem_access c ≡ true
    → mk_nonptr_byte c asm np value bits_read number
      ≡ int_word c np value
          (if c.num_sub_byte_bits == 0 then 0 else stored_part c asm bits_read number)
unfolding mk_nonptr_byte int_word
mk_nonptr_byte-word c asm np value bits_read number e =
    used (does_int_mem_access c) e (
      above (padding_nonptr_byte c)
        (if c.num_sub_byte_bits == 0
          then x
          else concat (sub_byte_bits c) x (stored_part c asm bits_read number))
        0)
    ∙ ap (λ k. above (padding_nonptr_byte c) k 0)
        (ap
            (λ k.
              if c.num_sub_byte_bits == 0
              then k
              else concat (sub_byte_bits c) k (stored_part c asm bits_read number))
            (prepended (c.bits_poison_per_byte + c.bits_byte) (above c.bits_byte np value)
              (byte_has_ptr_bit c))
          ∙ joined)
  where
    x : ℕ
    x =
        if byte_has_ptr_bit c
        then concat (c.bits_poison_per_byte + c.bits_byte) 0 (above c.bits_byte np value)
        else above c.bits_byte np value

    y : ℕ
    y = above c.bits_byte np value

    part : ℕ
    part = stored_part c asm bits_read number

    joined :
        (if c.num_sub_byte_bits == 0 then y else concat (sub_byte_bits c) y part)
        ≡ above (sub_byte_bits c) y (if c.num_sub_byte_bits == 0 then 0 else part)
    joined = elim (Bool-cases (c.num_sub_byte_bits == 0)) [
      | inl z ↦
          let one : 2 ^ sub_byte_bits c ≡ 1 = ap (λ k. 2 ^ k) (no_sub_bits c (ground arith)) in
          ap (λ b. if b then y else concat (sub_byte_bits c) y part) z
          ∙ (omega (arith, ap (λ k. y * k) one)
              ∙ sym (ap (λ b. above (sub_byte_bits c) y (if b then 0 else part)) z))
      | inr z ↦
          otherwise (c.num_sub_byte_bits == 0) z y (concat (sub_byte_bits c) y part)
          ∙ sym (ap (above (sub_byte_bits c) y) (otherwise (c.num_sub_byte_bits == 0) z 0 part))
    ]

module _ (c : Config) (np value sub : ℕ) (value_fits : value < 2 ^ c.bits_byte)
    (sub_fits : sub < 2 ^ sub_byte_bits c) where
  pub np-field :
      (t : ℕ)
      → t ≡ padding_nonptr_byte c + (sub_byte_bits c + (c.bits_byte + 0))
      → field t c.bits_poison_per_byte (int_word c np value sub) ≡ field 0 c.bits_poison_per_byte np
  unfolding int_word
  np-field t e =
      let n : ℕ = c.bits_poison_per_byte in
      let y : ℕ = above c.bits_byte np value in
      let z : ℕ = above (sub_byte_bits c) y sub in
      ap (λ k. field k n (above (padding_nonptr_byte c) z 0)) e
      ∙ (field-above (padding_nonptr_byte c) (sub_byte_bits c + (c.bits_byte + 0)) n z 0
            (pow-pos (padding_nonptr_byte c))
          ∙ (field-above (sub_byte_bits c) (c.bits_byte + 0) n y sub sub_fits
              ∙ field-above c.bits_byte 0 n np value value_fits))

  pub value-field :
      (t : ℕ)
      → t ≡ padding_nonptr_byte c + (sub_byte_bits c + 0)
      → field t c.bits_byte (int_word c np value sub) ≡ value
  unfolding int_word
  value-field t e =
      let y : ℕ = above c.bits_byte np value in
      let z : ℕ = above (sub_byte_bits c) y sub in
      ap (λ k. field k c.bits_byte (above (padding_nonptr_byte c) z 0)) e
      ∙ (field-above (padding_nonptr_byte c) (sub_byte_bits c + 0) c.bits_byte z 0
            (pow-pos (padding_nonptr_byte c))
          ∙ (field-above (sub_byte_bits c) 0 c.bits_byte y sub sub_fits
              ∙ (field-below c.bits_byte 0 c.bits_byte np value (omega arith)
                  ∙ field-whole c.bits_byte value value_fits)))

  pub sub-field :
      (t s n : ℕ)
      → t ≡ padding_nonptr_byte c + s
      → s + n ≤ sub_byte_bits c
      → field t n (int_word c np value sub) ≡ field s n sub
  unfolding int_word
  sub-field t s n e p =
      let y : ℕ = above c.bits_byte np value in
      let z : ℕ = above (sub_byte_bits c) y sub in
      ap (λ k. field k n (above (padding_nonptr_byte c) z 0)) e
      ∙ (field-above (padding_nonptr_byte c) s n z 0 (pow-pos (padding_nonptr_byte c))
          ∙ field-below (sub_byte_bits c) s n y sub p)

  pub int_word-lt :
      np < 2 ^ c.bits_poison_per_byte
      → int_word c np value sub
        < 2 ^ (((c.bits_poison_per_byte + c.bits_byte) + sub_byte_bits c) + padding_nonptr_byte c)
  unfolding int_word
  int_word-lt p =
      above-lt ((c.bits_poison_per_byte + c.bits_byte) + sub_byte_bits c) (padding_nonptr_byte c)
        (above (sub_byte_bits c) (above c.bits_byte np value) sub) 0
        (above-lt (c.bits_poison_per_byte + c.bits_byte) (sub_byte_bits c)
          (above c.bits_byte np value) sub
          (above-lt c.bits_poison_per_byte c.bits_byte np value p value_fits) sub_fits)
        (pow-pos (padding_nonptr_byte c))
