-- ===== src/Ir/Byte/Ptr.antt =====
-- About the bytes of a pointer (ir/memory.cpp): what their getters read.
use alive_next_deprecated.Prelude.{
  ℕ, ◌+◌, ◌-◌, ◌^◌, ◌<◌, ◌≡◌, refl, ap, sym, ◌∙◌, arith, Bool, true, false, not, ◌||◌, ◌==◌,
  if◌then◌else◌, Bool-cases, inl, inr,
}
use mathlib.Core.Path.{subst}
use alive_next_deprecated.Prelude.Pow.{pow-pos}
use alive_next_deprecated.Prelude.Fields.{field, above, above-lt}
use alive_next_deprecated.Smt.Bv.{extract, to_bv_bool}
use alive_next_deprecated.Ir.Config.{Config}
use alive_next_deprecated.Ir.Pointer
use alive_next_deprecated.Ir.Pointer.Parts.{extract-field, extract-bit}
use alive_next_deprecated.Ir.Byte.{
  total_bits, padding_ptr_byte, bits_ptr_byte_offset, byte_has_ptr_bit, does_ptr_mem_access,
  mk_ptr_byte, is_ptr, ptr_nonpoison, ptr_value, ptr_byteoffset,
}
use alive_next_deprecated.Ir.Byte.Fit.{total-ptr}
use alive_next_deprecated.Ir.Byte.Pack.{
  used, otherwise, top, ptr_word, mk_ptr_byte-word, top-field, value-field, offset-field, top-np,
  top-bit, top-lt,
}

-- What a byte of a pointer gives back; in assembly mode no byte is poison.
pub record ReadsPtr (c : Config) (asm : Bool) (p : ℕ) (np : Bool) (value i : ℕ) : Type 0 where
  pub ptr : is_ptr c p ≡ true
  pub non_poison : ptr_nonpoison c asm p ≡ (asm || np)
  pub pointer : ptr_value c p ≡ value
  pub offset : ptr_byteoffset c p ≡ i
  pub bound : p < 2 ^ total_bits c

module _ (c : Config) (np : Bool) (value i : ℕ) (ptrs : does_ptr_mem_access c ≡ true)
    (some_bits : 0 < Pointer.total_bits c) (value_fits : value < 2 ^ Pointer.total_bits c)
    (i_fits : i < 2 ^ bits_ptr_byte_offset c) where
  is_ptr-word : is_ptr c (ptr_word c np value i) ≡ true
  unfolding is_ptr
  is_ptr-word = go (byte_has_ptr_bit c) refl
    where
      t : ℕ
      t = total_bits c - 1

      go :
          (b : Bool)
          → b ≡ byte_has_ptr_bit c
          → (if not b then does_ptr_mem_access c else extract t t (ptr_word c np value i) == 1)
            ≡ true
      go false e = ptrs
      go true e =
          ap (λ k. k == 1)
            (extract-bit t (ptr_word c np value i)
              ∙ (top-field c np value i value_fits i_fits t 1 1
                    (omega (arith, total-ptr c ptrs, ap to_bv_bool e))
                  ∙ ap (λ b. field 1 1 (top b np)) (sym e)))
          ∙ top-bit np

  ptr_nonpoison-word : ptr_nonpoison c false (ptr_word c np value i) ≡ np
  unfolding ptr_nonpoison
  ptr_nonpoison-word =
      let t : ℕ = total_bits c - 1 - to_bv_bool (byte_has_ptr_bit c) in
      ap (λ k. k == 1)
        (extract-bit t (ptr_word c np value i)
          ∙ top-field c np value i value_fits i_fits t 0 1 (omega (arith, total-ptr c ptrs)))
      ∙ top-np (byte_has_ptr_bit c) np

  ptr_value-word : ptr_value c (ptr_word c np value i) ≡ value
  unfolding ptr_value
  ptr_value-word =
      let start : ℕ = bits_ptr_byte_offset c + padding_ptr_byte c in
      let turn : Pointer.total_bits c + start - 1 ≡ start + Pointer.total_bits c - 1 =
        omega arith in
      used (does_ptr_mem_access c) ptrs
        (extract (Pointer.total_bits c + start - 1) start (ptr_word c np value i))
      ∙ (ap (λ k. extract k start (ptr_word c np value i)) turn
          ∙ (extract-field start (Pointer.total_bits c) (ptr_word c np value i) some_bits
              ∙ value-field c np value i value_fits i_fits start (omega arith)))

  ptr_byteoffset-word : ptr_byteoffset c (ptr_word c np value i) ≡ i
  unfolding ptr_byteoffset
  ptr_byteoffset-word =
      let n : ℕ = bits_ptr_byte_offset c in
      let start : ℕ = padding_ptr_byte c in
      let part : ℕ = extract (n + start - 1) start (ptr_word c np value i) in
      used (does_ptr_mem_access c) ptrs (if n == 0 then 0 else part) ∙ elim (Bool-cases (n == 0)) [
        | inl e ↦
            let none_left : n ≡ 0 = ground arith in
            let one : 2 ^ n ≡ 1 = ap (λ k. 2 ^ k) none_left in
            ap (λ b. if b then 0 else part) e ∙ omega (arith, i_fits, one)
        | inr e ↦
            let turn : n + start - 1 ≡ start + n - 1 = omega arith in
            otherwise (n == 0) e 0 part
            ∙ (ap (λ k. extract k start (ptr_word c np value i)) turn
                ∙ (extract-field start n (ptr_word c np value i) (ground arith)
                    ∙ offset-field c np value i value_fits i_fits start (omega arith)))
      ]

  ptr_word-lt : ptr_word c np value i < 2 ^ total_bits c
  unfolding ptr_word
  ptr_word-lt =
      let h : ℕ = 1 + to_bv_bool (byte_has_ptr_bit c) in
      let n : ℕ = h + Pointer.total_bits c in
      let total : total_bits c ≡ (n + bits_ptr_byte_offset c) + padding_ptr_byte c =
        omega (arith, total-ptr c ptrs) in
      subst (λ k. ptr_word c np value i < 2 ^ k) (sym total)
        (above-lt (n + bits_ptr_byte_offset c) (padding_ptr_byte c)
          (above (bits_ptr_byte_offset c)
            (above (Pointer.total_bits c) (top (byte_has_ptr_bit c) np) value) i)
          0
          (above-lt n (bits_ptr_byte_offset c)
            (above (Pointer.total_bits c) (top (byte_has_ptr_bit c) np) value) i
            (above-lt h (Pointer.total_bits c) (top (byte_has_ptr_bit c) np) value
              (top-lt (byte_has_ptr_bit c) np) value_fits)
            i_fits)
          (pow-pos (padding_ptr_byte c)))

  in_mode : (asm : Bool) → ptr_nonpoison c asm (ptr_word c np value i) ≡ (asm || np)
  unfolding ptr_nonpoison
  in_mode false = ptr_nonpoison-word
  in_mode true = refl

  ptr_word-Reads : (asm : Bool) → ReadsPtr c asm (ptr_word c np value i) np value i
  ptr_word-Reads asm = record {
    ptr = is_ptr-word;
    non_poison = in_mode asm;
    pointer = ptr_value-word;
    offset = ptr_byteoffset-word;
    bound = ptr_word-lt;
  }

-- Where pointers are loaded or stored, the byte made of a pointer, its poison bit and the number of
-- the byte is a pointer byte, gives back the pointer and the number, and fits the bits of a byte;
-- it gives back the poison bit outside assembly mode, and is not poison in it. The pointer and the
-- number must fit their bits, and a pointer has some.
pub mk_ptr_byte-ReadsPtr :
    (c : Config) (asm np : Bool) (value i : ℕ)
    → does_ptr_mem_access c ≡ true
    → 0 < Pointer.total_bits c
    → value < 2 ^ Pointer.total_bits c
    → i < 2 ^ bits_ptr_byte_offset c
    → ReadsPtr c asm (mk_ptr_byte c np value i) np value i
mk_ptr_byte-ReadsPtr c asm np value i ptrs some_bits vf jf =
    subst (λ p. ReadsPtr c asm p np value i) (sym (mk_ptr_byte-word c np value i ptrs jf))
      (ptr_word-Reads c np value i ptrs some_bits vf jf asm)
