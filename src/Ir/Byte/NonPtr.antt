-- ===== src/Ir/Byte/NonPtr.antt =====
-- About the bytes of an integer (ir/memory.cpp): what their getters read.
use alive_next_deprecated.Prelude.{
  ℕ, ◌+◌, ◌-◌, ◌^◌, ◌%◌, ◌<◌, ◌≡◌, refl, ap, sym, ◌∙◌, arith, Bool, true, false, ◌&&◌, not, ◌==◌,
  if◌then◌else◌,
}
use mathlib.Core.Path.{subst}
use native.Mathlib.Nat.{mod-eq_of_lt, mod-lt}
use alive_next_deprecated.Prelude.Pow.{pow-pos, pow_mono}
use alive_next_deprecated.Prelude.Fields.{above, above-lt, field-above, field-below, field-whole}
use alive_next_deprecated.Smt.Bv.{extract, to_bv_bool, mk_uint, int_umax}
use alive_next_deprecated.Ir.Config.{Config}
use alive_next_deprecated.Ir.Pointer.Parts.{extract-field, high_zero}
use alive_next_deprecated.Ir.Byte.{
  total_bits, padding_nonptr_byte, byte_has_ptr_bit, does_ptr_mem_access, does_int_mem_access,
  sub_byte_bits, size_byte_number, stored_part, mk_nonptr_byte, is_ptr, nonptr_nonpoison,
  nonptr_value, num_stored_bits, byte_number,
}
use alive_next_deprecated.Ir.Byte.Fit.{total-int}
use alive_next_deprecated.Ir.Byte.Pack.{used, otherwise}
use alive_next_deprecated.Ir.Byte.Int.{
  int_word, mk_nonptr_byte-word, np-field, value-field, sub-field, int_word-lt,
}

no_ptr : (i p : Bool) → i ≡ true → false ≡ (i && p) → p ≡ false
no_ptr true p h e = sym e
no_ptr false p h e = absurd (ground arith)

-- What a byte of an integer gives back; in assembly mode no bit is poison.
pub record ReadsInt (c : Config) (asm : Bool) (p np value : ℕ) : Type 0 where
  pub integer : is_ptr c p ≡ false
  pub non_poison : nonptr_nonpoison c asm p ≡ (if asm then int_umax c.bits_poison_per_byte else np)
  pub contents : nonptr_value c p ≡ value
  pub bound : p < 2 ^ total_bits c

module _ (c : Config) (np value sub : ℕ) (ints : does_int_mem_access c ≡ true)
    (byte_bits : 0 < c.bits_byte) (poison_bits : 0 < c.bits_poison_per_byte)
    (np_fits : np < 2 ^ c.bits_poison_per_byte) (value_fits : value < 2 ^ c.bits_byte)
    (sub_fits : sub < 2 ^ sub_byte_bits c) where
  nonptr_nonpoison-word : nonptr_nonpoison c false (int_word c np value sub) ≡ np
  unfolding nonptr_nonpoison
  nonptr_nonpoison-word =
      let start : ℕ = padding_nonptr_byte c + c.bits_byte + sub_byte_bits c in
      used (does_int_mem_access c) ints
        (extract (start + c.bits_poison_per_byte - 1) start (int_word c np value sub))
      ∙ (extract-field start c.bits_poison_per_byte (int_word c np value sub) poison_bits
          ∙ (np-field c np value sub value_fits sub_fits start (omega arith)
              ∙ field-whole c.bits_poison_per_byte np np_fits))

  nonptr_value-word : nonptr_value c (int_word c np value sub) ≡ value
  unfolding nonptr_value
  nonptr_value-word =
      let start : ℕ = padding_nonptr_byte c + sub_byte_bits c in
      used (does_int_mem_access c) ints
        (extract (start + c.bits_byte - 1) start (int_word c np value sub))
      ∙ (extract-field start c.bits_byte (int_word c np value sub) byte_bits
          ∙ value-field c np value sub value_fits sub_fits start (omega arith))

  int_word-total : int_word c np value sub < 2 ^ total_bits c
  int_word-total =
      let n : ℕ =
        ((c.bits_poison_per_byte + c.bits_byte) + sub_byte_bits c) + padding_nonptr_byte c in
      omega (
        arith,
        int_word-lt c np value sub value_fits sub_fits np_fits,
        pow_mono n (total_bits c) (omega (arith, total-int c ints)),
      )

  is_ptr-word : is_ptr c (int_word c np value sub) ≡ false
  unfolding is_ptr byte_has_ptr_bit
  is_ptr-word = go (byte_has_ptr_bit c) refl
    where
      t : ℕ
      t = total_bits c - 1

      n : ℕ
      n = ((c.bits_poison_per_byte + c.bits_byte) + sub_byte_bits c) + padding_nonptr_byte c

      off : (x : ℕ) → (x == 0) ≡ true → (x == 1) ≡ false
      off x h = ground arith

      go :
          (b : Bool)
          → b ≡ byte_has_ptr_bit c
          → (if not b then does_ptr_mem_access c else extract t t (int_word c np value sub) == 1)
            ≡ false
      go false e = no_ptr (does_int_mem_access c) (does_ptr_mem_access c) ints e
      go true e = off (extract t t (int_word c np value sub)) (
          high_zero n t (int_word c np value sub)
            (int_word-lt c np value sub value_fits sub_fits np_fits)
            (omega (arith, total-int c ints, ap to_bv_bool e)))

  in_mode :
      (asm : Bool)
      → nonptr_nonpoison c asm (int_word c np value sub)
        ≡ (if asm then int_umax c.bits_poison_per_byte else np)
  unfolding nonptr_nonpoison
  in_mode false = nonptr_nonpoison-word
  in_mode true = used (does_int_mem_access c) ints (int_umax c.bits_poison_per_byte)

  int_word-Reads : (asm : Bool) → ReadsInt c asm (int_word c np value sub) np value
  int_word-Reads asm = record {
    integer = is_ptr-word;
    non_poison = in_mode asm;
    contents = nonptr_value-word;
    bound = int_word-total;
  }

-- The two numbers of the sub-byte part.
sub_word : Config → ℕ → ℕ → ℕ
sub_word c stored number =
    above (size_byte_number c) (mk_uint c.num_sub_byte_bits stored)
      (mk_uint (size_byte_number c) number)

module _ (c : Config) (stored number : ℕ) where
  sub_word-lt : sub_word c stored number < 2 ^ sub_byte_bits c
  unfolding sub_word sub_byte_bits
  sub_word-lt =
      above-lt c.num_sub_byte_bits (size_byte_number c) (mk_uint c.num_sub_byte_bits stored)
        (mk_uint (size_byte_number c) number) (mod-lt stored (pow-pos c.num_sub_byte_bits))
        (mod-lt number (pow-pos (size_byte_number c)))

stored_part-word :
    (c : Config) (bits_read number : ℕ)
    → stored_part c false bits_read number
      ≡ sub_word c (if bits_read % 8 == 0 then 0 else bits_read) number
unfolding stored_part sub_word
stored_part-word c bits_read number = refl

stored_part-asm : (c : Config) (bits_read number : ℕ) → stored_part c true bits_read number ≡ 0
unfolding stored_part
stored_part-asm c bits_read number = refl

stored_part-fits :
    (c : Config) (asm : Bool) (bits_read number : ℕ)
    → stored_part c asm bits_read number < 2 ^ sub_byte_bits c
stored_part-fits c true bits_read number =
    rw (stored_part-asm c bits_read number) (pow-pos (sub_byte_bits c))
stored_part-fits c false bits_read number =
    rw (stored_part-word c bits_read number)
      (sub_word-lt c (if bits_read % 8 == 0 then 0 else bits_read) number)

stored_part-lt :
    (c : Config) (asm : Bool) (bits_read number : ℕ)
    → (if c.num_sub_byte_bits == 0 then 0 else stored_part c asm bits_read number)
      < 2 ^ sub_byte_bits c
stored_part-lt c asm bits_read number = go (c.num_sub_byte_bits == 0) asm
  where
    part : (asm : Bool) → stored_part c asm bits_read number < 2 ^ sub_byte_bits c
    part asm = stored_part-fits c asm bits_read number

    go :
        (b asm : Bool) → (if b then 0 else stored_part c asm bits_read number) < 2 ^ sub_byte_bits c
    go true asm = pow-pos (sub_byte_bits c)
    go false asm = part asm

-- Where integers are loaded or stored, the byte made of poison bits and a value is not a pointer
-- byte, gives back the value, and fits the bits of a byte, whatever the sub-byte part is; it gives
-- back the poison bits outside assembly mode, and all ones in it. The poison bits and the value
-- must fit theirs, and both have some.
pub mk_nonptr_byte-ReadsInt :
    (c : Config) (asm : Bool) (np value bits_read number : ℕ)
    → does_int_mem_access c ≡ true
    → 0 < c.bits_byte
    → 0 < c.bits_poison_per_byte
    → np < 2 ^ c.bits_poison_per_byte
    → value < 2 ^ c.bits_byte
    → ReadsInt c asm (mk_nonptr_byte c asm np value bits_read number) np value
mk_nonptr_byte-ReadsInt c asm np value bits_read number ints bb pb nf vf =
    subst (λ p. ReadsInt c asm p np value)
      (sym (mk_nonptr_byte-word c asm np value bits_read number ints))
      (int_word-Reads c np value
        (if c.num_sub_byte_bits == 0 then 0 else stored_part c asm bits_read number) ints bb pb nf
        vf (stored_part-lt c asm bits_read number) asm)

size-pos : (c : Config) → 0 < c.num_sub_byte_bits → 0 < size_byte_number c
unfolding size_byte_number
size-pos c p =
    let some_bits : (c.num_sub_byte_bits == 0) ≡ false = ground arith in rw some_bits (omega arith)

module _ (c : Config) (np value stored number : ℕ) (bits : 0 < c.num_sub_byte_bits)
    (value_fits : value < 2 ^ c.bits_byte) (stored_fits : stored < 2 ^ c.num_sub_byte_bits)
    (number_fits : number < 2 ^ size_byte_number c) where
  num_stored-word : num_stored_bits c (int_word c np value (sub_word c stored number)) ≡ stored
  unfolding num_stored_bits sub_word sub_byte_bits
  num_stored-word =
      let start : ℕ = padding_nonptr_byte c + size_byte_number c in
      let n : ℕ = c.num_sub_byte_bits in
      let sub : ℕ = sub_word c stored number in
      extract-field start n (int_word c np value sub) bits
      ∙ (sub-field c np value sub value_fits (sub_word-lt c stored number) start
            (size_byte_number c + 0) n (omega arith) (omega arith)
          ∙ (field-above (size_byte_number c) 0 n (mk_uint n stored)
                (mk_uint (size_byte_number c) number) (mod-lt number (pow-pos (size_byte_number c)))
              ∙ (field-whole n (mk_uint n stored) (mod-lt stored (pow-pos n))
                  ∙ mod-eq_of_lt stored_fits)))

  byte_number-word : byte_number c (int_word c np value (sub_word c stored number)) ≡ number
  unfolding byte_number sub_word sub_byte_bits
  byte_number-word =
      let start : ℕ = padding_nonptr_byte c in
      let n : ℕ = size_byte_number c in
      let sub : ℕ = sub_word c stored number in
      extract-field start n (int_word c np value sub) (size-pos c bits)
      ∙ (sub-field c np value sub value_fits (sub_word-lt c stored number) start 0 n (omega arith)
            (omega arith)
          ∙ (field-below n 0 n (mk_uint c.num_sub_byte_bits stored) (mk_uint n number) (omega arith)
              ∙ (field-whole n (mk_uint n number) (mod-lt number (pow-pos n))
                  ∙ mod-eq_of_lt number_fits)))

-- With sub-byte accesses and outside assembly mode, a byte of an integer also gives back the
-- number of stored bits, 0 for whole bytes, and the number of the byte, if they fit their bits.
pub mk_nonptr_byte-sub :
    (c : Config) (np value bits_read number : ℕ)
    → does_int_mem_access c ≡ true
    → 0 < c.num_sub_byte_bits
    → value < 2 ^ c.bits_byte
    → bits_read < 2 ^ c.num_sub_byte_bits
    → number < 2 ^ size_byte_number c
    → (num_stored_bits c (mk_nonptr_byte c false np value bits_read number)
        ≡ (if bits_read % 8 == 0 then 0 else bits_read))
      × (byte_number c (mk_nonptr_byte c false np value bits_read number) ≡ number)
mk_nonptr_byte-sub c np value bits_read number ints nb vf rf jf =
    let stored : ℕ = if bits_read % 8 == 0 then 0 else bits_read in
    let small : stored < 2 ^ c.num_sub_byte_bits = shrink (bits_read % 8 == 0) in
    let some_bits : (c.num_sub_byte_bits == 0) ≡ false = ground arith in
    let word : mk_nonptr_byte c false np value bits_read number
        ≡ int_word c np value (sub_word c stored number) =
      mk_nonptr_byte-word c false np value bits_read number ints
      ∙ ap (int_word c np value) (
          otherwise (c.num_sub_byte_bits == 0) some_bits 0 (stored_part c false bits_read number)
          ∙ stored_part-word c bits_read number) in
    (
      ap (num_stored_bits c) word ∙ num_stored-word c np value stored number nb vf small jf,
      ap (byte_number c) word ∙ byte_number-word c np value stored number nb vf small jf,
    )
  where
    shrink : (b : Bool) → (if b then 0 else bits_read) < 2 ^ c.num_sub_byte_bits
    shrink true = pow-pos c.num_sub_byte_bits
    shrink false = rf
