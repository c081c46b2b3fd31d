-- ===== src/Ir/Pointer/Physical.antt =====
-- About the packed representation of physical pointers (ir/pointer.cpp).
use alive_next_deprecated.Prelude.{
  ℕ, ◌+◌, ◌-◌, ◌^◌, ◌<◌, ◌≡◌, ap, sym, ◌∙◌, arith, true, false, ◌==◌,
}
use mathlib.Core.Path.{subst}
use alive_next_deprecated.Prelude.Pow.{pow_mono, pow-pos}
use alive_next_deprecated.Prelude.Fields.{
  field, above, above-lt, field-above, field-below, field-whole,
}
use alive_next_deprecated.Smt.Bv.{extract}
use alive_next_deprecated.Ir.Config.{Config}
use alive_next_deprecated.Ir.Pointer.{
  total_bits, padding_physical, mk_physical, is_logical, get_attrs, get_physical_address,
}
use alive_next_deprecated.Ir.Pointer.Parts.{
  extract-field, extract-bit, untested, total-ge, packed-above, get_attrs-above, local_bit-above,
}

module _ (c : Config) (addr attr : ℕ) (tf : attr < 2 ^ c.bits_for_ptrattrs) where
  physical : ℕ
  physical =
      above c.bits_for_ptrattrs (above c.bits_ptr_address (above (padding_physical c) 1 0) addr)
        attr

  mk_physical-above : mk_physical c addr attr ≡ physical
  unfolding mk_physical physical
  mk_physical-above =
      packed-above c.bits_for_ptrattrs
        (above c.bits_ptr_address (above (padding_physical c) 1 0) addr) attr tf

module _ (c : Config) (addr attr : ℕ) (e : c.has_int2ptr ≡ true)
    (some_bits : 0 < c.bits_ptr_address) (af : addr < 2 ^ c.bits_ptr_address)
    (tf : attr < 2 ^ c.bits_for_ptrattrs) where
  physical-top : is_logical c (physical c addr attr tf) ≡ false
  unfolding is_logical physical
  physical-top =
      let t : ℕ = total_bits c - 1 in
      let x : ℕ = above c.bits_ptr_address (above (padding_physical c) 1 0) addr in
      let from : t ≡ c.bits_for_ptrattrs + (c.bits_ptr_address + padding_physical c) =
        omega (arith, (total-ge c e).1) in
      let top : field t 1 (above c.bits_for_ptrattrs x attr) ≡ 1 =
        ap (λ k. field k 1 (above c.bits_for_ptrattrs x attr)) from
        ∙ (field-above c.bits_for_ptrattrs (c.bits_ptr_address + padding_physical c) 1 x attr tf
            ∙ (field-above c.bits_ptr_address (padding_physical c) 1
                  (above (padding_physical c) 1 0) addr af
                ∙ local_bit-above (padding_physical c) 0 true (pow-pos (padding_physical c)))) in
      untested c.has_int2ptr (extract t t (above c.bits_for_ptrattrs x attr) == 0) e
        (ap (λ k. k == 0) (extract-bit t (above c.bits_for_ptrattrs x attr) ∙ top))

  physical-lt : physical c addr attr tf < 2 ^ total_bits c
  unfolding physical
  physical-lt =
      let x : ℕ = above c.bits_ptr_address (above (padding_physical c) 1 0) addr in
      let n : ℕ = 1 + padding_physical c + c.bits_ptr_address in
      omega (
        arith,
        above-lt n c.bits_for_ptrattrs x attr
            (above-lt (1 + padding_physical c) c.bits_ptr_address (above (padding_physical c) 1 0)
              addr
              (above-lt 1 (padding_physical c) 1 0 (omega arith) (pow-pos (padding_physical c))) af)
            tf,
        pow_mono (n + c.bits_for_ptrattrs) (total_bits c) (omega (arith, (total-ge c e).1)),
      )

module _ (c : Config) (addr attr : ℕ) (some_bits : 0 < c.bits_ptr_address)
    (af : addr < 2 ^ c.bits_ptr_address) (tf : attr < 2 ^ c.bits_for_ptrattrs) where
  physical-address : get_physical_address c (physical c addr attr tf) ≡ addr
  unfolding get_physical_address physical
  physical-address =
      let x : ℕ = above c.bits_ptr_address (above (padding_physical c) 1 0) addr in
      let from : c.bits_for_ptrattrs ≡ c.bits_for_ptrattrs + 0 = omega arith in
      extract-field c.bits_for_ptrattrs c.bits_ptr_address (above c.bits_for_ptrattrs x attr)
        some_bits
      ∙ (ap (λ k. field k c.bits_ptr_address (above c.bits_for_ptrattrs x attr)) from
          ∙ (field-above c.bits_for_ptrattrs 0 c.bits_ptr_address x attr tf
              ∙ (field-below c.bits_ptr_address 0 c.bits_ptr_address
                    (above (padding_physical c) 1 0) addr (omega arith)
                  ∙ field-whole c.bits_ptr_address addr af)))

-- A physical pointer gives back its address and its attributes, is not logical, and fits the bits
-- of a pointer.
pub mk_physical-Unpacks :
    (c : Config) (addr attr : ℕ)
    → c.has_int2ptr ≡ true
    → 0 < c.bits_ptr_address
    → addr < 2 ^ c.bits_ptr_address
    → attr < 2 ^ c.bits_for_ptrattrs
    → (is_logical c (mk_physical c addr attr) ≡ false)
      × ((get_physical_address c (mk_physical c addr attr) ≡ addr)
          × ((get_attrs c (mk_physical c addr attr) ≡ attr)
              × (mk_physical c addr attr < 2 ^ total_bits c)))
unfolding physical
mk_physical-Unpacks c addr attr e some_bits af tf =
    let x : ℕ = above c.bits_ptr_address (above (padding_physical c) 1 0) addr in
    subst
      (λ p.
        (is_logical c p ≡ false)
        × ((get_physical_address c p ≡ addr) × ((get_attrs c p ≡ attr) × (p < 2 ^ total_bits c))))
      (sym (mk_physical-above c addr attr tf))
      (
        physical-top c addr attr e some_bits af tf,
        (
          physical-address c addr attr some_bits af tf,
          (get_attrs-above c x attr tf, physical-lt c addr attr e some_bits af tf),
        ),
      )
