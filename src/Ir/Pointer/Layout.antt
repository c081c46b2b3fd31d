-- ===== src/Ir/Pointer/Layout.antt =====
-- About the packed representation of logical pointers (ir/pointer.cpp).
use alive_next_deprecated.Prelude.{
  ℕ, ◌+◌, ◌-◌, ◌^◌, ◌<◌, ◌≡◌, refl, ap, sym, ◌∙◌, arith, Bool, true, false, ◌==◌,
}
use mathlib.Core.Path.{subst}
use alive_next_deprecated.Prelude.Pow.{pow_mono, pow-half}
use alive_next_deprecated.Prelude.Fields.{
  field, above, above-lt, field-above, field-below, field-whole,
}
use alive_next_deprecated.Smt.Bv.{extract, concat, to_bv_bool}
use alive_next_deprecated.Ir.Config.{Config}
use alive_next_deprecated.Ir.Pointer.{
  total_bits, total_bits_logical, total_bits_physical, mk_pointer, mk_long_bid, is_logical,
  is_local, get_bid, get_short_bid, get_offset, get_attrs, has_local_bit, bits_short_bid,
}
use alive_next_deprecated.Ir.Pointer.Parts.{
  extract-field, extract-bit, high_zero, tested, total-ge, packed-above, prepended, get_attrs-above,
  local_bit-above,
}

-- The three fields of a logical pointer.
word : Config → ℕ → ℕ → ℕ → ℕ
word c bid offset attr = above c.bits_for_ptrattrs (above c.bits_for_offset bid offset) attr

mk_pointer-word :
    (c : Config) (bid offset attr : ℕ)
    → attr < 2 ^ c.bits_for_ptrattrs
    → mk_pointer c bid offset attr ≡ word c bid offset attr
unfolding mk_pointer word
mk_pointer-word c bid offset attr p =
    rw
      (prepended (c.bits_for_bid + c.bits_for_offset) (concat c.bits_for_offset bid offset)
        c.has_int2ptr)
      (packed-above c.bits_for_ptrattrs (above c.bits_for_offset bid offset) attr p)

module _ (c : Config) (bid offset attr : ℕ) (offset_fits : offset < 2 ^ c.bits_for_offset)
    (attr_fits : attr < 2 ^ c.bits_for_ptrattrs) where
  -- A field of the block id, `s` bits from its lowest.
  bid-field :
      (s n : ℕ)
      → field (c.bits_for_ptrattrs + (c.bits_for_offset + s)) n (word c bid offset attr)
        ≡ field s n bid
  unfolding word
  bid-field s n =
      field-above c.bits_for_ptrattrs (c.bits_for_offset + s) n (above c.bits_for_offset bid offset)
        attr attr_fits
      ∙ field-above c.bits_for_offset s n bid offset offset_fits

  bid-field_from :
      (t s n : ℕ)
      → t ≡ c.bits_for_ptrattrs + (c.bits_for_offset + s)
      → field t n (word c bid offset attr) ≡ field s n bid
  bid-field_from t s n e = ap (λ k. field k n (word c bid offset attr)) e ∙ bid-field s n

  offset-field : field c.bits_for_ptrattrs c.bits_for_offset (word c bid offset attr) ≡ offset
  unfolding word
  offset-field =
      let from : c.bits_for_ptrattrs ≡ c.bits_for_ptrattrs + 0 = omega arith in
      ap (λ k. field k c.bits_for_offset (word c bid offset attr)) from
      ∙ (field-above c.bits_for_ptrattrs 0 c.bits_for_offset (above c.bits_for_offset bid offset)
            attr attr_fits
          ∙ (field-below c.bits_for_offset 0 c.bits_for_offset bid offset (omega arith)
              ∙ field-whole c.bits_for_offset offset offset_fits))

  word-lt :
      bid < 2 ^ c.bits_for_bid
      → word c bid offset attr < 2 ^ ((c.bits_for_bid + c.bits_for_offset) + c.bits_for_ptrattrs)
  unfolding word
  word-lt p =
      above-lt (c.bits_for_bid + c.bits_for_offset) c.bits_for_ptrattrs
        (above c.bits_for_offset bid offset) attr
        (above-lt c.bits_for_bid c.bits_for_offset bid offset p offset_fits) attr_fits

  get_offset-word : 0 < c.bits_for_offset → get_offset c (word c bid offset attr) ≡ offset
  unfolding get_offset
  get_offset-word p =
      let turn : c.bits_for_offset + c.bits_for_ptrattrs - 1
          ≡ c.bits_for_ptrattrs + c.bits_for_offset - 1 =
        omega arith in
      ap (λ k. extract k c.bits_for_ptrattrs (word c bid offset attr)) turn
      ∙ (extract-field c.bits_for_ptrattrs c.bits_for_offset (word c bid offset attr) p
          ∙ offset-field)

  get_bid-word :
      0 < c.bits_for_bid → bid < 2 ^ c.bits_for_bid → get_bid c (word c bid offset attr) ≡ bid
  unfolding get_bid
  get_bid-word p q =
      extract-field (c.bits_for_offset + c.bits_for_ptrattrs) c.bits_for_bid
        (word c bid offset attr) p
      ∙ (bid-field_from (c.bits_for_offset + c.bits_for_ptrattrs) 0 c.bits_for_bid (omega arith)
          ∙ field-whole c.bits_for_bid bid q)

  get_attrs-word : get_attrs c (word c bid offset attr) ≡ attr
  unfolding word
  get_attrs-word = get_attrs-above c (above c.bits_for_offset bid offset) attr attr_fits

  is_local-word :
      (locals nonlocals : ℕ)
      → has_local_bit c ≡ true
      → 0 < c.bits_for_bid
      → is_local c locals nonlocals (word c bid offset attr)
        ≡ (field (c.bits_for_bid - 1) 1 bid == 1)
  unfolding is_local
  is_local-word locals nonlocals e p =
      let at : ℕ = c.bits_for_bid - 1 + c.bits_for_offset + c.bits_for_ptrattrs in
      rw e (
        ap (λ k. k == 1)
          (extract-bit at (word c bid offset attr)
            ∙ bid-field_from at (c.bits_for_bid - 1) 1 (omega arith)))

  get_short_bid-word :
      0 < bits_short_bid c
      → get_short_bid c (word c bid offset attr) ≡ field 0 (bits_short_bid c) bid
  unfolding get_short_bid bits_short_bid
  get_short_bid-word p =
      let start : ℕ = c.bits_for_offset + c.bits_for_ptrattrs in
      let n : ℕ = c.bits_for_bid - to_bv_bool (has_local_bit c) in
      let turn : start + c.bits_for_bid - 1 - to_bv_bool (has_local_bit c) ≡ start + n - 1 =
        omega arith in
      ap (λ k. extract k start (word c bid offset attr)) turn
      ∙ (extract-field start n (word c bid offset attr) p ∙ bid-field_from start 0 n (omega arith))

  word-logical : bid < 2 ^ c.bits_for_bid → is_logical c (word c bid offset attr) ≡ true
  unfolding is_logical
  word-logical p =
      tested c.has_int2ptr
        (extract (total_bits c - 1) (total_bits c - 1) (word c bid offset attr) == 0)
        (λ e.
          high_zero ((c.bits_for_bid + c.bits_for_offset) + c.bits_for_ptrattrs) (total_bits c - 1)
            (word c bid offset attr) (word-lt p) (total-ge c e).0)

  word-total : bid < 2 ^ c.bits_for_bid → word c bid offset attr < 2 ^ total_bits c
  unfolding total_bits total_bits_logical total_bits_physical
  word-total p = omega (
    arith,
    word-lt p,
    pow_mono ((c.bits_for_bid + c.bits_for_offset) + c.bits_for_ptrattrs) (total_bits c)
        (omega arith),
  )

-- What a logical pointer of a block id (with its local bit), an offset and attributes gives back.
pub record Unpacks (c : Config) (p short : ℕ) (local : Bool) (offset attr : ℕ) : Type 0 where
  pub logical : is_logical c p ≡ true
  pub local_bit : (locals nonlocals : ℕ) → is_local c locals nonlocals p ≡ local
  pub short_bid : get_short_bid c p ≡ short
  pub bid : get_bid c p ≡ mk_long_bid c short local
  pub offset_of : get_offset c p ≡ offset
  pub attrs : get_attrs c p ≡ attr
  pub bound : p < 2 ^ total_bits c

module _ (c : Config) (short : ℕ) (local : Bool) (both : has_local_bit c ≡ true)
    (bid_bits : 1 < c.bits_for_bid) (short_fits : short < 2 ^ bits_short_bid c) where
  long : ℕ
  long = above (c.bits_for_bid - 1) (to_bv_bool local) short

  mk_long_bid-long : mk_long_bid c short local ≡ long
  unfolding mk_long_bid bits_short_bid long
  mk_long_bid-long = rw both refl

  short_bits : bits_short_bid c ≡ c.bits_for_bid - 1
  unfolding bits_short_bid
  short_bits = rw both refl

  long-lt : long < 2 ^ c.bits_for_bid
  unfolding long
  long-lt = fits local
    where
      low : short < 2 ^ (c.bits_for_bid - 1)
      low = omega (arith, short_fits, ap (λ k. 2 ^ k) short_bits)

      fits : (b : Bool) → above (c.bits_for_bid - 1) (to_bv_bool b) short < 2 ^ c.bits_for_bid
      fits true = omega (arith, low, pow-half c.bits_for_bid (omega arith))
      fits false = omega (arith, low, pow-half c.bits_for_bid (omega arith))

  long-low : field 0 (bits_short_bid c) long ≡ short
  unfolding long
  long-low =
      field-below (c.bits_for_bid - 1) 0 (bits_short_bid c) (to_bv_bool local) short
        (omega (arith, short_bits))
      ∙ field-whole (bits_short_bid c) short short_fits

  long-local : (field (c.bits_for_bid - 1) 1 long == 1) ≡ local
  unfolding long
  long-local =
      ap (λ k. k == 1)
        (local_bit-above (c.bits_for_bid - 1) short local
          (omega (arith, short_fits, ap (λ k. 2 ^ k) short_bits)))
      ∙ is_one local
    where
      is_one : (b : Bool) → (to_bv_bool b == 1) ≡ b
      is_one true = refl
      is_one false = refl

word-Unpacks :
    (c : Config) (short : ℕ) (local : Bool) (offset attr : ℕ)
    → has_local_bit c ≡ true
    → 1 < c.bits_for_bid
    → 0 < c.bits_for_offset
    → short < 2 ^ bits_short_bid c
    → offset < 2 ^ c.bits_for_offset
    → attr < 2 ^ c.bits_for_ptrattrs
    → (b : ℕ) → b < 2 ^ c.bits_for_bid
    → field 0 (bits_short_bid c) b ≡ short
    → (field (c.bits_for_bid - 1) 1 b == 1) ≡ local
    → b ≡ mk_long_bid c short local
    → bits_short_bid c ≡ c.bits_for_bid - 1
    → Unpacks c (word c b offset attr) short local offset attr
word-Unpacks c short local offset attr both bb ob sf of af b bf low loc e sb = record {
  logical = word-logical c b offset attr of af bf;
  local_bit = λ locals nonlocals.
      is_local-word c b offset attr of af locals nonlocals both (omega arith) ∙ loc;
  short_bid = get_short_bid-word c b offset attr of af (omega arith) ∙ low;
  bid = get_bid-word c b offset attr of af (omega arith) bf ∙ e;
  offset_of = get_offset-word c b offset attr of af ob;
  attrs = get_attrs-word c b offset attr of af;
  bound = word-total c b offset attr of af bf;
}

-- In a memory with local and other blocks, a logical pointer gives back the block id, whether the
-- block is local, the offset and the attributes that it was made of, and fits its bits; the parts
-- must fit theirs, and the block id has at least two bits and the offset one.
pub mk_pointer-Unpacks :
    (c : Config) (short : ℕ) (local : Bool) (offset attr : ℕ)
    → has_local_bit c ≡ true
    → 1 < c.bits_for_bid
    → 0 < c.bits_for_offset
    → short < 2 ^ bits_short_bid c
    → offset < 2 ^ c.bits_for_offset
    → attr < 2 ^ c.bits_for_ptrattrs
    → Unpacks c (mk_pointer c (mk_long_bid c short local) offset attr) short local offset attr
mk_pointer-Unpacks c short local offset attr both bb ob sf of af =
    let b : ℕ = mk_long_bid c short local in
    let e : b ≡ long c short local both bb sf = mk_long_bid-long c short local both bb sf in
    subst (λ p. Unpacks c p short local offset attr) (sym (mk_pointer-word c b offset attr af))
      (word-Unpacks c short local offset attr both bb ob sf of af b
        (subst (λ k. k < 2 ^ c.bits_for_bid) (sym e) (long-lt c short local both bb sf))
        (ap (field 0 (bits_short_bid c)) e ∙ long-low c short local both bb sf)
        (ap (λ k. field (c.bits_for_bid - 1) 1 k == 1) e ∙ long-local c short local both bb sf) refl
        (short_bits c short local both bb sf))
