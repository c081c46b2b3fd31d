-- ===== src/Ir/Pointer/Parts.antt =====
-- About the fields of the packed pointers (ir/pointer.cpp), one at a time.
use alive_next_deprecated.Prelude.{
  ℕ, ◌+◌, ◌-◌, ◌/◌, ◌%◌, ◌^◌, ◌≤◌, ◌<◌, ◌≡◌, refl, ap, sym, ◌∙◌, arith, Bool, true, false, ◌==◌,
  if◌then◌else◌, Bool-cases, inl, inr,
}
use native.Mathlib.Nat.{div-eq_of_lt, mod-eq_of_lt}
use alive_next_deprecated.Prelude.Pow.{pow_mono, pow-pos}
use alive_next_deprecated.Prelude.Fields.{field, above, field-above, field-below, field-whole}
use alive_next_deprecated.Smt.Bv.{extract, concat, to_bv_bool}
use alive_next_deprecated.Ir.Config.{Config}
use alive_next_deprecated.Ir.Pointer.{
  total_bits, total_bits_logical, total_bits_physical, padding_physical, get_attrs,
}

pub extract-field : (s n v : ℕ) → 0 < n → extract (s + n - 1) s v ≡ field s n v
extract-field s n v p = ap (λ k. v / 2 ^ s % 2 ^ k) (omega arith)

pub extract-bit : (s v : ℕ) → extract s s v ≡ field s 1 v
extract-bit s v = ap (λ k. v / 2 ^ s % 2 ^ k) {y = 1} (omega arith)

pub extract-low : (n v : ℕ) → 0 < n → extract (n - 1) 0 v ≡ field 0 n v
extract-low n v p = ap (λ k. v / 2 ^ 0 % 2 ^ k) {y = n} (omega arith)

-- A bit above all the digits is zero.
pub high_zero : (s t v : ℕ) → v < 2 ^ s → s ≤ t → (extract t t v == 0) ≡ true
high_zero s t v p q =
    let none : v / 2 ^ t ≡ 0 = div-eq_of_lt {n = v} {m = 2 ^ t} (omega (arith, pow_mono s t q)) in
    let zero_bit : extract t t v ≡ 0 =
      ap (λ x. x % 2 ^ (t + 1 - t)) none
      ∙ mod-eq_of_lt {n = 0} {m = 2 ^ (t + 1 - t)} (pow-pos (t + 1 - t)) in
    ground arith

pub tested : (b x : Bool) → (b ≡ true → x ≡ true) → (if b then x else true) ≡ true
tested true x h = h refl
tested false x h = refl

pub untested : (b x : Bool) → b ≡ true → x ≡ false → (if b then x else true) ≡ false
untested true x h k = k
untested false x h k = sym h

-- The parts of either representation, without its top bit, leave room for that bit.
pub total-ge :
    (c : Config)
    → c.has_int2ptr ≡ true
    → ((c.bits_for_bid + c.bits_for_offset) + c.bits_for_ptrattrs ≤ total_bits c - 1)
      × ((padding_physical c + c.bits_ptr_address) + c.bits_for_ptrattrs ≡ total_bits c - 1)
unfolding total_bits total_bits_logical total_bits_physical padding_physical
total-ge c e = rw e (omega arith, ground arith)

-- Attributes of no bits leave the word.
pub packed-above :
    (n x attr : ℕ) → attr < 2 ^ n → (if n == 0 then x else concat n x attr) ≡ above n x attr
packed-above n x attr p = elim (Bool-cases (n == 0)) [
  | inl e ↦
      let zero_bits : n ≡ 0 = ground arith in
      let one : 2 ^ n ≡ 1 = ap (λ k. 2 ^ k) zero_bits in rw e (rw one (omega arith))
  | inr e ↦ rw e refl
]

pub prepended : (n e : ℕ) (b : Bool) → (if b then concat n 0 e else e) ≡ e
prepended n e true = omega arith
prepended n e false = refl

pub get_attrs-above :
    (c : Config) (x attr : ℕ)
    → attr < 2 ^ c.bits_for_ptrattrs
    → get_attrs c (above c.bits_for_ptrattrs x attr) ≡ attr
unfolding get_attrs
get_attrs-above c x attr p = elim (Bool-cases (c.bits_for_ptrattrs == 0)) [
  | inl e ↦
      let zero_bits : c.bits_for_ptrattrs ≡ 0 = ground arith in
      let one : 2 ^ c.bits_for_ptrattrs ≡ 1 = ap (λ k. 2 ^ k) zero_bits in rw e (omega arith)
  | inr e ↦ rw e (
      extract-low c.bits_for_ptrattrs (above c.bits_for_ptrattrs x attr) (ground arith)
      ∙ (field-below c.bits_for_ptrattrs 0 c.bits_for_ptrattrs x attr (omega arith)
          ∙ field-whole c.bits_for_ptrattrs attr p))
]

pub local_bit-above :
    (m short : ℕ) (local : Bool)
    → short < 2 ^ m
    → field m 1 (above m (to_bv_bool local) short) ≡ to_bv_bool local
local_bit-above m short local p =
    ap (λ k. field k 1 (above m (to_bv_bool local) short)) (omega arith)
    ∙ (field-above m 0 1 (to_bv_bool local) short p ∙ one_digit local)
  where
    one_digit : (b : Bool) → field 0 1 (to_bv_bool b) ≡ to_bv_bool b
    one_digit true = refl
    one_digit false = refl
