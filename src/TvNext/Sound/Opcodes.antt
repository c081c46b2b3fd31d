-- ===== src/TvNext/Sound/Opcodes.antt =====
-- About the entry of each opcode in transfer (tv-next/range.cpp), for operands that are neither
-- undef nor poison.
use native.Mathlib.Nat.{mod-eq_of_lt, mod-lt, div-le_self}
use alive_next_deprecated.Prelude.{
  ℕ, ◌+◌, ◌-◌, ◌*◌, ◌/◌, ◌%◌, ◌^◌, ◌≤◌, ◌<◌, ◌≡◌, ◌≢◌, arith, Bool, true, false, ltb, Option, none,
  some, bit_and, bit_or, bit_xor, if◌then◌else◌,
}
use alive_next_deprecated.Prelude.Pow.{pow-pos, pow_mono}
use alive_next_deprecated.Prelude.Div.{mod_once}
use alive_next_deprecated.Prelude.Bits.{bit_and-le_left, bit_or-lt, bit_xor-lt}
use alive_next_deprecated.Smt.Bv.{bvsub, bvlshr}
use alive_next_deprecated.TvNext.KnownBits.{KnownBitsLib, IsSoundLib}
use alive_next_deprecated.TvNext.Range.Defs.{Range, get_u, get_s, finish}
use alive_next_deprecated.TvNext.Range.Bitwise.{
  transfer_and, transfer_or, transfer_xor, transfer_urem, transfer_udiv,
}
use alive_next_deprecated.TvNext.Range.Shift.{transfer_lshr}
use alive_next_deprecated.TvNext.Range.Arith.{transfer_sub, transfer_mul}
use alive_next_deprecated.TvNext.Range.Cast.{transfer_select, transfer_zext, transfer_trunc}
use alive_next_deprecated.TvNext.Sound.Claims.{
  InU, InS, Holds, HoldsOpt, finish-Holds, derive_bits-Holds,
}
use alive_next_deprecated.TvNext.Sound.Intervals.{
  and_u_sound, or_u_sound, urem_u_sound, udiv_u_sound, lshr_u_sound, hull_u_left, hull_u_right,
  hull_s_left, hull_s_right,
}
use alive_next_deprecated.TvNext.Sound.ArithIntervals.{
  EndsFit, sub_u_sound, mul_u_sound, zext_u_sound, trunc_u_sound,
}

-- Without the flag nothing is promised.
unflagged : {P : Type 0} → false ≡ true → P
unflagged h = absurd (ground arith)

module _ (l : KnownBitsLib) (sound : IsSoundLib l) (bw : ℕ) (pb : 0 < bw) where
  open l use {KnownBits, Known, is_unknown}

  InU-of : (x : Option (Range l)) (v : ℕ) → HoldsOpt l bw x v → InU bw (get_u x) v
  InU-of none v h = tt
  InU-of (some r) v (HoldsOpt.entry h) = h.in_u

  InS-of : (x : Option (Range l)) (v : ℕ) → HoldsOpt l bw x v → InS bw (get_s x) v
  InS-of none v h = tt
  InS-of (some r) v (HoldsOpt.entry h) = h.in_s

  unless :
      (c : Bool) (o : Option (Range l)) (v : ℕ)
      → HoldsOpt l bw o v
      → HoldsOpt l bw (if c then none else o) v
  unless true o v h = HoldsOpt.no_entry
  unless false o v h = h

  when_some :
      (c : Bool) (o : Option (Range l)) (v : ℕ)
      → HoldsOpt l bw o v
      → HoldsOpt l bw (if c then o else none) v
  when_some true o v h = h
  when_some false o v h = HoldsOpt.no_entry

  finished :
      (v : ℕ) → v < 2 ^ bw → (r : Range l) → Holds l bw r v → HoldsOpt l bw (some (finish l bw r)) v
  finished v hv r h = HoldsOpt.entry (finish-Holds l sound bw pb v hv r h)

  module _ (x y : Option (Range l)) (kx ky : KnownBits) (a b : ℕ) (ha : a < 2 ^ bw)
      (hb : b < 2 ^ bw) (hx : HoldsOpt l bw x a) (hy : HoldsOpt l bw y b) (hkx : Known bw kx a)
      (hky : Known bw ky b) where
    -- Where the entries and the known bits of both operands are true of them, so is the entry of
    -- their and.
    pub transfer_and-HoldsOpt : HoldsOpt l bw (transfer_and l bw x y kx ky) (bit_and a b)
    unfolding transfer_and
    transfer_and-HoldsOpt = unless _ _ _ (
        finished _ (omega (arith, bit_and-le_left a b)) _ (record {
          in_u = and_u_sound bw a b (get_u x) (get_u y) (InU-of x a hx) (InU-of y b hy);
          in_s = tt;
          in_bits = sound.and_sound bw a b kx ky ha hb hkx hky;
        }))

    -- Where the entries and the known bits of both operands are true of them, so is the entry of
    -- their or.
    pub transfer_or-HoldsOpt : HoldsOpt l bw (transfer_or l bw x y kx ky) (bit_or a b)
    unfolding transfer_or
    transfer_or-HoldsOpt = unless _ _ _ (
        finished _ (bit_or-lt a b bw ha hb) _ (record {
          in_u = or_u_sound bw a b (get_u x) (get_u y) (InU-of x a hx) (InU-of y b hy);
          in_s = tt;
          in_bits = sound.or_sound bw a b kx ky ha hb hkx hky;
        }))

    -- Where the entries and the known bits of both operands are true of them and the divisor is
    -- not 0, the entry of the urem is true of the remainder.
    pub transfer_urem-HoldsOpt : b ≢ 0 → HoldsOpt l bw (transfer_urem l bw x y kx ky) (a % b)
    unfolding transfer_urem
    transfer_urem-HoldsOpt nz = when_some _ _ _ (
        finished _ (omega (arith, mod-lt a (pos nz))) _ (record {
          in_u = urem_u_sound bw a b (get_u y) (InU-of y b hy);
          in_s = tt;
          in_bits = sound.urem_sound bw a b kx ky nz ha hb hkx hky;
        }))
      where
        pos : b ≢ 0 → 0 < b
        pos h = omega arith

    -- Where the entries and the known bits of both operands are true of them, so is the entry of
    -- their xor.
    pub transfer_xor-HoldsOpt : HoldsOpt l bw (transfer_xor l bw x y kx ky) (bit_xor a b)
    unfolding transfer_xor
    transfer_xor-HoldsOpt = unless _ _ _ (
        HoldsOpt.entry (
          derive_bits-Holds l sound bw pb _ (bit_xor-lt a b bw ha hb) _ (record {
            in_u = tt;
            in_s = tt;
            in_bits = sound.xor_sound bw a b kx ky ha hb hkx hky;
          })))

    -- Where the entries and the known bits of both operands are true of them and the divisor is
    -- not 0, the entry of the udiv is true of the quotient.
    pub transfer_udiv-HoldsOpt : b ≢ 0 → HoldsOpt l bw (transfer_udiv l bw x y kx ky) (a / b)
    unfolding transfer_udiv
    transfer_udiv-HoldsOpt nz = when_some _ _ _ (
        finished _ (omega (arith, div-le_self a b)) _ (record {
          in_u = udiv_u_sound bw a b (get_u x) (get_u y) (InU-of x a hx) (InU-of y b hy);
          in_s = tt;
          in_bits = sound.udiv_sound bw a b kx ky nz ha hb hkx hky;
        }))

    -- Where the entries and the known bits of both operands are true of them, the amount is below
    -- the width, and the constant amount, if shiftInRange gave one, is the amount, the entry of
    -- the lshr is true of the shifted value.
    pub transfer_lshr-HoldsOpt :
        (amount : Bool × ℕ)
        → b < bw
        → (ltb amount.1 bw ≡ true → b ≡ amount.1)
        → HoldsOpt l bw (transfer_lshr l bw amount x y kx ky) (bvlshr a b)
    unfolding transfer_lshr
    transfer_lshr-HoldsOpt (accepted, c) hb' const = when_some accepted _ _ (
        unless _ _ _ (
          finished _ (omega (arith, div-le_self a (2 ^ b))) _ (record {
            in_u = lshr_u_sound bw a b c (get_u x) (get_u y) const (InU-of x a hx) (InU-of y b hy);
            in_s = tt;
            in_bits = sound.lshr_sound bw a b kx ky hb' ha hb hkx hky;
          })))

    -- Where the entries and the known bits of both values are true of them, the entry of the
    -- select is true of either.
    pub transfer_select-HoldsOpt :
        (c : Option (Range l))
        → HoldsOpt l bw (transfer_select l bw c x y kx ky) a
          × HoldsOpt l bw (transfer_select l bw c x y kx ky) b
    unfolding transfer_select
    transfer_select-HoldsOpt c = (
      unless _ _ _ (
          unless _ _ _ (
            finished _ ha _ (record {
              in_u = hull_u_left bw a b (get_u x) (get_u y) (InU-of x a hx) (InU-of y b hy);
              in_s = hull_s_left bw a b (get_s x) (get_s y) (InS-of x a hx) (InS-of y b hy);
              in_bits = sound.intersect_left bw a kx ky hkx;
            }))),
      unless _ _ _ (
          unless _ _ _ (
            finished _ hb _ (record {
              in_u = hull_u_right bw a b (get_u x) (get_u y) (InU-of x a hx) (InU-of y b hy);
              in_s = hull_s_right bw a b (get_s x) (get_s y) (InS-of x a hx) (InS-of y b hy);
              in_bits = sound.intersect_right bw b kx ky hky;
            }))),
    )

    -- Where the entries and the known bits of both operands are true of them and the second is not
    -- the larger, the entry of a sub nuw is true of the difference.
    pub transfer_sub-HoldsOpt :
        b ≤ a → HoldsOpt l bw (transfer_sub l bw true false x y kx ky) (a - b)
    unfolding transfer_sub
    transfer_sub-HoldsOpt le = unless _ _ _ (
        finished _ (omega arith) _ (record {
          in_u = sub_u_sound bw a b true (get_u x) (get_u y) le (InU-of x a hx) (InU-of y b hy);
          in_s = tt;
          in_bits =
              rw difference at
                (sound.sub_sound bw a b false true kx ky ha hb unflagged (λ h. le) hkx hky);
        }))
      where
        difference : bvsub bw a b ≡ a - b
        difference = rw (mod_once (2 ^ bw) (a + (2 ^ bw - b)) (omega arith)) (ground arith)

    -- Where the entries and the known bits of both operands are true of them, and neither their
    -- product nor that of the upper ends wraps, the entry of a mul nuw is true of the product.
    pub transfer_mul-HoldsOpt :
        a * b < 2 ^ bw
        → EndsFit bw ◌*◌ (get_u x) (get_u y)
        → HoldsOpt l bw (transfer_mul l bw true false x y kx ky) (a * b)
    unfolding transfer_mul
    transfer_mul-HoldsOpt fits ends = unless _ _ _ (
        finished _ fits _ (record {
          in_u = mul_u_sound bw a b true (get_u x) (get_u y) ends (InU-of x a hx) (InU-of y b hy);
          in_s = tt;
          in_bits = rw (mod-eq_of_lt fits) at (sound.mul_sound bw a b kx ky ha hb hkx hky);
        }))

  -- A cast of a value of width `sw`.
  module _ (sw : ℕ) (ps : 0 < sw) (x : Option (Range l)) (k : KnownBits) (a : ℕ) (ha : a < 2 ^ sw)
      (hx : HoldsOpt l sw x a) (hk : Known sw k a) where
    -- Where the entry and the known bits of the operand are true of it, the entry of a zext to a
    -- width that is not smaller is true of the same number.
    pub transfer_zext-HoldsOpt : sw ≤ bw → HoldsOpt l bw (transfer_zext l sw bw x k) a
    unfolding transfer_zext
    transfer_zext-HoldsOpt le = zext_of x hx
      where
        zext_of :
            (x' : Option (Range l))
            → HoldsOpt l sw x' a
            → HoldsOpt l bw (transfer_zext l sw bw x' k) a
        zext_of none h = HoldsOpt.no_entry
        zext_of (some r) (HoldsOpt.entry h) = unless _ _ _ (
            finished a (omega (arith, pow_mono sw bw le)) _ (record {
              in_u = zext_u_sound sw bw a r.u r.s ps le ha h.in_u h.in_s;
              in_s = tt;
              in_bits = sound.zext_sound sw bw a k le ha hk;
            }))

    -- Where the entry and the known bits of the operand are true of it, the entry of a trunc to a
    -- width that is not larger is true of the low bits.
    pub transfer_trunc-HoldsOpt : bw ≤ sw → HoldsOpt l bw (transfer_trunc l sw bw x k) (a % 2 ^ bw)
    unfolding transfer_trunc
    transfer_trunc-HoldsOpt le = trunc_of x hx
      where
        trunc_of :
            (x' : Option (Range l))
            → HoldsOpt l sw x' a
            → HoldsOpt l bw (transfer_trunc l sw bw x' k) (a % 2 ^ bw)
        trunc_of none h = HoldsOpt.no_entry
        trunc_of (some r) (HoldsOpt.entry h) = unless _ _ _ (
            finished _ (mod-lt a (pow-pos bw)) _ (record {
              in_u = trunc_u_sound sw bw a r.u h.in_u;
              in_s = tt;
              in_bits = sound.trunc_sound sw bw a k le ha hk;
            }))
