-- ===== src/TvNext/Sound/Claims.antt =====
-- What a KnownRange (tv-next/range.h) claims of a value that is neither undef nor poison; about
-- crossDerive and deriveBitsFromIntervals.
use alive_next_deprecated.Prelude.{
  ℕ, ◌+◌, ◌%◌, ◌^◌, ◌≤◌, ◌<◌, arith, ◌&&◌, leb, Option, none, some, Bool-cases, inl, inr, ◌==◌,
}
use alive_next_deprecated.Prelude.Pow.{pow-half, pow-pos}
use native.Mathlib.Nat.{mod-lt}
use alive_next_deprecated.Prelude.Div.{mod_once}
use alive_next_deprecated.Smt.Bv.{half, biased, bvsle}
use alive_next_deprecated.TvNext.KnownBits.{KnownBitsLib, IsSoundLib, Between}
use alive_next_deprecated.TvNext.Range.Defs.{
  Interval, Range, cross_s, cross_u, cross_derive, add_unsigned, add_signed, derive_bits, finish,
  or_unknown,
}

abbrev pub InU : ℕ → Option Interval → ℕ → Type 0
InU bw none v = Unit {0}
InU bw (some (lo, hi)) v = (lo ≤ v) × (v ≤ hi) × (hi < 2 ^ bw)

abbrev pub InS : ℕ → Option Interval → ℕ → Type 0
InS bw none v = Unit {0}
InS bw (some (lo, hi)) v =
    (biased bw lo ≤ biased bw v) × (biased bw v ≤ biased bw hi) × (lo < 2 ^ bw) × (hi < 2 ^ bw)

cross_s_sound :
    (bw : ℕ)
    → 0 < bw
    → (u s : Option Interval) (v : ℕ) → InU bw u v
    → InS bw s v
    → InS bw (cross_s bw u s) v
unfolding cross_s
cross_s_sound bw pb none none v hu hs = tt
cross_s_sound bw pb none (some s) v hu hs = hs
cross_s_sound bw pb (some u) (some s) v hu hs = hs
cross_s_sound bw pb (some (lo, hi)) none v hu hs = elim (Bool-cases (leb (half bw) hi)) [
  | inl n ↦ rw n tt
  | inr n ↦ rw n (ground arith, ground arith, ground arith, ground arith)
]

cross_u_sound :
    (bw : ℕ)
    → 0 < bw
    → (u s : Option Interval) (v : ℕ) → v < 2 ^ bw
    → InU bw u v
    → InS bw s v
    → InU bw (cross_u bw u s) v
unfolding cross_u
cross_u_sound bw pb none none v hv hu hs = tt
cross_u_sound bw pb (some u) s v hv hu hs = hu
cross_u_sound bw pb none (some (lo, hi)) v hv hu hs = elim (Bool-cases (leb (half bw) lo)) [
  | inl n ↦ rw n tt
  | inr n ↦ rw n (
    ground (arith, pow-half bw pb),
    ground (arith, pow-half bw pb),
    ground (arith, pow-half bw pb),
  )
]

Between-unsigned : (m lo hi v : ℕ) → lo ≤ v → v ≤ hi → hi < m → Between lo ((hi + 1) % m) v
Between-unsigned m lo hi v p q r = rw (mod_once m (hi + 1) (omega arith)) (ground arith)

Between-signed :
    (bw lo hi v : ℕ)
    → 0 < bw
    → v < 2 ^ bw
    → InS bw (some (lo, hi)) v
    → lo ≤ (hi + 1) % 2 ^ bw
    → Between lo ((hi + 1) % 2 ^ bw) v
Between-signed bw lo hi v pb hv hs le =
    rw (mod_once (2 ^ bw) (hi + 1) (omega arith))
      (ground (arith, pow-half bw pb, mod_once (2 ^ bw) (hi + 1) (omega arith)))

module _ (l : KnownBitsLib) (bw : ℕ) where
  open l use {KnownBits, Known}

  abbrev pub InBits : Option KnownBits → ℕ → Type 0
  InBits none v = Unit {0}
  InBits (some k) v = Known bw k v

  pub record Holds (r : Range l) (v : ℕ) : Type 0 where
    pub in_u : InU bw r.u v
    pub in_s : InS bw r.s v
    pub in_bits : InBits r.bits v

  -- The entry, if there is one, is true of the value.
  pub data HoldsOpt : Option (Range l) → ℕ → Type 0 where
    no_entry : {v : ℕ} → HoldsOpt none v
    entry : {r : Range l} {v : ℕ} → Holds r v → HoldsOpt (some r) v

module _ (l : KnownBitsLib) (sound : IsSoundLib l) (bw : ℕ) (pb : 0 < bw) where
  open l use {KnownBits, Known, is_unknown}

  module _ (v : ℕ) (hv : v < 2 ^ bw) where
    add_unsigned_sound :
        (u : Option Interval) (acc : KnownBits)
        → InU bw u v
        → Known bw acc v
        → Known bw (add_unsigned l bw u acc) v
    unfolding add_unsigned
    add_unsigned_sound none acc h k = k
    add_unsigned_sound (some (lo, hi)) acc h k = elim (Bool-cases (leb lo hi)) [
      | inl c ↦ rw c (
          sound.join_sound bw v acc _ k (
            sound.range_sound bw lo _ v (omega (arith, h.0, h.1, h.2))
              (mod-lt (hi + 1) (pow-pos bw)) hv (Between-unsigned (2 ^ bw) lo hi v h.0 h.1 h.2)))
      | inr c ↦ rw c k
    ]

    add_signed_sound :
        (s : Option Interval) (acc : KnownBits)
        → InS bw s v
        → Known bw acc v
        → Known bw (add_signed l bw s acc) v
    unfolding add_signed
    add_signed_sound none acc h k = k
    add_signed_sound (some (lo, hi)) acc h k =
        elim (Bool-cases (bvsle bw lo hi && leb lo ((hi + 1) % 2 ^ bw))) [
          | inl c ↦ rw c (
              sound.join_sound bw v acc _ k (
                sound.range_sound bw lo _ v h.2 (mod-lt (hi + 1) (pow-pos bw)) hv
                  (Between-signed bw lo hi v pb hv h (ground arith))))
          | inr c ↦ rw c k
        ]

    or_unknown_sound : (k : Option KnownBits) → InBits l bw k v → Known bw (or_unknown l bw k) v
    or_unknown_sound none h = sound.unknown_sound bw v hv
    or_unknown_sound (some k) h = h

    pub derive_bits-Holds : (r : Range l) → Holds l bw r v → Holds l bw (derive_bits l bw r) v
    unfolding derive_bits
    derive_bits-Holds r h = elim (Bool-cases (bw == 0)) [
      | inl z ↦ absurd (ground arith)
      | inr z ↦ rw z (elim (Bool-cases (is_unknown acc)) [
        | inl c ↦ rw c h
        | inr c ↦ rw c (record { in_u = h.in_u; in_s = h.in_s; in_bits = known })
      ])
    ]
      where
        acc : KnownBits
        acc = add_signed l bw r.s (add_unsigned l bw r.u (or_unknown l bw r.bits))

        known : Known bw acc v
        known =
            add_signed_sound r.s _ h.in_s
              (add_unsigned_sound r.u _ h.in_u (or_unknown_sound r.bits h.in_bits))

    cross_derive-Holds : (r : Range l) → Holds l bw r v → Holds l bw (cross_derive bw r) v
    unfolding cross_derive
    cross_derive-Holds r h =
        let hs = cross_s_sound bw pb r.u r.s v h.in_u h.in_s in
        record { in_u = cross_u_sound bw pb r.u _ v hv h.in_u hs; in_s = hs; in_bits = h.in_bits }

    -- For a value of the width, crossDerive and then deriveBitsFromIntervals keep a range that is
    -- true of the value true of it.
    pub finish-Holds : (r : Range l) → Holds l bw r v → Holds l bw (finish l bw r) v
    unfolding finish
    finish-Holds r h = derive_bits-Holds _ (cross_derive-Holds r h)
