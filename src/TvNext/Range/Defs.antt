-- ===== src/TvNext/Range/Defs.antt =====
-- tv-next/range: KnownRange and the helpers crossDerive to shiftInRange.
use alive_next_deprecated.Prelude.{
  ℕ, ◌+◌, ◌%◌, ◌^◌, Bool, true, false, ◌&&◌, not, ltb, leb, ◌==◌, Option, none, some, if◌then◌else◌,
}
use alive_next_deprecated.Smt.Bv.{bvsle, is_negative}
use alive_next_deprecated.TvNext.KnownBits.{KnownBitsLib}

-- A closed interval of bit patterns.
abbrev pub Interval : Type 0
Interval = ℕ × ℕ

pub record KnownRange (KB : Type 0) : Type 0 where
  pub u : Option Interval
  pub s : Option Interval
  pub bits : Option KB
  pub undef_free : Bool
  pub poison_free : Bool

pub data Operand : Type 0 where
  constant : ℕ → Operand
  value : ℕ → Operand

module _ {KB : Type 0} where
  unfoldable pub well_defined : KnownRange KB → Bool
  well_defined r = r.undef_free && r.poison_free

  -- `r && r->u`, `r && r->s`, and the flags in the same way.
  abbrev pub get_u : Option (KnownRange KB) → Option Interval
  get_u none = none
  get_u (some r) = r.u

  abbrev pub get_s : Option (KnownRange KB) → Option Interval
  get_s none = none
  get_s (some r) = r.s

  abbrev pub is_undef_free : Option (KnownRange KB) → Bool
  is_undef_free none = false
  is_undef_free (some r) = r.undef_free

  abbrev pub is_poison_free : Option (KnownRange KB) → Bool
  is_poison_free none = false
  is_poison_free (some r) = r.poison_free

abbrev pub is_some {ℓ} : {A : Type ℓ} → Option A → Bool
is_some none = false
is_some (some x) = true

-- Two intervals that are both there.
abbrev pub both :
    Option Interval → Option Interval → (Interval → Interval → Option Interval) → Option Interval
both none y f = none
both (some x) none f = none
both (some x) (some y) f = f x y

-- The signed interval that an unsigned one gives where its end is not negative, and back.
unfoldable pub cross_s : ℕ → Option Interval → Option Interval → Option Interval
cross_s bw u (some s) = some s
cross_s bw none none = none
cross_s bw (some (lo, hi)) none = if is_negative bw hi then none else some (lo, hi)

unfoldable pub cross_u : ℕ → Option Interval → Option Interval → Option Interval
cross_u bw (some u) s = some u
cross_u bw none none = none
cross_u bw none (some (lo, hi)) = if is_negative bw lo then none else some (lo, hi)

-- crossDerive: the second test sees what the first has written.
unfoldable pub cross_derive : {KB : Type 0} → ℕ → KnownRange KB → KnownRange KB
unfolding cross_s cross_u
cross_derive bw r = let s' = cross_s bw r.u r.s in record r { u = cross_u bw r.u s'; s = s' }

module _ (l : KnownBitsLib) where
  open l use {KnownBits, unknown, make_constant, join, of_range, is_unknown}

  abbrev pub Range : Type 0
  Range = KnownRange KnownBits

  abbrev pub RangeMap : Type 0
  RangeMap = ℕ → Option Range

  abbrev pub or_unknown : ℕ → Option KnownBits → KnownBits
  or_unknown bw none = unknown bw
  or_unknown bw (some k) = k

  abbrev bits_or_unknown : ℕ → Option Range → KnownBits
  bits_or_unknown bw none = unknown bw
  bits_or_unknown bw (some r) = or_unknown bw r.bits

  -- knownBitsOf, for an operand of width `bw`.
  unfoldable pub known_bits_of : ℕ → Operand → RangeMap → KnownBits
  known_bits_of bw (Operand.constant n) map = make_constant bw n
  known_bits_of bw (Operand.value v) map = bits_or_unknown bw (map v)

  unfoldable pub range_of : ℕ → Operand → RangeMap → Option Range
  range_of bw (Operand.value v) map = map v
  range_of bw (Operand.constant n) map = some (record {
    u = some (n, n);
    s = some (n, n);
    bits = some (make_constant bw n);
    undef_free = true;
    poison_free = true;
  })

  unfoldable pub add_unsigned : ℕ → Option Interval → KnownBits → KnownBits
  add_unsigned bw none acc = acc
  add_unsigned bw (some (lo, hi)) acc =
      if leb lo hi then join acc (of_range bw lo ((hi + 1) % 2 ^ bw)) else acc

  unfoldable pub add_signed : ℕ → Option Interval → KnownBits → KnownBits
  add_signed bw none acc = acc
  add_signed bw (some (lo, hi)) acc =
      let hi' = (hi + 1) % 2 ^ bw in
      if bvsle bw lo hi && leb lo hi' then join acc (of_range bw lo hi') else acc

  -- deriveBitsFromIntervals
  unfoldable pub derive_bits : ℕ → Range → Range
  unfolding add_unsigned add_signed
  derive_bits bw r =
      let acc = add_signed bw r.s (add_unsigned bw r.u (or_unknown bw r.bits)) in
      if bw == 0 then r else if is_unknown acc then r else record r { bits = some acc }

  -- The last two calls of most cases.
  unfoldable pub finish : ℕ → Range → Range
  unfolding cross_derive derive_bits
  finish bw r = derive_bits bw (cross_derive bw r)

  -- `!r.bits || r.bits->isUnknown()`
  abbrev pub no_bits : Range → Bool
  no_bits r = elim r.bits [ none ↦ true | some k ↦ is_unknown k ]

  -- The test of the opcodes that may keep an entry for its flags alone.
  unfoldable pub says_nothing : Range → Bool
  unfolding well_defined
  says_nothing r = not (is_some r.u) && not (is_some r.s) && not (well_defined r) && no_bits r

  -- shiftInRange, on the operand and its range.
  unfoldable pub shift_in_range : Operand → ℕ → Option Range → Bool × ℕ
  shift_in_range (Operand.constant n) bw rR = let sh = if ltb bw n then bw else n in (ltb sh bw, sh)
  shift_in_range (Operand.value v) bw rR = elim (get_u rR) [
    | none ↦ (false, bw)
    | some (lo, hi) ↦ (ltb hi bw, bw)
  ]
