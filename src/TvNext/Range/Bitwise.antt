-- ===== src/TvNext/Range/Bitwise.antt =====
-- tv-next/range.cpp, transfer: and, or, xor, and the divisions urem and udiv.
use alive_next_deprecated.Prelude.{
  ℕ, zero, suc, ◌-◌, ◌/◌, ◌^◌, ◌&&◌, not, ltb, ◌==◌, Option, none, some, max, if◌then◌else◌,
}
use alive_next_deprecated.Smt.Bv.{bvsub, is_negative}
use alive_next_deprecated.TvNext.KnownBits.{KnownBitsLib}
use alive_next_deprecated.TvNext.Range.Defs.{
  Range, Interval, get_u, is_undef_free, is_poison_free, is_some, both, finish, derive_bits,
}

-- The first bound that `tryConst` finds: a non-negative end of the second operand's interval.
unfoldable pub masked_by : ℕ → Option Interval → Option Interval
masked_by bw none = none
masked_by bw (some (lo, hi)) = if is_negative bw hi then none else some (0, hi)

abbrev or_else : Option Interval → Option Interval → Option Interval
or_else none o = o
or_else (some x) o = some x

unfoldable pub and_u : ℕ → Option Interval → Option Interval → Option Interval
unfolding masked_by
and_u bw x y = or_else (masked_by bw y) (
    or_else (masked_by bw x)
      (both x y (λ (p q : Interval). some (0, if ltb p.1 q.1 then p.1 else q.1))))

-- The number of bits that a value needs, below `k`.
unfoldable pub active_bits : ℕ → ℕ → ℕ
active_bits zero n = 0
active_bits (suc k) n = if ltb n (2 ^ k) then active_bits k n else suc k

unfoldable pub or_u : ℕ → Option Interval → Option Interval → Option Interval
unfolding active_bits
or_u bw x y = both x y (λ (p q : Interval).
    some
      ((if ltb q.0 p.0 then p.0 else q.0), 2 ^ max (active_bits bw p.1) (active_bits bw q.1) - 1))

unfoldable pub urem_u : ℕ → Option Interval → Option Interval
urem_u bw none = none
urem_u bw (some (lo, hi)) = if lo == 0 then none else some (0, bvsub bw hi 1)

unfoldable pub udiv_u : Option Interval → Option Interval → Option Interval
udiv_u x y = both x y (λ (p q : Interval). if q.0 == 0 then none else some (p.0 / q.1, p.1 / q.0))

module _ (l : KnownBitsLib) where
  open l use {KnownBits, is_unknown, and_bits, or_bits, xor_bits, urem, udiv}

  -- A result whose flags hold where both operands' flags hold.
  abbrev from_both : Option Interval → KnownBits → Option (Range l) → Option (Range l) → Range l
  from_both u k x y = record {
    u = u;
    s = none;
    bits = some k;
    undef_free = is_undef_free x && is_undef_free y;
    poison_free = is_poison_free x && is_poison_free y;
  }

  unfoldable pub transfer_and :
      ℕ → Option (Range l) → Option (Range l) → KnownBits → KnownBits → Option (Range l)
  unfolding and_u
  transfer_and bw x y kx ky =
      let u = and_u bw (get_u x) (get_u y) in
      let k = and_bits kx ky in
      if not (is_some u) && is_unknown k then none else some (finish l bw (from_both u k x y))

  unfoldable pub transfer_or :
      ℕ → Option (Range l) → Option (Range l) → KnownBits → KnownBits → Option (Range l)
  unfolding or_u
  transfer_or bw x y kx ky =
      let u = or_u bw (get_u x) (get_u y) in
      let k = or_bits kx ky in
      if not (is_some u) && is_unknown k then none else some (finish l bw (from_both u k x y))

  unfoldable pub transfer_xor :
      ℕ → Option (Range l) → Option (Range l) → KnownBits → KnownBits → Option (Range l)
  transfer_xor bw x y kx ky =
      let k = xor_bits kx ky in
      if is_unknown k then none else some (derive_bits l bw (from_both none k x y))

  -- A divisor that may be 0, or of which nothing is known, gives no entry.
  unfoldable pub transfer_urem :
      ℕ → Option (Range l) → Option (Range l) → KnownBits → KnownBits → Option (Range l)
  unfolding urem_u
  transfer_urem bw x y kx ky =
      let u = urem_u bw (get_u y) in
      if is_some u then some (finish l bw (from_both u (urem kx ky) x y)) else none

  unfoldable pub transfer_udiv :
      ℕ → Option (Range l) → Option (Range l) → KnownBits → KnownBits → Option (Range l)
  unfolding udiv_u
  transfer_udiv bw x y kx ky =
      let u = udiv_u (get_u x) (get_u y) in
      if is_some u then some (finish l bw (from_both u (udiv kx ky) x y)) else none
