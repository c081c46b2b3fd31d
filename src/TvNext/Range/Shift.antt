-- ===== src/TvNext/Range/Shift.antt =====
-- tv-next/range.cpp, transfer: lshr, ashr and shl. `amount` is what shiftInRange gives.
use alive_next_deprecated.Prelude.{ℕ, Bool, ◌&&◌, ltb, Option, none, some, if◌then◌else◌}
use alive_next_deprecated.Smt.Bv.{bvlshr, bvashr, bvshl}
use alive_next_deprecated.TvNext.KnownBits.{KnownBitsLib}
use alive_next_deprecated.TvNext.Range.Defs.{
  Range, Interval, get_u, get_s, is_undef_free, is_poison_free, both, finish, says_nothing,
}

abbrev pub map_ends : (ℕ → ℕ) → Option Interval → Option Interval
map_ends f none = none
map_ends f (some (lo, hi)) = some (f lo, f hi)

unfoldable pub lshr_u : ℕ → ℕ → Option Interval → Option Interval → Option Interval
lshr_u bw const_shift x y =
    if ltb const_shift bw
    then map_ends (λ (t : ℕ). bvlshr t const_shift) x
    else both x y (λ (p q : Interval). some (bvlshr p.0 q.1, bvlshr p.1 q.0))

unfoldable pub ashr_s : ℕ → ℕ → Option Interval → Option Interval → Option Interval
ashr_s bw const_shift x y =
    if ltb const_shift bw
    then map_ends (λ (t : ℕ). bvashr bw t const_shift) x
    else both x y (λ (p q : Interval). some (bvashr bw p.0 q.0, bvashr bw p.1 q.0))

unfoldable pub shl_ends : ℕ → ℕ → Bool → Option Interval → Option Interval
shl_ends bw const_shift flag x =
    if ltb const_shift bw && flag then map_ends (λ (t : ℕ). bvshl bw t const_shift) x else none

module _ (l : KnownBitsLib) where
  open l use {KnownBits, lshr, ashr, shl}

  abbrev shifted :
      Option Interval → Option Interval → KnownBits → Option (Range l) → Option (Range l) → Range l
  shifted u s k x y = record {
    u = u;
    s = s;
    bits = some k;
    undef_free = is_undef_free x && is_undef_free y;
    poison_free = is_poison_free x && is_poison_free y;
  }

  abbrev keep : ℕ → Bool → Range l → Option (Range l)
  keep bw in_range r =
      if in_range then if says_nothing l r then none else some (finish l bw r) else none

  unfoldable pub transfer_lshr :
      ℕ → Bool × ℕ → Option (Range l) → Option (Range l) → KnownBits → KnownBits → Option (Range l)
  unfolding lshr_u
  transfer_lshr bw amount x y kx ky =
      keep bw amount.0 (shifted (lshr_u bw amount.1 (get_u x) (get_u y)) none (lshr kx ky) x y)

  unfoldable pub transfer_ashr :
      ℕ → Bool × ℕ → Option (Range l) → Option (Range l) → KnownBits → KnownBits → Option (Range l)
  unfolding ashr_s
  transfer_ashr bw amount x y kx ky =
      keep bw amount.0 (shifted none (ashr_s bw amount.1 (get_s x) (get_u y)) (ashr kx ky) x y)

  unfoldable pub transfer_shl :
      ℕ
      → Bool × ℕ
      → Bool
      → Bool
      → Option (Range l)
      → Option (Range l)
      → KnownBits
      → KnownBits
      → Option (Range l)
  unfolding shl_ends
  transfer_shl bw amount nuw nsw x y kx ky = keep bw amount.0 (
      shifted (shl_ends bw amount.1 nuw (get_u x)) (shl_ends bw amount.1 nsw (get_s x))
        (shl nuw nsw kx ky) x y)
