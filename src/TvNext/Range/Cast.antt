-- ===== src/TvNext/Range/Cast.antt =====
-- tv-next/range.cpp, transfer: select, freeze and the casts.
use alive_next_deprecated.Prelude.{
  ℕ, ◌-◌, true, ◌&&◌, not, ltb, leb, Option, none, some, if◌then◌else◌,
}
use alive_next_deprecated.Smt.Bv.{bvslt, is_negative, sext, trunc}
use alive_next_deprecated.TvNext.KnownBits.{KnownBitsLib}
use alive_next_deprecated.TvNext.Range.Bitwise.{active_bits}
use alive_next_deprecated.TvNext.Range.Defs.{
  Range, Interval, get_u, get_s, is_undef_free, is_poison_free, is_some, both, finish, derive_bits,
}

-- The hull of two intervals, unsigned and signed.
unfoldable pub hull_u : Option Interval → Option Interval → Option Interval
hull_u x y =
    both x y (λ (p q : Interval).
      some (if ltb p.0 q.0 then p.0 else q.0, if ltb q.1 p.1 then p.1 else q.1))

unfoldable pub hull_s : ℕ → Option Interval → Option Interval → Option Interval
hull_s bw x y = both x y (λ (p q : Interval).
    some (if bvslt bw p.0 q.0 then p.0 else q.0, if bvslt bw q.1 p.1 then p.1 else q.1))

-- The casts from width `sw`.
unfoldable pub zext_u : ℕ → Option Interval → Option Interval → Option Interval
zext_u sw (some u) s = some u
zext_u sw none none = none
zext_u sw none (some (lo, hi)) = if is_negative sw lo then none else some (lo, hi)

unfoldable pub sext_s : ℕ → ℕ → Option Interval → Option Interval → Option Interval
sext_s sw bw u (some (lo, hi)) = some (sext sw (bw - sw) lo, sext sw (bw - sw) hi)
sext_s sw bw none none = none
sext_s sw bw (some (lo, hi)) none =
    if is_negative sw hi then none else some (sext sw (bw - sw) lo, sext sw (bw - sw) hi)

unfoldable pub trunc_u : ℕ → ℕ → Option Interval → Option Interval
unfolding active_bits
trunc_u sw bw none = none
trunc_u sw bw (some (lo, hi)) =
    if leb (active_bits sw hi) bw then some (trunc bw lo, trunc bw hi) else none

module _ (l : KnownBitsLib) where
  open l use {KnownBits, is_unknown, intersect_with}

  unfoldable pub transfer_select :
      ℕ
      → Option (Range l)
      → Option (Range l)
      → Option (Range l)
      → KnownBits
      → KnownBits
      → Option (Range l)
  unfolding hull_u hull_s
  transfer_select bw c x y kx ky =
      let u = hull_u (get_u x) (get_u y) in
      let s = hull_s bw (get_s x) (get_s y) in
      let k = intersect_with kx ky in
      if not (is_some x) && not (is_some y)
      then none
      else if not (is_some u) && not (is_some s) && is_unknown k
      then none
      else some (
          finish l bw (record {
            u = u;
            s = s;
            bits = some k;
            undef_free = is_undef_free c && is_undef_free x && is_undef_free y;
            poison_free = is_poison_free c && is_poison_free x && is_poison_free y;
          }))

  abbrev get_bits : Option (Range l) → Option KnownBits
  get_bits none = none
  get_bits (some r) = r.bits

  unfoldable pub transfer_freeze : ℕ → Option (Range l) → Option (Range l)
  transfer_freeze bw x = some (
      derive_bits l bw (record {
        u = get_u x;
        s = get_s x;
        bits = get_bits x;
        undef_free = true;
        poison_free = true;
      }))

  -- An operand of which nothing is known gives no entry; the flags are the operand's.
  abbrev cast : ℕ → Option Interval → Option Interval → KnownBits → Range l → Option (Range l)
  cast bw u s k r =
      if not (is_some u) && not (is_some s) && is_unknown k
      then none
      else some (finish l bw (record r { u = u; s = s; bits = some k }))

  unfoldable pub transfer_zext : ℕ → ℕ → Option (Range l) → KnownBits → Option (Range l)
  unfolding zext_u
  transfer_zext sw bw none k = none
  transfer_zext sw bw (some r) k = cast bw (zext_u sw r.u r.s) none (l.zext bw k) r

  unfoldable pub transfer_sext : ℕ → ℕ → Option (Range l) → KnownBits → Option (Range l)
  unfolding sext_s
  transfer_sext sw bw none k = none
  transfer_sext sw bw (some r) k = cast bw none (sext_s sw bw r.u r.s) (l.sext bw k) r

  unfoldable pub transfer_trunc : ℕ → ℕ → Option (Range l) → KnownBits → Option (Range l)
  unfolding trunc_u
  transfer_trunc sw bw none k = none
  transfer_trunc sw bw (some r) k = cast bw (trunc_u sw bw r.u) none (l.trunc bw k) r
