-- ===== src/TvNext/Range/Arith.antt =====
-- tv-next/range.cpp, transfer: add, sub and mul.
use alive_next_deprecated.Prelude.{
  ℕ, Bool, true, false, ◌&&◌, ◌||◌, not, leb, Option, none, some, if◌then◌else◌,
}
use alive_next_deprecated.Smt.Bv.{bvadd, bvsub, bvmul, bvsle, is_negative}
use alive_next_deprecated.TvNext.KnownBits.{KnownBitsLib}
use alive_next_deprecated.TvNext.Range.Defs.{
  Range, Interval, get_u, get_s, is_undef_free, is_poison_free, is_some, both, finish, says_nothing,
}

abbrev only_if : Bool → Option Interval → Option Interval
only_if flag o = if flag then o else none

-- Both ends added, for the unsigned and the signed interval alike.
unfoldable pub add_ends : ℕ → Bool → Option Interval → Option Interval → Option Interval
add_ends bw flag x y =
    only_if flag (both x y (λ (p q : Interval). some (bvadd bw p.0 q.0, bvadd bw p.1 q.1)))

unfoldable pub sub_u : ℕ → Bool → Option Interval → Option Interval → Option Interval
sub_u bw nuw x y =
    only_if nuw
      (both x y (λ (p q : Interval). if leb q.0 p.1 then some (0, bvsub bw p.1 q.0) else none))

unfoldable pub sub_s : ℕ → Bool → Option Interval → Option Interval → Option Interval
sub_s bw nsw x y = only_if nsw (
    both x y (λ (p q : Interval).
      if not (is_negative bw p.0) && not (is_negative bw q.1) && bvsle bw q.0 p.1
      then some (0, bvsub bw p.1 q.0)
      else none))

unfoldable pub mul_u : ℕ → Bool → Option Interval → Option Interval → Option Interval
mul_u bw nuw x y =
    only_if nuw (both x y (λ (p q : Interval). some (bvmul bw p.0 q.0, bvmul bw p.1 q.1)))

unfoldable pub mul_s : ℕ → Bool → Option Interval → Option Interval → Option Interval
mul_s bw nsw x y = only_if nsw (
    both x y (λ (p q : Interval).
      if not (is_negative bw p.0) && not (is_negative bw q.0)
      then some (bvmul bw p.0 q.0, bvmul bw p.1 q.1)
      else none))

module _ (l : KnownBitsLib) where
  open l use {KnownBits, add_sub, mul}

  -- The common end of the three cases. With nuw or nsw the result counts as free of poison only
  -- where an interval was found.
  abbrev keep :
      ℕ
      → Bool
      → Bool
      → Option Interval
      → Option Interval
      → KnownBits
      → Option (Range l)
      → Option (Range l)
      → Option (Range l)
  keep bw nuw nsw u s k x y =
      let r : Range l = record {
        u = u;
        s = s;
        bits = some k;
        undef_free = is_undef_free x && is_undef_free y;
        poison_free =
            (not (nuw || nsw) || is_some u || is_some s) && is_poison_free x && is_poison_free y;
      } in
      if says_nothing l r then none else some (finish l bw r)

  unfoldable pub transfer_add :
      ℕ
      → Bool
      → Bool
      → Option (Range l)
      → Option (Range l)
      → KnownBits
      → KnownBits
      → Option (Range l)
  unfolding add_ends
  transfer_add bw nuw nsw x y kx ky =
      keep bw nuw nsw (add_ends bw nuw (get_u x) (get_u y)) (add_ends bw nsw (get_s x) (get_s y))
        (add_sub true nsw nuw kx ky) x y

  unfoldable pub transfer_sub :
      ℕ
      → Bool
      → Bool
      → Option (Range l)
      → Option (Range l)
      → KnownBits
      → KnownBits
      → Option (Range l)
  unfolding sub_u sub_s
  transfer_sub bw nuw nsw x y kx ky =
      keep bw nuw nsw (sub_u bw nuw (get_u x) (get_u y)) (sub_s bw nsw (get_s x) (get_s y))
        (add_sub false nsw nuw kx ky) x y

  unfoldable pub transfer_mul :
      ℕ
      → Bool
      → Bool
      → Option (Range l)
      → Option (Range l)
      → KnownBits
      → KnownBits
      → Option (Range l)
  unfolding mul_u mul_s
  transfer_mul bw nuw nsw x y kx ky =
      keep bw nuw nsw (mul_u bw nuw (get_u x) (get_u y)) (mul_s bw nsw (get_s x) (get_s y))
        (mul kx ky) x y
