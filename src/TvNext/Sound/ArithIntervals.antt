-- ===== src/TvNext/Sound/ArithIntervals.antt =====
-- About the intervals of add, sub and mul, and of the casts, in transfer (tv-next/range.cpp).
use native.Mathlib.Nat.{mod-eq_of_lt}
use alive_next_deprecated.Prelude.{
  ℕ, ◌+◌, ◌-◌, ◌*◌, ◌%◌, ◌^◌, ◌≤◌, ◌<◌, arith, Bool, true, false, leb, Option, none, some,
  Bool-cases, inl, inr,
}
use alive_next_deprecated.Prelude.Pow.{pow-half, pow_mono}
use alive_next_deprecated.Prelude.Div.{mod_once}
use alive_next_deprecated.Smt.Bv.{is_negative}
use alive_next_deprecated.TvNext.Range.Defs.{Interval}
use alive_next_deprecated.TvNext.Range.Bitwise.{active_bits}
use alive_next_deprecated.TvNext.Range.Arith.{add_ends, sub_u, mul_u}
use alive_next_deprecated.TvNext.Range.Cast.{zext_u, trunc_u}
use alive_next_deprecated.TvNext.Sound.Claims.{InU, InS}
use alive_next_deprecated.TvNext.Sound.Intervals.{lt-active_bits}

mul_mono : (n m c d : ℕ) → n ≤ m → c ≤ d → n * c ≤ m * d
mul_mono n m c d p q = grind arith

-- The upper ends combine to a value of the width.
abbrev pub EndsFit : ℕ → (ℕ → ℕ → ℕ) → Option Interval → Option Interval → Type 0
EndsFit bw f none y = Unit {0}
EndsFit bw f (some p) none = Unit {0}
EndsFit bw f (some (lo, hi)) (some (lo', hi')) = f hi hi' < 2 ^ bw

module _ (bw : ℕ) (a b : ℕ) where
  module _ (fits : a + b < 2 ^ bw) where
    pub add_ends_sound :
        (nuw : Bool) (x y : Option Interval)
        → EndsFit bw ◌+◌ x y
        → InU bw x a
        → InU bw y b
        → InU bw (add_ends bw nuw x y) (a + b)
    unfolding add_ends
    add_ends_sound false x y e hx hy = tt
    add_ends_sound true none y e hx hy = tt
    add_ends_sound true (some p) none e hx hy = tt
    add_ends_sound true (some (lo, hi)) (some (lo', hi')) e hx hy =
        rw (mod-eq_of_lt e, mod-eq_of_lt {n = lo + lo'} {m = 2 ^ bw} (omega (arith, hx, hy)))
          (omega (arith, hx, hy))

  pub sub_u_sound :
      (nuw : Bool) (x y : Option Interval)
      → b ≤ a
      → InU bw x a
      → InU bw y b
      → InU bw (sub_u bw nuw x y) (a - b)
  unfolding sub_u
  sub_u_sound false x y e hx hy = tt
  sub_u_sound true none y e hx hy = tt
  sub_u_sound true (some p) none e hx hy = tt
  sub_u_sound true (some (lo, hi)) (some (lo', hi')) e hx hy = elim (Bool-cases (leb lo' hi)) [
    | inr z ↦ rw z tt
    | inl z ↦ rw (z, mod_once (2 ^ bw) (hi + (2 ^ bw - lo')) (omega (arith, hx, hy))) (ground arith)
  ]

  pub mul_u_sound :
      (nuw : Bool) (x y : Option Interval)
      → EndsFit bw ◌*◌ x y
      → InU bw x a
      → InU bw y b
      → InU bw (mul_u bw nuw x y) (a * b)
  unfolding mul_u
  mul_u_sound false x y e hx hy = tt
  mul_u_sound true none y e hx hy = tt
  mul_u_sound true (some p) none e hx hy = tt
  mul_u_sound true (some (lo, hi)) (some (lo', hi')) e hx hy =
      rw
        (
          mod-eq_of_lt e,
          mod-eq_of_lt {n = lo * lo'} {m = 2 ^ bw}
              (omega (arith, e, mul_mono lo hi lo' hi' (omega (arith, hx)) (omega (arith, hy)))),
        )
        (mul_mono lo a lo' b hx.0 hy.0, mul_mono a hi b hi' hx.1 hy.1, e)

module _ (sw bw : ℕ) (a : ℕ) where
  pub zext_u_sound :
      (u s : Option Interval)
      → 0 < sw
      → sw ≤ bw
      → a < 2 ^ sw
      → InU sw u a
      → InS sw s a
      → InU bw (zext_u sw u s) a
  unfolding zext_u
  zext_u_sound (some (lo, hi)) s ps le ha hu hs = omega (arith, hu, pow_mono sw bw le)
  zext_u_sound none none ps le ha hu hs = tt
  zext_u_sound none (some (lo, hi)) ps le ha hu hs = elim (Bool-cases (is_negative sw lo)) [
    | inl n ↦ rw n tt
    | inr n ↦ rw n (
      ground (arith, pow-half sw ps),
      ground (arith, pow-half sw ps),
      omega (arith, hs, pow_mono sw bw le),
    )
  ]

  pub trunc_u_sound : (u : Option Interval) → InU sw u a → InU bw (trunc_u sw bw u) (a % 2 ^ bw)
  unfolding trunc_u
  trunc_u_sound none hu = tt
  trunc_u_sound (some (lo, hi)) hu = elim (Bool-cases (leb (active_bits sw hi) bw)) [
    | inr n ↦ rw n tt
    | inl n ↦
        let small : hi < 2 ^ bw =
          omega
            (arith, lt-active_bits sw hi hu.2, pow_mono (active_bits sw hi) bw (ground arith)) in
        rw
          (
            n,
            mod-eq_of_lt {n = lo} {m = 2 ^ bw} (omega (arith, small, hu)),
            mod-eq_of_lt {n = hi} {m = 2 ^ bw} small,
            mod-eq_of_lt {n = a} {m = 2 ^ bw} (omega (arith, small, hu)),
          )
          (hu.0, hu.1, small)
  ]
