-- ===== src/TvNext/Sound/Intervals.antt =====
-- About the intervals of the bitwise operations, the divisions, lshr and select in transfer
-- (tv-next/range.cpp).
use native.Mathlib.Nat.{mod-lt, div-le_self, div-mul-le_self, le-div_iff_mul-le}
use alive_next_deprecated.Prelude.{
  ℕ, zero, suc, ◌+◌, ◌-◌, ◌/◌, ◌%◌, ◌^◌, ◌≤◌, ◌<◌, ◌≡◌, arith, true, ltb, ◌==◌, Option, none, some,
  Bool-cases, inl, inr, max, bit_and, bit_or,
}
use alive_next_deprecated.Prelude.Pow.{pow-pos, pow_mono}
use alive_next_deprecated.Prelude.Div.{mod_once}
use alive_next_deprecated.Prelude.Bits.{
  bit_and-le_left, bit_and-le_right, bit_or-le_left, bit_or-le_right, bit_or-lt,
}
use alive_next_deprecated.Smt.Bv.{bvlshr}
use alive_next_deprecated.TvNext.Range.Defs.{Interval, both}
use alive_next_deprecated.TvNext.Range.Bitwise.{masked_by, and_u, active_bits, or_u, urem_u, udiv_u}
use alive_next_deprecated.TvNext.Range.Shift.{lshr_u, map_ends}
use alive_next_deprecated.TvNext.Range.Cast.{hull_u, hull_s}
use alive_next_deprecated.TvNext.Sound.Claims.{InU, InS}

-- A smaller dividend over a larger divisor.
div_mono : (n m c d : ℕ) → n ≤ m → 0 < c → c ≤ d → n / d ≤ m / c
div_mono n m c d p q r = (le-div_iff_mul-le q).1 (grind (arith, div-mul-le_self n d))

active_bits-le : (k n : ℕ) → active_bits k n ≤ k
unfolding active_bits
active_bits-le zero n = omega arith
active_bits-le (suc k) n = ground (arith, active_bits-le k n)

pub lt-active_bits : (k n : ℕ) → n < 2 ^ k → n < 2 ^ active_bits k n
unfolding active_bits
lt-active_bits zero n h = h
lt-active_bits (suc k) n h = elim (Bool-cases (ltb n (2 ^ k))) [
  | inl c ↦ rw c (lt-active_bits k n (ground arith))
  | inr c ↦ rw c h
]

module _ (bw : ℕ) (a b : ℕ) where
  pub and_u_sound :
      (x y : Option Interval) → InU bw x a → InU bw y b → InU bw (and_u bw x y) (bit_and a b)
  unfolding and_u masked_by
  and_u_sound none none hx hy = tt
  and_u_sound none (some (lo, hi)) hx hy = ground (arith, bit_and-le_right a b)
  and_u_sound (some (lo, hi)) none hx hy = ground (arith, bit_and-le_left a b)
  and_u_sound (some (lo, hi)) (some (lo', hi')) hx hy =
      ground (arith, bit_and-le_right a b, bit_and-le_left a b)

  pub hull_u_left : (x y : Option Interval) → InU bw x a → InU bw y b → InU bw (hull_u x y) a
  unfolding hull_u
  hull_u_left none y hx hy = tt
  hull_u_left (some (lo, hi)) none hx hy = tt
  hull_u_left (some (lo, hi)) (some (lo', hi')) hx hy = ground arith

  pub hull_u_right : (x y : Option Interval) → InU bw x a → InU bw y b → InU bw (hull_u x y) b
  unfolding hull_u
  hull_u_right none y hx hy = tt
  hull_u_right (some (lo, hi)) none hx hy = tt
  hull_u_right (some (lo, hi)) (some (lo', hi')) hx hy = ground arith

  pub hull_s_left : (x y : Option Interval) → InS bw x a → InS bw y b → InS bw (hull_s bw x y) a
  unfolding hull_s
  hull_s_left none y hx hy = tt
  hull_s_left (some (lo, hi)) none hx hy = tt
  hull_s_left (some (lo, hi)) (some (lo', hi')) hx hy = ground arith

  pub hull_s_right : (x y : Option Interval) → InS bw x a → InS bw y b → InS bw (hull_s bw x y) b
  unfolding hull_s
  hull_s_right none y hx hy = tt
  hull_s_right (some (lo, hi)) none hx hy = tt
  hull_s_right (some (lo, hi)) (some (lo', hi')) hx hy = ground arith

  or_bound :
      (hi hi' : ℕ)
      → a ≤ hi
      → b ≤ hi'
      → hi < 2 ^ bw
      → hi' < 2 ^ bw
      → bit_or a b < 2 ^ max (active_bits bw hi) (active_bits bw hi')
  or_bound hi hi' p q h h' = bit_or-lt a b top (omega (arith, left, up)) (omega (arith, right, up'))
    where
      top : ℕ
      top = max (active_bits bw hi) (active_bits bw hi')

      left : hi < 2 ^ active_bits bw hi
      left = lt-active_bits bw hi h

      right : hi' < 2 ^ active_bits bw hi'
      right = lt-active_bits bw hi' h'

      up : 2 ^ active_bits bw hi ≤ 2 ^ top
      up = pow_mono (active_bits bw hi) top (omega arith)

      up' : 2 ^ active_bits bw hi' ≤ 2 ^ top
      up' = pow_mono (active_bits bw hi') top (omega arith)

  pub or_u_sound :
      (x y : Option Interval) → InU bw x a → InU bw y b → InU bw (or_u bw x y) (bit_or a b)
  unfolding or_u
  or_u_sound none y hx hy = tt
  or_u_sound (some p) none hx hy = tt
  or_u_sound (some (lo, hi)) (some (lo', hi')) hx hy = (
    ground (arith, bit_or-le_left a b, bit_or-le_right a b),
    omega (arith, or_bound hi hi' hx.1 hy.1 hx.2 hy.2),
    omega (
      arith,
      pow-pos (max (active_bits bw hi) (active_bits bw hi')),
      pow_mono (max (active_bits bw hi) (active_bits bw hi')) bw
          (omega (arith, active_bits-le bw hi, active_bits-le bw hi')),
    ),
  )

  remainder : 0 < b → a % b < b
  remainder h = mod-lt a h

  pub urem_u_sound : (y : Option Interval) → InU bw y b → InU bw (urem_u bw y) (a % b)
  unfolding urem_u
  urem_u_sound none hy = tt
  urem_u_sound (some (lo, hi)) hy = elim (Bool-cases (lo == 0)) [
    | inl z ↦ rw z tt
    | inr z ↦
        rw (z, mod_once (2 ^ bw) (hi + (2 ^ bw - 1)) (omega (arith, hy)))
          (ground (arith, remainder (ground arith)))
  ]

  pub udiv_u_sound : (x y : Option Interval) → InU bw x a → InU bw y b → InU bw (udiv_u x y) (a / b)
  unfolding udiv_u
  udiv_u_sound none y hx hy = tt
  udiv_u_sound (some p) none hx hy = tt
  udiv_u_sound (some (lo, hi)) (some (lo', hi')) hx hy = elim (Bool-cases (lo' == 0)) [
    | inl z ↦ rw z tt
    | inr z ↦ rw z (
      div_mono lo a b hi' hx.0 (ground arith) hy.1,
      div_mono a hi lo' b hx.1 (ground arith) hy.0,
      omega (arith, hx, div-le_self hi lo'),
    )
  ]

  lshr_constant :
      (c : ℕ) (x : Option Interval)
      → InU bw x a
      → InU bw (map_ends (λ (t : ℕ). bvlshr t c) x) (bvlshr a c)
  lshr_constant c none hx = tt
  lshr_constant c (some (lo, hi)) hx = (
    div_mono lo a (2 ^ c) (2 ^ c) hx.0 (pow-pos c) (omega arith),
    div_mono a hi (2 ^ c) (2 ^ c) hx.1 (pow-pos c) (omega arith),
    omega (arith, hx, div-le_self hi (2 ^ c)),
  )

  lshr_variable :
      (x y : Option Interval)
      → InU bw x a
      → InU bw y b
      → InU bw (both x y (λ (p q : Interval). some (bvlshr p.0 q.1, bvlshr p.1 q.0))) (bvlshr a b)
  lshr_variable none y hx hy = tt
  lshr_variable (some p) none hx hy = tt
  lshr_variable (some (lo, hi)) (some (lo', hi')) hx hy = (
    div_mono lo a (2 ^ b) (2 ^ hi') hx.0 (pow-pos b) (pow_mono b hi' hy.1),
    div_mono a hi (2 ^ lo') (2 ^ b) hx.1 (pow-pos lo') (pow_mono lo' b hy.0),
    omega (arith, hx, div-le_self hi (2 ^ lo')),
  )

  pub lshr_u_sound :
      (c : ℕ) (x y : Option Interval)
      → (ltb c bw ≡ true → b ≡ c)
      → InU bw x a
      → InU bw y b
      → InU bw (lshr_u bw c x y) (bvlshr a b)
  unfolding lshr_u
  lshr_u_sound c x y const hx hy = elim (Bool-cases (ltb c bw)) [
    | inl t ↦ rw (t, const t) (lshr_constant c x hx)
    | inr t ↦ rw t (lshr_variable x y hx hy)
  ]
