-- ===== src/Smt/Overflow/Shift.antt =====
-- About expr::shl_no_uoverflow and expr::lshr_exact (smt/expr.cpp).
use native.Mathlib.Nat.{
  mod-eq_of_lt, mod-lt, div-lt_iff_lt-mul, mul-div_cancel, div-mul-le_self, div-add-mod',
}
use alive_next_deprecated.Prelude.{
  ℕ, ◌*◌, ◌/◌, ◌%◌, ◌^◌, ◌≤◌, ◌<◌, ◌≡◌, arith, ltb, ◌==◌, Bool-cases, inl, inr,
}
use alive_next_deprecated.Prelude.Pow.{pow-pos}
use alive_next_deprecated.Smt.Overflow.{shl_no_uoverflow, lshr_exact}

-- A quotient of a remainder is smaller than the dividend's when something was cut off.
div-mod-lt : (m p a : ℕ) → 0 < m → 0 < p → m ≤ a * p → a * p % m / p < a
div-mod-lt m p a hm hp h = (div-lt_iff_lt-mul hp).1 (omega (arith, mod-lt (a * p) hm))

-- shl_no_uoverflow holds exactly when the shifted value is below 2^w.
pub shl_no_uoverflow_lem : (w a b : ℕ) → shl_no_uoverflow w a b ≡ ltb (a * 2 ^ b) (2 ^ w)
unfolding shl_no_uoverflow
shl_no_uoverflow_lem w a b = elim (Bool-cases (ltb (a * 2 ^ b) (2 ^ w))) [
  | inl lt ↦
      rw (lt, mod-eq_of_lt {n = a * 2 ^ b} {m = 2 ^ w} (ground arith), mul-div_cancel a (pow-pos b))
        (ground arith)
  | inr ge ↦ rw ge (ground (arith, div-mod-lt (2 ^ w) (2 ^ b) a (pow-pos w) (pow-pos b)))
]

-- lshr_exact holds exactly when the bits that are shifted out are zero.
pub lshr_exact_lem : (w a b : ℕ) → a < 2 ^ w → lshr_exact w a b ≡ (a % 2 ^ b == 0)
unfolding lshr_exact
lshr_exact_lem w a b h =
    rw (mod-eq_of_lt {n = a / 2 ^ b * 2 ^ b} {m = 2 ^ w} (omega (arith, div-mul-le_self a (2 ^ b))))
      (ground (arith, div-add-mod' a (2 ^ b)))
