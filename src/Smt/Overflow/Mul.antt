-- ===== src/Smt/Overflow/Mul.antt =====
-- About expr::mul_no_uoverflow (smt/expr.cpp), against the exact product.
use alive_next_deprecated.Prelude.{
  ℕ, ◌+◌, ◌-◌, ◌*◌, ◌/◌, ◌%◌, ◌^◌, ◌≤◌, ◌<◌, ◌≡◌, arith, ltb, ◌==◌, ap, ◌∙◌, Bool-cases, inl, inr,
}
use native.Mathlib.Nat.{mod-eq_of_lt, div-lt_iff_lt-mul, div-eq_of_lt, le-div_iff_mul-le}
use alive_next_deprecated.Prelude.Pow.{pow-add, pow-pos}
use alive_next_deprecated.Smt.Bv.{extract}
use alive_next_deprecated.Smt.Overflow.{mul_no_uoverflow}

div-ne-zero : (m x : ℕ) → 0 < m → m ≤ x → 0 < x / m
div-ne-zero m x p h = (le-div_iff_mul-le p).1 (omega arith)

pub upper_zero : (t x : ℕ) → (x / 2 ^ t == 0) ≡ ltb x (2 ^ t)
upper_zero t x = elim (Bool-cases (ltb x (2 ^ t))) [
  | inl lt ↦ rw (lt, div-eq_of_lt {n = x} {m = 2 ^ t} (ground arith))
  | inr ge ↦ rw ge (ground (arith, div-ne-zero (2 ^ t) x (pow-pos t)))
]

-- The upper half of a wide value is zero exactly when the value fits the lower half.
pub extract-upper :
    (w x : ℕ) → 0 < w → x < 2 ^ (w + w) → (extract (2 * w - 1) w x == 0) ≡ ltb x (2 ^ w)
extract-upper w x pw h =
    ap (λ (t : ℕ). (x / 2 ^ w % 2 ^ t) == 0) {x = 2 * w - 1 + 1 - w} {y = w} (omega arith)
    ∙ rw (mod-eq_of_lt small) (upper_zero w x)
  where
    small : x / 2 ^ w < 2 ^ w
    small = (div-lt_iff_lt-mul (pow-pos w)).1 (omega (arith, pow-add w w))

pub product_lt : (m a b : ℕ) → a < m → b < m → a * b < m * m
product_lt m a b p q = grind arith

-- mul_no_uoverflow holds exactly when the product is below 2^w.
pub mul_no_uoverflow_lem :
    (w a b : ℕ) → 0 < w → a < 2 ^ w → b < 2 ^ w → mul_no_uoverflow w a b ≡ ltb (a * b) (2 ^ w)
unfolding mul_no_uoverflow
mul_no_uoverflow_lem w a b pw ha hb =
    rw (mod-eq_of_lt {n = a * b} {m = 2 ^ (w + w)} fits) (extract-upper w (a * b) pw fits)
  where
    fits : a * b < 2 ^ (w + w)
    fits = rw (pow-add w w) (product_lt (2 ^ w) a b ha hb)
