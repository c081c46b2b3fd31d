-- ===== src/Smt/Order/Laws.antt =====
-- About expr::smin, expr::smax and expr::abs (smt/expr.cpp), on the signed values.
use alive_next_deprecated.Prelude.{
  ℕ, zero, suc, ◌+◌, ◌-◌, ◌*◌, ◌%◌, ◌^◌, ◌<◌, ◌≡◌, arith, if◌then◌else◌, ap, ◌∙◌,
}
use alive_next_deprecated.Prelude.Int.{ℤ, pos, negsuc, leb_ℤ}
use alive_next_deprecated.Prelude.Pow.{pow-half, pow-pos}
use alive_next_deprecated.Prelude.Div.{mod_unique}
use alive_next_deprecated.Smt.Bv.{to_int}
use alive_next_deprecated.Smt.Order.{smin, smax, abs}

abbrev pub min_ℤ : ℤ → ℤ → ℤ
min_ℤ a b = if leb_ℤ a b then a else b

abbrev pub max_ℤ : ℤ → ℤ → ℤ
max_ℤ a b = if leb_ℤ b a then a else b

abbrev pub abs_ℤ : ℤ → ℕ
abs_ℤ (pos n) = n
abs_ℤ (negsuc n) = n + 1

-- Multiplying by all ones negates: x * (m - 1) = -x modulo m.
ones_product : (m x : ℕ) → 0 < x → x < m → (m - 1) * x ≡ m * (x - 1) + (m - x)
ones_product zero x p h = elim h [ ]
ones_product (suc n) zero p h = elim p [ ]
ones_product (suc n) (suc y) p h =
    ap (λ (t : ℕ). t * suc y) {x = suc n - 1} {y = n} (omega arith)
    ∙ omega (arith, ap (λ (t : ℕ). suc n * t) {x = suc y - 1} {y = y} (omega arith))

mul_ones : (m x : ℕ) → 0 < x → x < m → (m - 1) * x % m ≡ m - x
mul_ones m x p h = mod_unique m _ (x - 1) (m - x) (omega arith) (ones_product m x p h)

module _ (w : ℕ) (pw : 0 < w) {a b : ℕ} (ha : a < 2 ^ w) (hb : b < 2 ^ w) where
  -- For operands of the width, smin and smax are the smaller and the larger signed value.
  pub smin-smax :
      (to_int w (smin w a b) ≡ min_ℤ (to_int w a) (to_int w b))
      × (to_int w (smax w a b) ≡ max_ℤ (to_int w a) (to_int w b))
  unfolding smin smax
  smin-smax = ground (arith, pow-half w pw)

  -- For an operand of the width, abs is the absolute value of the signed value, also for the least
  -- one.
  pub abs_lem : abs w a ≡ abs_ℤ (to_int w a)
  unfolding abs
  abs_lem = ground (arith, pow-half w pw, pow-pos (w - 1), mul_ones (2 ^ w) a)
