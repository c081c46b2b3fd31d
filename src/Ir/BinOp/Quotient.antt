-- ===== src/Ir/BinOp/Quotient.antt =====
-- About div_ub (ir/instr.cpp), against the exact signed quotient.
use native.Mathlib.Nat.{div-le_self, div-mul-le_self, div-one}
use alive_next_deprecated.Prelude.{
  ℕ, suc, ◌-◌, ◌/◌, ◌^◌, ◌<◌, ◌≤◌, ◌≡◌, ◌≢◌, ap, ◌∙◌, arith, Bool, true, false, ◌&&◌, not, ltb,
  ◌==◌, Bool-cases, inl, inr,
}
use alive_next_deprecated.Prelude.Pow.{pow-half, pow-pos}
use alive_next_deprecated.Prelude.Int.{quot, pos, sub_ℕ}
use alive_next_deprecated.Smt.Bv.{to_int, int_smin, int_umax, half}
use alive_next_deprecated.Smt.Overflow.Add.{fits_signed}

-- A quotient by two or more is smaller than a dividend that is not 0.
div_small : (x y h : ℕ) → 2 ≤ y → x ≤ h → 0 < h → x / y < h
div_small x y h p q r = grind (arith, div-mul-le_self x y)

module _ (w : ℕ) (pw : 0 < w) where
  fits-pos : (q : ℕ) → fits_signed w (pos q) ≡ ltb q (half w)
  fits-pos q = ground (arith, pow-pos (w - 1))

  fits-neg : (q : ℕ) → q ≤ half w → fits_signed w (sub_ℕ 0 q) ≡ true
  fits-neg q h = ground (arith, pow-pos (w - 1))

  module _ (a b : ℕ) (ha : a < 2 ^ w) (hb : b < 2 ^ w) where
    abbrev least_by_minus_one : Bool
    least_by_minus_one = (a == int_smin w) && (b == int_umax w)

    both_negative :
        ltb a (half w) ≡ false
        → ltb b (half w) ≡ false
        → ltb (suc (2 ^ w - a - 1) / suc (2 ^ w - b - 1)) (half w) ≡ not least_by_minus_one
    both_negative p q = elim (Bool-cases (b == int_umax w)) [
      | inl e ↦
          let one : suc (2 ^ w - b - 1) ≡ 1 = ground arith in
          let same : suc (2 ^ w - a - 1) / suc (2 ^ w - b - 1) ≡ suc (2 ^ w - a - 1) =
            ap (λ k. suc (2 ^ w - a - 1) / k) one ∙ div-one (suc (2 ^ w - a - 1)) in
          ground (arith, same, pow-half w pw)
      | inr e ↦
          let small : suc (2 ^ w - a - 1) / suc (2 ^ w - b - 1) < half w =
            div_small (suc (2 ^ w - a - 1)) (suc (2 ^ w - b - 1)) (half w) (ground arith)
              (ground (arith, pow-half w pw)) (pow-pos (w - 1)) in
          ground arith
    ]

    -- The exact quotient of the signed values fits the width but for the least value by -1.
    pub quot-fits : b ≢ 0 → fits_signed w (quot (to_int w a) (to_int w b)) ≡ not least_by_minus_one
    quot-fits nz = elim (Bool-cases (ltb a (half w))) [
      | inl p ↦ elim (Bool-cases (ltb b (half w))) [
        | inl q ↦ rw (p, q, fits-pos (a / b)) (ground (arith, div-le_self a b))
        | inr q ↦
            let y : ℕ = suc (2 ^ w - b - 1) in
            rw (p, q, fits-neg (a / y) (ground (arith, div-le_self a y))) (ground arith)
      ]
      | inr p ↦ elim (Bool-cases (ltb b (half w))) [
        | inl q ↦
            let x : ℕ = suc (2 ^ w - a - 1) in
            rw (p, q, fits-neg (x / b) (ground (arith, div-le_self x b, pow-half w pw)))
              (ground (arith, pow-half w pw, pow-pos (w - 1)))
        | inr q ↦
            rw (p, q, fits-pos (suc (2 ^ w - a - 1) / suc (2 ^ w - b - 1))) (both_negative p q)
      ]
    ]
