-- ===== src/Smt/Divide/Laws.antt =====
-- About expr::sdiv to expr::urem (smt/expr.cpp), against the operations of SMT-LIB.
use native.Mathlib.Nat.{mod-eq_of_lt}
use alive_next_deprecated.Prelude.{
  ℕ, ◌-◌, ◌/◌, ◌%◌, ◌^◌, ◌<◌, ◌≡◌, arith, ◌≢◌, true, some, Option-cases, inl, inr, Bool-cases, sym,
  ◌∙◌, ◌&&◌, if◌then◌else◌,
}
use alive_next_deprecated.Prelude.Pow.{pow-half, pow-pos}
use alive_next_deprecated.Prelude.Div.{div_unique, mod_unique}
use alive_next_deprecated.Smt.Bv.{half, int_umax, int_smin, bvneg, mk_uint}
use alive_next_deprecated.Smt.Divide.{
  DivSyntax, bvsdiv, magnitude, bvsrem, sdiv, udiv, urem, srem, urem_step, urem_const,
}

-- What the syntax says of the operands is true of their values.
pub record AgreesWith (w : ℕ) (s : DivSyntax) (a b : ℕ) : Type 0 where
  pub same : s.same ≡ true → a ≡ b
  pub lhs_zero : s.lhs_zero ≡ true → a ≡ 0
  pub lhs_smin : s.lhs_smin ≡ true → a ≡ int_smin w
  pub rhs_zero : s.rhs_zero ≡ true → b ≡ 0
  pub rhs_one : s.rhs_one ≡ true → b ≡ 1
  pub rhs_all_ones : s.rhs_all_ones ≡ true → b ≡ int_umax w
  pub non_negative : s.non_negative ≡ true → (a < half w) × (b < half w)
  pub rhs_const : (n : ℕ) → s.rhs_const ≡ some n → b ≡ n
  pub rhs_log : (k n : ℕ) → s.rhs_log ≡ some k → s.rhs_const ≡ some n → n ≡ 2 ^ k

-- The quotients and remainders that the shortcuts name.
self_div : (b : ℕ) → b ≢ 0 → b / b ≡ 1
self_div b nz = div_unique b b 1 0 (omega arith) (omega arith)

self_mod : (b : ℕ) → b ≢ 0 → b % b ≡ 0
self_mod b nz = mod_unique b b 1 0 (omega arith) (omega arith)

zero_div : (b : ℕ) → b ≢ 0 → 0 / b ≡ 0
zero_div b nz = div_unique b 0 0 0 (omega arith) (omega arith)

zero_mod : (b : ℕ) → b ≢ 0 → 0 % b ≡ 0
zero_mod b nz = mod_unique b 0 0 0 (omega arith) (omega arith)

one_fits : (w : ℕ) → 0 < w → 1 < 2 ^ w
one_fits w pw = omega (arith, pow-half w pw, pow-pos (w - 1))

module _ (w : ℕ) (pw : 0 < w) {s : DivSyntax} {a b : ℕ} (ok : AgreesWith w s a b) (ha : a < 2 ^ w)
    (hb : b < 2 ^ w) (nz : b ≢ 0) where
  -- udiv is the quotient for every non-zero divisor.
  pub udiv_lem : udiv w s a b ≡ a / b
  unfolding udiv
  udiv_lem = ground (
    arith,
    ok.same,
    ok.lhs_zero,
    ok.rhs_zero,
    ok.rhs_one,
    mod-eq_of_lt (one_fits w pw),
    self_div b nz,
    zero_div b nz,
  )

  mk_zero : 0 % 2 ^ w ≡ 0
  mk_zero = mod-eq_of_lt (pow-pos w)

  urem_const_lem : (n : ℕ) → s.rhs_const ≡ some n → urem_const w s a b s.rhs_log n ≡ a % b
  unfolding urem_const
  urem_const_lem n e = elim (Option-cases s.rhs_log) [
    | inl o ↦ rw o (ground (arith, ok.rhs_const n, mk_zero))
    | inr (k, o) ↦ rw o (ground (arith, ok.rhs_const n, ok.rhs_log k n, mk_zero))
  ]

  urem_step_lem : urem_step w s a b s.rhs_const ≡ a % b
  unfolding urem_step
  urem_step_lem = elim (Option-cases s.rhs_const) [
    | inl e ↦ rw e (ground arith)
    | inr (n, e) ↦ rw (e, urem_step) (urem_const_lem n e)
  ]

  -- urem is the remainder for every non-zero divisor.
  pub urem_lem : urem w s a b ≡ a % b
  unfolding urem
  urem_lem =
      ground (arith, ok.same, ok.lhs_zero, mk_zero, self_mod b nz, zero_mod b nz, urem_step_lem)

  neg_lem : (x : ℕ) → 0 < x → x < 2 ^ w → bvneg w x ≡ 2 ^ w - x
  neg_lem x p h = mod-eq_of_lt (omega arith)

  magnitude-ne-zero : magnitude w b ≢ 0
  magnitude-ne-zero = ground (arith, neg_lem b)

  bvneg-zero : bvneg w 0 ≡ 0
  bvneg-zero = mod_unique (2 ^ w) _ 1 0 (pow-pos w) (omega arith)

  bvsdiv_self : bvsdiv w b b ≡ 1
  bvsdiv_self = ground (arith, self_div (magnitude w b) magnitude-ne-zero, magnitude-ne-zero)

  bvsdiv_zero : bvsdiv w 0 b ≡ 0
  bvsdiv_zero = ground (
    arith,
    zero_div (magnitude w b) magnitude-ne-zero,
    magnitude-ne-zero,
    pow-pos (w - 1),
    bvneg-zero,
  )

  bvsdiv_one : b ≡ 1 → ¬ ((a ≡ int_smin w) × (b ≡ int_umax w)) → bvsdiv w a b ≡ a
  bvsdiv_one e ne =
      ground (arith, pow-half w pw, pow-pos (w - 1), neg_lem a, neg_lem (2 ^ w - a), neg_lem b)

  not_overflowing :
      ¬ ((a ≡ int_smin w) × (b ≡ int_umax w))
      → (if s.lhs_smin && s.rhs_all_ones then mk_uint w 0 else bvsdiv w a b) ≡ bvsdiv w a b
  not_overflowing ne = elim (Bool-cases (s.lhs_smin && s.rhs_all_ones)) [
    | inl c ↦ absurd (ne (ground (arith, ok.lhs_smin), ground (arith, ok.rhs_all_ones)))
    | inr c ↦ rw c
  ]

  -- sdiv is SMT-LIB's bvsdiv, unless the divisor is 0 or the quotient overflows.
  pub sdiv_lem : ¬ ((a ≡ int_smin w) × (b ≡ int_umax w)) → sdiv w s a b ≡ bvsdiv w a b
  unfolding sdiv
  sdiv_lem ne = elim (Bool-cases s.same) [
    | inl c ↦ rw (c, ok.same c) (mod-eq_of_lt (one_fits w pw) ∙ sym bvsdiv_self)
    | inr c ↦ rw c (elim (Bool-cases s.rhs_zero) [
      | inl z ↦ absurd (nz (ok.rhs_zero z))
      | inr z ↦ rw z (elim (Bool-cases s.lhs_zero) [
        | inl d ↦ rw (d, ok.lhs_zero d) (sym bvsdiv_zero)
        | inr d ↦ rw d (elim (Bool-cases s.rhs_one) [
          | inl u ↦ rw u (sym (bvsdiv_one (ok.rhs_one u) ne))
          | inr u ↦ rw u (not_overflowing ne)
        ])
      ])
    ])
  ]

  bvsrem_same : a ≡ b → bvsrem w a b ≡ 0
  bvsrem_same e =
      rw e
        (ground (arith, self_mod (magnitude w b) magnitude-ne-zero, magnitude-ne-zero, bvneg-zero))

  bvsrem_zero : bvsrem w 0 b ≡ 0
  bvsrem_zero =
      ground (arith, zero_mod (magnitude w b) magnitude-ne-zero, magnitude-ne-zero, pow-pos (w - 1))

  bvsrem_overflow : b ≡ int_umax w → bvsrem w a b ≡ 0
  bvsrem_overflow e = ground (arith, neg_lem b, pow-half w pw, bvneg-zero)

  bvsrem_positive : a < half w → b < half w → bvsrem w a b ≡ a % b
  bvsrem_positive p q = ground arith

  -- srem is SMT-LIB's bvsrem for every non-zero divisor.
  pub srem_lem : srem w s a b ≡ bvsrem w a b
  unfolding srem
  srem_lem = rw urem_lem (elim (Bool-cases s.same) [
    | inl c ↦ rw c (mk_zero ∙ sym (bvsrem_same (ok.same c)))
    | inr c ↦ rw c (elim (Bool-cases s.lhs_zero) [
      | inl d ↦ rw (d, ok.lhs_zero d) (mk_zero ∙ sym bvsrem_zero)
      | inr d ↦ rw d (elim (Bool-cases (s.lhs_smin && s.rhs_all_ones)) [
        | inl o ↦ rw o (mk_zero ∙ sym (bvsrem_overflow (ground (arith, ok.rhs_all_ones))))
        | inr o ↦ rw o (elim (Bool-cases s.rhs_zero) [
          | inl z ↦ absurd (nz (ok.rhs_zero z))
          | inr z ↦ rw z (elim (Bool-cases s.non_negative) [
            | inl n ↦ rw n (sym (bvsrem_positive (ok.non_negative n).0 (ok.non_negative n).1))
            | inr n ↦ rw n
          ])
        ])
      ])
    ])
  ])
