-- ===== src/Smt/Count/Ones.antt =====
-- About expr::ctpop (smt/expr.cpp), against the number of ones.
use native.Mathlib.Nat.{mod-eq_of_lt}
use alive_next_deprecated.Prelude.{ℕ, zero, suc, ◌+◌, ◌^◌, ◌≤◌, ◌≡◌, arith}
use alive_next_deprecated.Prelude.Pow.{lt-pow, pow-pos}
use alive_next_deprecated.Smt.Bv.{bit}
use alive_next_deprecated.Smt.Count.{ctpop, ctpop_loop}

-- The ones among the lowest `n` bits.
abbrev pub ones : ℕ → ℕ → ℕ
ones zero a = 0
ones (suc n) a = ones n a + bit n a

ones-le : (n a : ℕ) → ones n a ≤ n
ones-le zero a = omega arith
ones-le (suc n) a = omega (arith, ones-le n a)

ctpop_loop-eq-ones : (w a n : ℕ) → n ≤ w → ctpop_loop w a n ≡ ones n a
unfolding ctpop_loop
ctpop_loop-eq-ones w a zero h = mod-eq_of_lt {n = 0} {m = 2 ^ w} (pow-pos w)
ctpop_loop-eq-ones w a (suc n) h =
    rw (ctpop_loop-eq-ones w a n (omega arith))
      (mod-eq_of_lt (omega (arith, ones-le (suc n) a, lt-pow w)))

-- ctpop counts the ones of the value, at every width.
pub ctpop-eq-ones : (w a : ℕ) → ctpop w a ≡ ones w a
unfolding ctpop
ctpop-eq-ones w a = ctpop_loop-eq-ones w a w (omega arith)
