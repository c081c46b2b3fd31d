-- ===== src/Tests/Arith.antt =====
-- Inputs for the tests of util/compiler.cpp and of the operations of smt/expr.cpp.
use alive_next_deprecated.Prelude.{ℕ, ◌+◌, ◌%◌, ◌^◌, ◌<◌, ◌≤◌, ◌≡◌, arith, true, false}
use alive_next_deprecated.Prelude.Int.{◌+ℤ◌}
use alive_next_deprecated.Smt.Bv.{to_int}
use alive_next_deprecated.Smt.Overflow.{Syntax}
use alive_next_deprecated.Smt.Overflow.Add.{Describes}
use alive_next_deprecated.Smt.Saturate.{sadd_sat}
use alive_next_deprecated.Smt.Saturate.Range.{clamp_signed, sadd_sat_lem}
use alive_next_deprecated.Util.Compiler.{ilog2, round_up}
use alive_next_deprecated.Util.Compiler.Laws.{round_up_lem, ilog2_lem}

-- A term of which the syntax says nothing.
abbrev pub plain : Syntax
plain = record { is_const = false; min_leading_zeros = 0 }

pub plain-Describes : (w a : ℕ) → a < 2 ^ w → Describes w plain a
plain-Describes w a h = record {
  in_range = h;
  one_zero = λ z. absurd (omega arith);
  two_zeros = λ z. absurd (omega arith);
}

-- The constant 100, in which the code sees a leading zero.
abbrev pub hundred : Syntax
hundred = record { is_const = true; min_leading_zeros = 1 }

pub hundred-Describes : Describes 8 hundred 100
hundred-Describes = record {
  in_range = omega arith;
  one_zero = λ z. omega arith;
  two_zeros = λ z. absurd (omega arith);
}

sadd_sat_example : to_int 8 (sadd_sat 8 100 90) ≡ clamp_signed 8 (to_int 8 100 +ℤ to_int 8 90)
sadd_sat_example = sadd_sat_lem 8 (omega arith) {a = 100} {b = 90} (omega arith) (omega arith)

round_up_example : (round_up 13 8 % 8 ≡ 0) × (13 ≤ round_up 13 8) × (round_up 13 8 < 13 + 8)
round_up_example = round_up_lem 13 8 (omega arith) (omega arith)

ilog2_example : (2 ^ ilog2 1000 ≤ 1000) × (1000 < 2 ^ (ilog2 1000 + 1))
ilog2_example = ilog2_lem 1000 (omega arith) (omega arith)
