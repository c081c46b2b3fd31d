-- ===== src/Tests/Programs.antt =====
-- A small program for the test of computeRanges, and two verdicts for that of composeVerdicts.
use alive_next_deprecated.Prelude.{
  true, List, [], ◌∷◌, ◌==◌, if◌then◌else◌, get_or, ℕ, ◌≡◌, false, none, some,
}
use alive_next_deprecated.TvNext.Range.Defs.{RangeMap, Operand}
use alive_next_deprecated.TvNext.Range.Transfer.{BinOpcode, Opcode, Instruction}
use alive_next_deprecated.TvNext.Compose.{
  UnitVerdict, Status, every_passed, report, compose_verdicts, compose_verdicts_lem,
}
use alive_next_deprecated.Tests.Constants.{constants, some_within}

-- A shift, a remainder and a select of a first value: %1 = lshr %0, 3; %2 = urem %1, 7;
-- %3 = select %4, %2, %1.
abbrev binary : ℕ → BinOpcode → Operand → Operand → Instruction
binary id op a b = record { id = id; bit_width = some 8; opcode = Opcode.binary op false false a b }

abbrev select : Instruction
select = record {
  id = 3;
  bit_width = some 8;
  opcode = Opcode.select (Operand.value 4) (Operand.value 2) (Operand.value 1);
}

abbrev program : List Instruction
program =
    binary 1 BinOpcode.lshr (Operand.value 0) (Operand.constant 3)
    ∷ binary 2 BinOpcode.urem (Operand.value 1) (Operand.constant 7)
    ∷ select
    ∷ []

-- The run from 100, where the condition holds.
abbrev run : ℕ → ℕ
run n = get_or (100 ∷ 12 ∷ 5 ∷ 5 ∷ 1 ∷ []) n 0

abbrev width : ℕ → ℕ
width n = 8

abbrev seed : RangeMap constants
seed v = if v == 0 then some_within 95 105 else none

abbrev verdicts : List UnitVerdict
verdicts =
    record {
      name = "u0";
      passed = true;
      error_message = "";
      proposer_name = "";
      status = Status.correct;
    }
    ∷ record {
      name = "u1";
      passed = false;
      error_message = "bad";
      proposer_name = "";
      status = Status.unsound;
    }
    ∷ []

compose_verdicts_example : compose_verdicts verdicts 3 ≡ record {
  passed = every_passed verdicts;
  identical_positions = 3;
  verdicts = verdicts;
  error_message = report verdicts;
}
compose_verdicts_example = compose_verdicts_lem verdicts 3
