-- ===== src/TvNext/Range/Transfer.antt =====
-- tv-next/range.cpp: transfer, by opcode, and computeRanges over a sequence of instructions.
use alive_next_deprecated.Prelude.{ℕ, Bool, ◌==◌, Option, none, some, List, [], ◌∷◌, if◌then◌else◌}
use alive_next_deprecated.TvNext.KnownBits.{KnownBitsLib}
use alive_next_deprecated.TvNext.Range.Defs.{
  Range, RangeMap, Operand, known_bits_of, range_of, shift_in_range,
}
use alive_next_deprecated.TvNext.Range.Bitwise
use alive_next_deprecated.TvNext.Range.Shift
use alive_next_deprecated.TvNext.Range.Arith
use alive_next_deprecated.TvNext.Range.Cast

pub data BinOpcode : Type 0 where
  and or xor urem udiv lshr ashr shl add sub mul other_bin : BinOpcode

pub data CastOpcode : Type 0 where
  zext sext trunc other_cast : CastOpcode

pub data Opcode : Type 0 where
  select : Operand → Operand → Operand → Opcode
  freeze : Operand → Opcode
  -- With nuw and nsw.
  binary : BinOpcode → Bool → Bool → Operand → Operand → Opcode
  -- With the width of the operand.
  cast : CastOpcode → ℕ → Operand → Opcode
  other : Opcode

-- An instruction with its id and the width of its result, where that is an integer.
pub record Instruction : Type 0 where
  pub id : ℕ
  pub bit_width : Option ℕ
  pub opcode : Opcode

module _ (l : KnownBitsLib) where
  unfoldable pub transfer_binary :
      BinOpcode → Bool → Bool → ℕ → Operand → Operand → RangeMap l → Option (Range l)
  unfolding known_bits_of range_of shift_in_range
  transfer_binary op nuw nsw bw a b map =
      let x = range_of l bw a map in
      let y = range_of l bw b map in
      let kx = known_bits_of l bw a map in
      let ky = known_bits_of l bw b map in
      let amount = shift_in_range l b bw y in
      elim op [
        | and ↦ Bitwise.transfer_and l bw x y kx ky
        | or ↦ Bitwise.transfer_or l bw x y kx ky
        | xor ↦ Bitwise.transfer_xor l bw x y kx ky
        | urem ↦ Bitwise.transfer_urem l bw x y kx ky
        | udiv ↦ Bitwise.transfer_udiv l bw x y kx ky
        | lshr ↦ Shift.transfer_lshr l bw amount x y kx ky
        | ashr ↦ Shift.transfer_ashr l bw amount x y kx ky
        | shl ↦ Shift.transfer_shl l bw amount nuw nsw x y kx ky
        | add ↦ Arith.transfer_add l bw nuw nsw x y kx ky
        | sub ↦ Arith.transfer_sub l bw nuw nsw x y kx ky
        | mul ↦ Arith.transfer_mul l bw nuw nsw x y kx ky
        | other_bin ↦ none
      ]

  unfoldable pub transfer_cast : CastOpcode → ℕ → ℕ → Operand → RangeMap l → Option (Range l)
  unfolding known_bits_of range_of
  transfer_cast op sw bw a map =
      let x = range_of l sw a map in
      let k = known_bits_of l sw a map in
      elim op [
        | zext ↦ Cast.transfer_zext l sw bw x k
        | sext ↦ Cast.transfer_sext l sw bw x k
        | trunc ↦ Cast.transfer_trunc l sw bw x k
        | other_cast ↦ none
      ]

  -- The condition of a select has width 1.
  unfoldable pub transfer_opcode : Opcode → ℕ → RangeMap l → Option (Range l)
  unfolding transfer_binary transfer_cast
  transfer_opcode (select c t f) bw map =
      Cast.transfer_select l bw (range_of l 1 c map) (range_of l bw t map) (range_of l bw f map)
        (known_bits_of l bw t map) (known_bits_of l bw f map)
  transfer_opcode (freeze a) bw map = Cast.transfer_freeze l bw (range_of l bw a map)
  transfer_opcode (binary op nuw nsw a b) bw map = transfer_binary op nuw nsw bw a b map
  transfer_opcode (cast op sw a) bw map = transfer_cast op sw bw a map
  transfer_opcode other bw map = none

  unfoldable pub transfer : Instruction → RangeMap l → Option (Range l)
  unfolding transfer_opcode
  transfer i map = elim i.bit_width [ none ↦ none | some bw ↦ transfer_opcode i.opcode bw map ]

  -- `if (r) map[I] = *r`
  unfoldable pub update : RangeMap l → ℕ → Option (Range l) → RangeMap l
  update map id none v = map v
  update map id (some r) v = if v == id then some r else map v

  unfoldable pub compute_ranges : List Instruction → RangeMap l → RangeMap l
  unfolding transfer update
  compute_ranges [] map = map
  compute_ranges (i ∷ is) map = compute_ranges is (update map i.id (transfer i map))
