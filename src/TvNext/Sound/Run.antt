-- ===== src/TvNext/Sound/Run.antt =====
-- A run of a sequence of instructions in SSA form, and the map of ranges against its values.
use alive_next_deprecated.Prelude.{
  ℕ, ◌/◌, ◌%◌, ◌^◌, ◌≤◌, ◌<◌, ◌≡◌, ◌≢◌, Bool, none, some, List, [], ◌∷◌, bit_and, bit_or, bit_xor,
}
use alive_next_deprecated.Smt.Bv.{bvlshr}
use alive_next_deprecated.TvNext.KnownBits.{KnownBitsLib}
use alive_next_deprecated.TvNext.Range.Defs.{RangeMap, Operand}
use alive_next_deprecated.TvNext.Range.Transfer.{BinOpcode, CastOpcode, Opcode, Instruction}
use alive_next_deprecated.TvNext.Sound.Claims.{HoldsOpt}

-- A run in SSA form gives each id one value `env`, of the width `wd` of the id.
module _ (env wd : ℕ → ℕ) where
  abbrev pub value_of : Operand → ℕ
  value_of (Operand.constant n) = n
  value_of (Operand.value v) = env v

  -- The operand is an integer of the width.
  abbrev pub HasWidth : ℕ → Operand → Type 0
  HasWidth bw (Operand.constant n) = n < 2 ^ bw
  HasWidth bw (Operand.value v) = (wd v ≡ bw) × (env v < 2 ^ bw)

  -- The results that are neither undef nor poison, of the opcodes whose entries are claimed here.
  pub data Computes (bw : ℕ) : Opcode → ℕ → Type 0 where
    and :
        {m n : Bool} {a b : Operand}
        → HasWidth bw a
        → HasWidth bw b
        → Computes bw (Opcode.binary BinOpcode.and m n a b) (bit_and (value_of a) (value_of b))
    or :
        {m n : Bool} {a b : Operand}
        → HasWidth bw a
        → HasWidth bw b
        → Computes bw (Opcode.binary BinOpcode.or m n a b) (bit_or (value_of a) (value_of b))
    xor :
        {m n : Bool} {a b : Operand}
        → HasWidth bw a
        → HasWidth bw b
        → Computes bw (Opcode.binary BinOpcode.xor m n a b) (bit_xor (value_of a) (value_of b))
    urem :
        {m n : Bool} {a b : Operand}
        → HasWidth bw a
        → HasWidth bw b
        → value_of b ≢ 0
        → Computes bw (Opcode.binary BinOpcode.urem m n a b) (value_of a % value_of b)
    udiv :
        {m n : Bool} {a b : Operand}
        → HasWidth bw a
        → HasWidth bw b
        → value_of b ≢ 0
        → Computes bw (Opcode.binary BinOpcode.udiv m n a b) (value_of a / value_of b)
    lshr :
        {m n : Bool} {a b : Operand}
        → HasWidth bw a
        → HasWidth bw b
        → value_of b < bw
        → Computes bw (Opcode.binary BinOpcode.lshr m n a b) (bvlshr (value_of a) (value_of b))
    select_true :
        {c a b : Operand}
        → HasWidth bw a
        → HasWidth bw b
        → value_of c ≡ 1
        → Computes bw (Opcode.select c a b) (value_of a)
    select_false :
        {c a b : Operand}
        → HasWidth bw a
        → HasWidth bw b
        → value_of c ≡ 0
        → Computes bw (Opcode.select c a b) (value_of b)
    zext :
        {sw : ℕ} {a : Operand}
        → 0 < sw
        → sw ≤ bw
        → HasWidth sw a
        → Computes bw (Opcode.cast CastOpcode.zext sw a) (value_of a)
    trunc :
        {sw : ℕ} {a : Operand}
        → 0 < sw
        → bw ≤ sw
        → HasWidth sw a
        → Computes bw (Opcode.cast CastOpcode.trunc sw a) (value_of a % 2 ^ bw)
    other : {r : ℕ} → Computes bw Opcode.other r

  pub data Executes (i : Instruction) : Type 0 where
    no_integer : i.bit_width ≡ none → Executes i
    integer :
        i.bit_width ≡ some (wd i.id)
        → 0 < wd i.id
        → Computes (wd i.id) i.opcode (env i.id)
        → Executes i

  pub data AllExecute : List Instruction → Type 0 where
    done : AllExecute []
    step :
        {i : Instruction} {is : List Instruction} → Executes i → AllExecute is → AllExecute (i ∷ is)

  -- Each entry is true of the value of its id.
  abbrev pub MapHolds : (l : KnownBitsLib) → RangeMap l → Type 0
  MapHolds l map = (v : ℕ) → HoldsOpt l (wd v) (map v) (env v)
