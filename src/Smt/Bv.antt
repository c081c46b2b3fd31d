-- ===== src/Smt/Bv.antt =====
-- Values of bit-vector terms: the meaning of the solver's primitives at width `w`, as SMT-LIB
-- gives it, and the constants and casts of smt/expr.cpp.
use alive_next_deprecated.Prelude.{
  ℕ, ◌+◌, ◌-◌, ◌*◌, ◌/◌, ◌%◌, ◌^◌, bit_and, bit_or, bit_xor, Bool, ltb, leb, if◌then◌else◌,
}
use alive_next_deprecated.Prelude.Int.{ℤ, pos, negsuc}

-- The weight of the sign bit.
abbrev pub half : ℕ → ℕ
half w = 2 ^ (w - 1)

abbrev pub bvadd : ℕ → ℕ → ℕ → ℕ
bvadd w a b = (a + b) % 2 ^ w

abbrev pub bvsub : ℕ → ℕ → ℕ → ℕ
bvsub w a b = (a + (2 ^ w - b)) % 2 ^ w

abbrev pub bvneg : ℕ → ℕ → ℕ
bvneg w a = (2 ^ w - a) % 2 ^ w

abbrev pub bvmul : ℕ → ℕ → ℕ → ℕ
bvmul w a b = a * b % 2 ^ w

abbrev pub bvnot : ℕ → ℕ → ℕ
bvnot w a = 2 ^ w - 1 - a

abbrev pub bvult : ℕ → ℕ → Bool
bvult a b = ltb a b

abbrev pub bvule : ℕ → ℕ → Bool
bvule a b = leb a b

-- Flipping the sign bit turns the signed order into the unsigned one.
abbrev pub biased : ℕ → ℕ → ℕ
biased w a = if ltb a (half w) then a + half w else a - half w

abbrev pub bvslt : ℕ → ℕ → ℕ → Bool
bvslt w a b = ltb (biased w a) (biased w b)

abbrev pub bvsle : ℕ → ℕ → ℕ → Bool
bvsle w a b = leb (biased w a) (biased w b)

-- The bits `hi` down to `lo`.
abbrev pub extract : ℕ → ℕ → ℕ → ℕ
extract hi lo a = a / 2 ^ lo % 2 ^ (hi + 1 - lo)

-- `a` above `b`, where `b` has `wb` bits.
abbrev pub concat : ℕ → ℕ → ℕ → ℕ
concat wb a b = a * 2 ^ wb + b

-- `a << k` and `a >> k`; a shift by `w` or more leaves no bit, or copies of the sign.
abbrev pub bvshl : ℕ → ℕ → ℕ → ℕ
bvshl w a k = a * 2 ^ k % 2 ^ w

abbrev pub bvlshr : ℕ → ℕ → ℕ
bvlshr a k = a / 2 ^ k

abbrev pub bvashr : ℕ → ℕ → ℕ → ℕ
bvashr w a k = if ltb a (half w) then a / 2 ^ k else bvnot w (bvnot w a / 2 ^ k)

-- The integer that a bit pattern stands for in two's complement.
abbrev pub to_int : ℕ → ℕ → ℤ
to_int w a = if ltb a (half w) then pos a else negsuc (2 ^ w - a - 1)

abbrev pub int_smin : ℕ → ℕ
int_smin w = half w

abbrev pub int_smax : ℕ → ℕ
int_smax w = half w - 1

abbrev pub int_umax : ℕ → ℕ
int_umax w = 2 ^ w - 1

abbrev pub is_negative : ℕ → ℕ → Bool
is_negative w a = leb (half w) a

-- `zext` leaves the number as it is; `sext` fills `k` bits above with copies of the sign.
abbrev pub zext : ℕ → ℕ → ℕ
zext k a = a

abbrev pub sext : ℕ → ℕ → ℕ → ℕ
sext w k a = if ltb a (half w) then a else a + (2 ^ (w + k) - 2 ^ w)

abbrev pub trunc : ℕ → ℕ → ℕ
trunc k a = a % 2 ^ k

abbrev pub zext_or_trunc : ℕ → ℕ → ℕ → ℕ
zext_or_trunc w k a = if ltb w k then a else trunc k a

abbrev pub to_bv_bool : Bool → ℕ
to_bv_bool b = if b then 1 else 0

-- mkUInt keeps the low bits; mkInt (-1) is all ones.
abbrev pub mk_uint : ℕ → ℕ → ℕ
mk_uint w n = n % 2 ^ w

-- The bit `i` as a one-bit vector.
abbrev pub bit : ℕ → ℕ → ℕ
bit i a = a / 2 ^ i % 2

-- `&`, `|` and `^` act digit by digit and never leave the width of their operands.
abbrev pub bvand : ℕ → ℕ → ℕ
bvand a b = bit_and a b

abbrev pub bvor : ℕ → ℕ → ℕ
bvor a b = bit_or a b

abbrev pub bvxor : ℕ → ℕ → ℕ
bvxor a b = bit_xor a b
