-- ===== src/Smt/Count.antt =====
-- smt/expr.cpp: isPowerOf2 to pdep, the operations that go through the bits of a value.
--
-- A loop over the bits is a recursion on the rounds; each is a function of its own.
pub mod Ones
pub mod Position
use alive_next_deprecated.Prelude.{
  ℕ, zero, suc, ◌+◌, ◌-◌, ◌*◌, ◌/◌, ◌%◌, ◌^◌, Bool, ◌&&◌, not, ltb, ◌==◌, if◌then◌else◌,
}
use alive_next_deprecated.Smt.Bv.{
  bvadd, bvsub, bvand, bvor, bvxor, bvshl, bvlshr, concat, extract, sext, zext, bit, mk_uint,
}

unfoldable pub is_power_of2 : ℕ → ℕ → Bool
is_power_of2 w a = not (a == 0) && (bvand a (bvsub w a (mk_uint w 1)) == 0)

unfoldable pub log2_rec : ℕ → ℕ → ℕ → ℕ
log2_rec e zero bw = mk_uint bw 0
log2_rec e (suc idx) bw = if bit (suc idx) e == 1 then mk_uint bw (suc idx) else log2_rec e idx bw

unfoldable pub log2 : ℕ → ℕ → ℕ → ℕ
unfolding log2_rec
log2 w a bw_output = log2_rec a (w - 1) bw_output

-- After the bytes 0 to `i` are joined, the lowest on top.
bswap_loop : ℕ → ℕ → ℕ
bswap_loop a zero = extract 7 0 a
bswap_loop a (suc i) = concat 8 (bswap_loop a i) (extract ((suc i + 1) * 8 - 1) (suc i * 8) a)

unfoldable pub bswap : ℕ → ℕ → ℕ
unfolding bswap_loop
bswap w a = bswap_loop a (w / 8 - 1)

bitreverse_loop : ℕ → ℕ → ℕ
bitreverse_loop a zero = bit 0 a
bitreverse_loop a (suc i) = concat 1 (bitreverse_loop a i) (bit (suc i) a)

unfoldable pub bitreverse : ℕ → ℕ → ℕ
unfolding bitreverse_loop
bitreverse w a = bitreverse_loop a (w - 1)

-- The rounds `i - 1` down to 0.
unfoldable pub cttz_loop : ℕ → ℕ → ℕ → ℕ → ℕ
cttz_loop w a zero cond = cond
cttz_loop w a (suc i) cond = cttz_loop w a i (if bit i a == 1 then mk_uint w i else cond)

unfoldable pub cttz : ℕ → ℕ → ℕ → ℕ
unfolding cttz_loop
cttz w a val_zero = cttz_loop w a w val_zero

-- The value of `cond` after the rounds 0 to `i - 1`.
unfoldable pub ctlz_loop : ℕ → ℕ → ℕ → ℕ
ctlz_loop w a zero = mk_uint w w
ctlz_loop w a (suc i) = if bit i a == 1 then mk_uint w (w - 1 - i) else ctlz_loop w a i

unfoldable pub ctlz : ℕ → ℕ → ℕ
unfolding ctlz_loop
ctlz w a = ctlz_loop w a w

unfoldable pub ctpop_loop : ℕ → ℕ → ℕ → ℕ
ctpop_loop w a zero = mk_uint w 0
ctpop_loop w a (suc i) = bvadd w (ctpop_loop w a i) (zext (w - 1) (bit i a))

unfoldable pub ctpop : ℕ → ℕ → ℕ
unfolding ctpop_loop
ctpop w a = ctpop_loop w a w

clmul_loop : ℕ → ℕ → ℕ → ℕ → ℕ
clmul_loop w a b zero = mk_uint w 0
clmul_loop w a b (suc i) =
    bvxor (clmul_loop w a b i) (bvand (sext 1 (w - 1) (bit i a)) (bvshl w b (mk_uint w i)))

unfoldable pub clmul : ℕ → ℕ → ℕ → ℕ
unfolding clmul_loop
clmul w a b = clmul_loop w a b w

-- The running shift amount: how many bits of the mask are set below `i`.
shamt : ℕ → ℕ → ℕ → ℕ
shamt w mask zero = mk_uint w 0
shamt w mask (suc i) = bvadd w (shamt w mask i) (zext (w - 1) (bit i mask))

pext_loop : ℕ → ℕ → ℕ → ℕ → ℕ
unfolding shamt
pext_loop w a mask zero = mk_uint w 0
pext_loop w a mask (suc i) =
    bvor (pext_loop w a mask i) (bvshl w (bvand (bit i mask) (bit i a)) (shamt w mask i))

unfoldable pub pext : ℕ → ℕ → ℕ → ℕ
unfolding pext_loop
pext w a mask = pext_loop w a mask w

pdep_loop : ℕ → ℕ → ℕ → ℕ → ℕ
unfolding shamt
pdep_loop w a mask zero = mk_uint w 0
pdep_loop w a mask (suc i) =
    bvor (pdep_loop w a mask i)
      (bvshl w (bvand (bit i mask) (bvlshr a (shamt w mask i))) (mk_uint w i))

unfoldable pub pdep : ℕ → ℕ → ℕ → ℕ
unfolding pdep_loop
pdep w a mask = pdep_loop w a mask w
