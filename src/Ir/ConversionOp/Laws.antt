-- ===== src/Ir/ConversionOp/Laws.antt =====
-- About ConversionOp::toSMT (ir/instr.cpp): the integer and the poison of a conversion.
use alive_next_deprecated.Prelude.{
  ℕ, suc, ◌+◌, ◌-◌, ◌*◌, ◌/◌, ◌%◌, ◌^◌, ◌<◌, ◌≤◌, ◌≡◌, refl, arith, true, ◌&&◌, ◌||◌, Bool-cases,
  inl, inr, not, ltb, leb, ◌==◌, if◌then◌else◌, ap, ◌∙◌, sym,
}
use native.Mathlib.Nat.{mod-eq_of_lt, mod-lt, div-lt_iff_lt-mul}
use alive_next_deprecated.Prelude.Pow.{pow-half, pow-add, pow-pos, pow_mono}
use alive_next_deprecated.Prelude.Div.{mod_unique}
use alive_next_deprecated.Smt.Bv.{to_int, half, extract, sext}
use alive_next_deprecated.Prelude.Int.{pos, negsuc, ◌-ℤ◌, leb_ℤ, ltb_ℤ}
use alive_next_deprecated.Smt.Overflow.Mul.{upper_zero}
use alive_next_deprecated.Smt.Overflow.Add.{fits_signed}
use alive_next_deprecated.Ir.ConversionOp.{ConvOp, ConvFlags, conv_fn}

-- The sign bit weighs `h` in `m` numbers, and `k` times as many fill the wider width.
module _ (h m k big a : ℕ) (em : m ≡ h + h) (eb : big ≡ m * suc k) where
  top_fits : big - h ≤ a → a < big → a % m ≡ a - (big - m)
  top_fits lo hi = mod_unique m a k (a - (big - m)) (omega (arith, em, eb)) (omega (arith, em, eb))

  sext_back :
      0 < h
      → a < big
      → ((if ltb (a % m) h then a % m else a % m + (big - m)) == a) ≡ (ltb a h || leb (big - h) a)
  sext_back ph hi =
      let below : a % m < m = mod-lt a (omega (arith, em)) in
      elim (Bool-cases (ltb a h)) [
        | inl lt ↦ rw (mod-eq_of_lt {n = a} {m = m} (ground (arith, em))) (ground arith)
        | inr ge ↦ elim (Bool-cases (leb (big - h) a)) [
          | inl top ↦ rw (top_fits (ground arith) hi) (ground (arith, em, eb))
          | inr mid ↦ ground (arith, em, eb, below)
        ]
      ]

  fits_lem :
      (g : ℕ)
      → 0 < h
      → h < g
      → a < big
      → big ≡ g + g
      → (leb_ℤ (pos 0 -ℤ pos h) (if ltb a (g) then pos a else negsuc (big - a - 1))
          && ltb_ℤ (if ltb a (g) then pos a else negsuc (big - a - 1)) (pos h))
        ≡ (ltb a h || leb (big - h) a)
  fits_lem g ph lt hi e = ground (arith, em)

-- For an operand of the width and a wider result: sext keeps the integer; zext keeps the number
-- and is poison under nneg exactly for a negative operand.
pub conv_fn-extend :
    (f : ConvFlags) (w to v : ℕ)
    → 0 < w
    → w < to
    → v < 2 ^ w
    → (to_int to (conv_fn ConvOp.sext f w to v).0 ≡ to_int w v)
      × ((conv_fn ConvOp.zext f w to v).0 ≡ v)
      × ((conv_fn ConvOp.zext f w to v).1 ≡ (not f.nneg || ltb v (half w)))
unfolding conv_fn
conv_fn-extend f w to v pw lt hv =
    let e1 = pow-half w pw in
    let e2 = pow-half to (omega arith) in
    let e3 = ap (λ (t : ℕ). 2 ^ t) {x = w + (to - w)} {y = to} (omega arith) in
    let le = pow_mono w (to - 1) (omega arith) in
    (rw e3 (ground (arith, e1, e2, le)), refl, ground arith)

nuw_lem : (t w v : ℕ) → t < w → v < 2 ^ w → (extract (w - 1) t v == 0) ≡ ltb v (2 ^ t)
nuw_lem t w v lt hv =
    ap (λ (n : ℕ). (v / 2 ^ t % 2 ^ n) == 0) {x = w - 1 + 1 - t} {y = w - t} (omega arith)
    ∙ rw (mod-eq_of_lt small) (upper_zero t v)
  where
    whole : 2 ^ w ≡ 2 ^ t * 2 ^ (w - t)
    whole = ap (λ (n : ℕ). 2 ^ n) {x = w} {y = t + (w - t)} (omega arith) ∙ pow-add t (w - t)

    small : v / 2 ^ t < 2 ^ (w - t)
    small = (div-lt_iff_lt-mul (pow-pos t)).1 (omega (arith, whole))

nsw_lem :
    (t w v : ℕ)
    → 0 < t
    → t < w
    → v < 2 ^ w
    → (sext t (w - t) (v % 2 ^ t) == v) ≡ fits_signed t (to_int w v)
nsw_lem t w v pt lt hv = rw (ap (λ (n : ℕ). 2 ^ n) {x = t + (w - t)} {y = w} (omega arith)) (
    sext_back (half t) (2 ^ t) (2 ^ (w - t) - 1) (2 ^ w) v et ew (pow-pos (t - 1)) hv
    ∙ sym (
        fits_lem (half t) (2 ^ t) (2 ^ (w - t) - 1) (2 ^ w) v et ew (half w) (pow-pos (t - 1))
          (omega (arith, et, pow-pos (t - 1), pow_mono t (w - 1) (omega arith))) hv
          (pow-half w (omega arith))))
  where
    et : 2 ^ t ≡ half t + half t
    et = pow-half t pt

    ew : 2 ^ w ≡ 2 ^ t * suc (2 ^ (w - t) - 1)
    ew =
        ap (λ (n : ℕ). 2 ^ n) {x = w} {y = t + (w - t)} (omega arith)
        ∙ pow-add t (w - t)
        ∙ ap (λ (n : ℕ). 2 ^ t * n) {x = 2 ^ (w - t)} {y = suc (2 ^ (w - t) - 1)}
            (omega (arith, pow-pos (w - t)))

-- For an operand of the width and a narrower result: trunc keeps the low bits, and is poison under
-- nuw exactly where the number does not fit, and under nsw exactly where the integer does not.
pub conv_fn-trunc :
    (f : ConvFlags) (w to v : ℕ)
    → 0 < to
    → to < w
    → v < 2 ^ w
    → conv_fn ConvOp.trunc f w to v ≡ (
      v % 2 ^ to,
      (if f.nuw then ltb v (2 ^ to) else true)
          && (if f.nsw then fits_signed to (to_int w v) else true),
    )
unfolding conv_fn
conv_fn-trunc f w to v pt lt hv = rw (nuw_lem to w v lt hv, nsw_lem to w v pt lt hv) refl
