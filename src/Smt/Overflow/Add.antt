-- ===== src/Smt/Overflow/Add.antt =====
-- About the overflow tests of + and - (smt/expr.cpp), against the exact results.
use alive_next_deprecated.Prelude.{
  ℕ, ◌+◌, ◌-◌, ◌/◌, ◌%◌, ◌^◌, ◌≤◌, ◌<◌, ◌≡◌, arith, Bool, true, ltb, leb, ◌==◌, if◌then◌else◌, ◌∙◌,
  ◌&&◌, ap, sym, Bool-cases, inl, inr,
}
use alive_next_deprecated.Prelude.Int.{ℤ, pos, negsuc, ◌+ℤ◌, ◌-ℤ◌, leb_ℤ, ltb_ℤ}
use alive_next_deprecated.Prelude.Pow.{pow-half, pow-succ}
use alive_next_deprecated.Prelude.Div.{mod_once, div_once}
use native.Mathlib.Nat.{mod-eq_of_lt}
use alive_next_deprecated.Smt.Bv.{half, to_int, bvadd, bvsub, sext, zext, extract, is_negative}
use alive_next_deprecated.Smt.Overflow.{
  Syntax, add_no_soverflow, add_no_uoverflow, sub_no_soverflow, sub_no_uoverflow,
  const_add_no_uoverflow, const_add_no_soverflow,
}

-- What the syntax says of an operand is true of its value.
pub record Describes (w : ℕ) (s : Syntax) (a : ℕ) : Type 0 where
  pub in_range : a < 2 ^ w
  pub one_zero : 1 ≤ s.min_leading_zeros → a < half w
  pub two_zeros : 2 ≤ s.min_leading_zeros → a + a < half w

-- The integer is that of a bit pattern of width `w`.
abbrev pub fits_signed : ℕ → ℤ → Bool
fits_signed w z = leb_ℤ (pos 0 -ℤ pos (half w)) z && ltb_ℤ z (pos (half w))

extract-top : (w x : ℕ) → extract w w x ≡ x / 2 ^ w % 2
extract-top w x = ap (λ (t : ℕ). x / 2 ^ w % 2 ^ t) {x = w + 1 - w} {y = 1} (omega arith)

ltb_top : (m x : ℕ) → x < m + m → (x % (m + m) / m % 2 == 0) ≡ ltb x m
ltb_top m x h = rw (mod-eq_of_lt h, div_once m x h) (ground arith)

-- The cases of a signed sum and of a signed difference, where the sign bit weighs `h`.
abbrev sum_fits : ℕ → ℕ → ℕ → Bool
sum_fits h a b =
    if ltb a h
    then if ltb b h then ltb (a + b) h else true
    else if ltb b h
    then true
    else leb (h + h + h) (a + b)

abbrev diff_fits : ℕ → ℕ → ℕ → Bool
diff_fits h a b =
    if ltb a h
    then if ltb b h then true else ltb (a + h) b
    else if ltb b h
    then leb (b + h) a
    else true

-- The same laws where the powers of two are `h`, `m` and `n`.
module _ (h m n : ℕ) (em : m ≡ h + h) (en : n ≡ m + m) where
  abbrev widen : ℕ → ℕ
  widen a = if ltb a h then a else a + (n - m)

  abbrev int_of : ℕ → ℤ
  int_of a = if ltb a h then pos a else negsuc (m - a - 1)

  abbrev bias : ℕ → ℕ
  bias a = if ltb a h then a + h else a - h

  widen_lt : (a : ℕ) → a < m → widen a < n
  widen_lt a p = ground arith

  module _ (a b : ℕ) (p : a < m) (q : b < m) where
    widen_add : ((widen a + widen b) % n == widen ((a + b) % m)) ≡ sum_fits h a b
    widen_add =
        rw
          (
            mod_once m (a + b) (omega arith),
            mod_once n (widen a + widen b) (omega (arith, widen_lt a p, widen_lt b q)),
          )
          (ground arith)

    widen_sub : ((widen a + (n - widen b)) % n == widen ((a + (m - b)) % m)) ≡ diff_fits h a b
    widen_sub =
        rw
          (
            mod_once m (a + (m - b)) (omega arith),
            mod_once n (widen a + (n - widen b)) (omega (arith, widen_lt a p, widen_lt b q)),
          )
          (ground arith)

    sum_fits_lem :
        sum_fits h a b
        ≡ (leb_ℤ (pos 0 -ℤ pos h) (int_of a +ℤ int_of b) && ltb_ℤ (int_of a +ℤ int_of b) (pos h))
    sum_fits_lem = ground arith

    diff_fits_lem :
        diff_fits h a b
        ≡ (leb_ℤ (pos 0 -ℤ pos h) (int_of a -ℤ int_of b) && ltb_ℤ (int_of a -ℤ int_of b) (pos h))
    diff_fits_lem = ground arith

    const_sum_negative : h ≤ b → leb (bias ((h + (m - b)) % m)) (bias a) ≡ sum_fits h a b
    const_sum_negative c = rw (mod_once m (h + (m - b)) (omega arith)) (ground arith)

    const_sum_positive :
        b < h → leb (bias a) (bias (((h + (m - b)) % m + (m - 1)) % m)) ≡ sum_fits h a b
    const_sum_positive c =
        rw
          (
            mod_once m (h + (m - b)) (omega arith),
            mod_once m ((if ltb (h + (m - b)) m then h + (m - b) else h + (m - b) - m) + (m - 1))
                (ground arith),
          )
          (ground arith)

module _ (w : ℕ) (pw : 0 < w) {a b : ℕ} (ha : a < 2 ^ w) (hb : b < 2 ^ w) where
  zext_add_top : (extract w w (bvadd (w + 1) (zext 1 a) (zext 1 b)) == 0) ≡ ltb (a + b) (2 ^ w)
  zext_add_top = rw extract-top (rw (pow-succ w) (ltb_top (2 ^ w) (a + b) (omega arith)))

  const_add_no_uoverflow_lem : const_add_no_uoverflow w a b ≡ ltb (a + b) (2 ^ w)
  unfolding const_add_no_uoverflow
  const_add_no_uoverflow_lem =
      ground (arith, mod_once (2 ^ w) (2 ^ w - 1 + (2 ^ w - b)) (omega arith))

  sext_add :
      (bvadd (w + 1) (sext w 1 a) (sext w 1 b) == sext w 1 (bvadd w a b)) ≡ sum_fits (half w) a b
  sext_add = widen_add (half w) (2 ^ w) (2 ^ (w + 1)) (pow-half w pw) (pow-succ w) a b ha hb

  sext_sub :
      (bvsub (w + 1) (sext w 1 a) (sext w 1 b) == sext w 1 (bvsub w a b)) ≡ diff_fits (half w) a b
  sext_sub = widen_sub (half w) (2 ^ w) (2 ^ (w + 1)) (pow-half w pw) (pow-succ w) a b ha hb

  const_add_no_soverflow_lem : const_add_no_soverflow w a b ≡ sum_fits (half w) a b
  unfolding const_add_no_soverflow
  const_add_no_soverflow_lem = elim (Bool-cases (is_negative w b)) [
    | inl n ↦ rw n (
        const_sum_negative (half w) (2 ^ w) (2 ^ (w + 1)) (pow-half w pw) (pow-succ w) a b ha hb
          (ground arith))
    | inr n ↦ rw n (
        const_sum_positive (half w) (2 ^ w) (2 ^ (w + 1)) (pow-half w pw) (pow-succ w) a b ha hb
          (ground arith))
  ]

sum_fits_comm : (h a b : ℕ) → sum_fits h a b ≡ sum_fits h b a
sum_fits_comm h a b = ground arith

module _ (w : ℕ) (pw : 0 < w) {sa sb : Syntax} {a b : ℕ} (da : Describes w sa a)
    (db : Describes w sb b) where
  -- add_no_uoverflow holds exactly when the unsigned sum is below 2^w, whatever the syntax.
  pub add_no_uoverflow_lem : add_no_uoverflow w sa sb a b ≡ ltb (a + b) (2 ^ w)
  unfolding add_no_uoverflow
  add_no_uoverflow_lem = ground (
    arith,
    da.one_zero,
    db.one_zero,
    pow-half w pw,
    zext_add_top w pw da.in_range db.in_range,
    const_add_no_uoverflow_lem w pw da.in_range db.in_range,
    const_add_no_uoverflow_lem w pw db.in_range da.in_range,
  )

  short_operands :
      (leb 2 sa.min_leading_zeros && leb 2 sb.min_leading_zeros) ≡ true
      → sum_fits (half w) a b ≡ true
  short_operands h = ground (arith, da.two_zeros, db.two_zeros)

  add_no_soverflow-eq-sum_fits : add_no_soverflow w sa sb a b ≡ sum_fits (half w) a b
  unfolding add_no_soverflow
  add_no_soverflow-eq-sum_fits =
      elim (Bool-cases (leb 2 sa.min_leading_zeros && leb 2 sb.min_leading_zeros)) [
        | inl short ↦ rw short (sym (short_operands short))
        | inr long ↦ rw long (elim (Bool-cases sb.is_const) [
          | inl c ↦ rw c (const_add_no_soverflow_lem w pw da.in_range db.in_range)
          | inr c ↦ rw c (elim (Bool-cases sa.is_const) [
            | inl d ↦
                rw d (const_add_no_soverflow_lem w pw db.in_range da.in_range)
                ∙ sum_fits_comm (half w) b a
            | inr d ↦ rw d (sext_add w pw da.in_range db.in_range)
          ])
        ])
      ]

  -- add_no_soverflow holds exactly when the sum of the signed values is representable, whatever
  -- the syntax of the operands.
  pub add_no_soverflow_lem : add_no_soverflow w sa sb a b ≡ fits_signed w (to_int w a +ℤ to_int w b)
  add_no_soverflow_lem =
      add_no_soverflow-eq-sum_fits
      ∙ sum_fits_lem (half w) (2 ^ w) (2 ^ (w + 1)) (pow-half w pw) (pow-succ w) a b da.in_range
          db.in_range

  same_signs :
      (leb 1 sa.min_leading_zeros && leb 1 sb.min_leading_zeros) ≡ true
      → diff_fits (half w) a b ≡ true
  same_signs h = ground (arith, da.one_zero, db.one_zero)

  sub_no_soverflow-eq-diff_fits : sub_no_soverflow w sa sb a b ≡ diff_fits (half w) a b
  unfolding sub_no_soverflow
  sub_no_soverflow-eq-diff_fits =
      elim (Bool-cases (leb 1 sa.min_leading_zeros && leb 1 sb.min_leading_zeros)) [
        | inl short ↦ rw short (sym (same_signs short))
        | inr long ↦ rw long (sext_sub w pw da.in_range db.in_range)
      ]

  -- sub_no_soverflow holds exactly when the difference of the signed values is representable.
  pub sub_no_soverflow_lem : sub_no_soverflow w sa sb a b ≡ fits_signed w (to_int w a -ℤ to_int w b)
  sub_no_soverflow_lem =
      sub_no_soverflow-eq-diff_fits
      ∙ diff_fits_lem (half w) (2 ^ w) (2 ^ (w + 1)) (pow-half w pw) (pow-succ w) a b da.in_range
          db.in_range

-- sub_no_uoverflow holds exactly when the subtrahend is the smaller.
pub sub_no_uoverflow_lem : (w a b : ℕ) → a < 2 ^ w → b < 2 ^ w → sub_no_uoverflow w a b ≡ leb b a
unfolding sub_no_uoverflow
sub_no_uoverflow_lem w a b ha hb = rw extract-top (
    rw (pow-succ w) (
      ground (
        arith,
        mod_once (2 ^ w + 2 ^ w) (a + (2 ^ w + 2 ^ w - b)) (omega arith),
        div_once (2 ^ w) ((a + (2 ^ w + 2 ^ w - b)) % (2 ^ w + 2 ^ w)) (omega arith),
      )))
