-- ===== src/Smt/Saturate/Range.antt =====
-- About expr::sadd_sat to expr::usub_sat (smt/expr.cpp), against the exact results.
use alive_next_deprecated.Prelude.{
  ℕ, ◌+◌, ◌-◌, ◌%◌, ◌^◌, ◌<◌, ◌≡◌, arith, ltb, leb, if◌then◌else◌, min, ap, ◌∙◌, Bool-cases, inl,
  inr,
}
use alive_next_deprecated.Prelude.Int.{ℤ, pos, negsuc, ◌+ℤ◌, ◌-ℤ◌, leb_ℤ, ltb_ℤ}
use alive_next_deprecated.Prelude.Pow.{pow-half, pow-succ, pow-pos}
use alive_next_deprecated.Prelude.Div.{mod_once}
use alive_next_deprecated.Smt.Bv.{half, to_int}
use alive_next_deprecated.Smt.Overflow.{Syntax}
use alive_next_deprecated.Smt.Overflow.Add.{Describes, add_no_uoverflow_lem}
use alive_next_deprecated.Smt.Saturate.{sadd_sat, uadd_sat, ssub_sat, usub_sat}

-- The nearest integer of the signed range.
abbrev pub clamp_signed : ℕ → ℤ → ℤ
clamp_signed w z =
    if ltb_ℤ z (pos 0 -ℤ pos (half w))
    then pos 0 -ℤ pos (half w)
    else if leb_ℤ (pos (half w)) z
    then pos (half w - 1)
    else z

-- The laws where the powers of two are `h`, `m`, `n`, and `k` is the sign bit of the wide terms.
module _ (h m n k : ℕ) (ph : 0 < h) (em : m ≡ h + h) (en : n ≡ m + m) (ek : k ≡ m) where
  abbrev widen : ℕ → ℕ
  widen a = if ltb a h then a else a + (n - m)

  abbrev int_of : ℕ → ℤ
  int_of a = if ltb a h then pos a else negsuc (m - a - 1)

  abbrev bias : ℕ → ℕ
  bias a = if ltb a k then a + k else a - k

  abbrev clamp : ℤ → ℤ
  clamp z =
      if ltb_ℤ z (pos 0 -ℤ pos h)
      then pos 0 -ℤ pos h
      else if leb_ℤ (pos h) z
      then pos (h - 1)
      else z

  -- What the saturating operations choose from the wide result `x` and the narrow result `y`.
  abbrev choose : ℕ → ℕ → ℕ
  choose x y =
      if leb (bias x) (bias (widen h))
      then h
      else if leb (bias (widen (h - 1))) (bias x)
      then h - 1
      else y

  widen_lt : (a : ℕ) → a < m → widen a < n
  widen_lt a p = ground arith

  -- The signed value, moved up by `h`.
  abbrev off : ℕ → ℕ
  off a = if ltb a h then a + h else a - h

  bias_end : (bias (widen h) ≡ h) × (bias (widen (h - 1)) ≡ m + h - 1)
  bias_end = ground arith

  clamp_inside : (d : ℕ) (z : ℤ) → z ≡ pos d -ℤ pos m → h < d → d < m + h - 1 → z ≡ clamp z
  clamp_inside d z ez lo hi = rw ez (ground arith)

  -- Where the wide result `x` stands for `d` above -m, the choice is the clamped integer, if the
  -- narrow result `y` is right inside the range.
  choose-clamp :
      (x y d : ℕ) (z : ℤ)
      → bias x ≡ d
      → z ≡ pos d -ℤ pos m
      → (h < d → d < m + h - 1 → int_of y ≡ z)
      → int_of (choose x y) ≡ clamp z
  choose-clamp x y d z ex ez inside =
      rw (ex, bias_end.0, bias_end.1)
        (elim (Bool-cases (leb d h)) [
          | inl low ↦ rw (low, ez) (ground arith)
          | inr mid ↦ elim (Bool-cases (leb (m + h - 1) d)) [
            | inl high ↦ rw (mid, high, ez) (ground arith)
            | inr below ↦
                rw (mid, below)
                  (inside (ground arith) (ground arith)
                    ∙ clamp_inside d z ez (ground arith) (ground arith))
          ]
        ])

  module _ (a b : ℕ) (p : a < m) (q : b < m) where
    bias_add : bias ((widen a + widen b) % n) ≡ off a + off b
    bias_add =
        rw (mod_once n (widen a + widen b) (omega (arith, widen_lt a p, widen_lt b q)))
          (ground arith)

    bias_sub : bias ((widen a + (n - widen b)) % n) ≡ off a + m - off b
    bias_sub =
        rw (mod_once n (widen a + (n - widen b)) (omega (arith, widen_lt a p, widen_lt b q)))
          (ground arith)

    add_exact : int_of a +ℤ int_of b ≡ pos (off a + off b) -ℤ pos m
    add_exact = ground arith

    sub_exact : int_of a -ℤ int_of b ≡ pos (off a + m - off b) -ℤ pos m
    sub_exact = ground arith

    add_inside :
        h < off a + off b → off a + off b < m + h - 1 → int_of ((a + b) % m) ≡ int_of a +ℤ int_of b
    add_inside lo hi = rw (mod_once m (a + b) (omega arith)) (ground arith)

    sub_inside :
        h < off a + m - off b
        → off a + m - off b < m + h - 1
        → int_of ((a + (m - b)) % m) ≡ int_of a -ℤ int_of b
    sub_inside lo hi = rw (mod_once m (a + (m - b)) (omega arith)) (ground arith)

    choose_add :
        int_of (choose ((widen a + widen b) % n) ((a + b) % m)) ≡ clamp (int_of a +ℤ int_of b)
    choose_add = choose-clamp _ _ (off a + off b) _ bias_add add_exact add_inside

    choose_sub :
        int_of (choose ((widen a + (n - widen b)) % n) ((a + (m - b)) % m))
        ≡ clamp (int_of a -ℤ int_of b)
    choose_sub = choose-clamp _ _ (off a + m - off b) _ bias_sub sub_exact sub_inside

pow-pred : (w : ℕ) → 2 ^ (w + 1 - 1) ≡ 2 ^ w
pow-pred w = ap (λ (t : ℕ). 2 ^ t) {x = w + 1 - 1} {y = w} (omega arith)

module _ (w : ℕ) (pw : 0 < w) {a b : ℕ} (ha : a < 2 ^ w) (hb : b < 2 ^ w) where
  -- For operands of the width, sadd_sat is the sum of the signed values, clamped to the signed
  -- range.
  pub sadd_sat_lem : to_int w (sadd_sat w a b) ≡ clamp_signed w (to_int w a +ℤ to_int w b)
  unfolding sadd_sat
  sadd_sat_lem =
      choose_add (half w) (2 ^ w) (2 ^ (w + 1)) (2 ^ (w + 1 - 1)) (pow-pos (w - 1)) (pow-half w pw)
        (pow-succ w) (pow-pred w) a b ha hb

  -- ssub_sat is the difference of the signed values, clamped to the signed range.
  pub ssub_sat_lem : to_int w (ssub_sat w a b) ≡ clamp_signed w (to_int w a -ℤ to_int w b)
  unfolding ssub_sat
  ssub_sat_lem =
      choose_sub (half w) (2 ^ w) (2 ^ (w + 1)) (2 ^ (w + 1 - 1)) (pow-pos (w - 1)) (pow-half w pw)
        (pow-succ w) (pow-pred w) a b ha hb

  -- usub_sat is the difference, or 0 where it would be negative.
  pub usub_sat_lem : usub_sat w a b ≡ a - b
  unfolding usub_sat
  usub_sat_lem = ground (arith, mod_once (2 ^ w) (a + (2 ^ w - b)) (omega arith))

-- For operands of the width of which the syntax tells the truth, uadd_sat is the sum, or the
-- largest value where the sum is not representable.
pub uadd_sat_lem :
    (w : ℕ) (pw : 0 < w) {sa sb : Syntax} {a b : ℕ}
    → Describes w sa a
    → Describes w sb b
    → uadd_sat w sa sb a b ≡ min (a + b) (2 ^ w - 1)
unfolding uadd_sat
uadd_sat_lem w pw {a = a} {b = b} da db = rw (add_no_uoverflow_lem w pw da db) (
    ground (
      arith,
      da.in_range,
      db.in_range,
      mod_once (2 ^ w) (a + b) (omega (arith, da.in_range, db.in_range)),
    ))
