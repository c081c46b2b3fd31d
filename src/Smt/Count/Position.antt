-- ===== src/Smt/Count/Position.antt =====
-- About expr::cttz and expr::ctlz (smt/expr.cpp), against the positions of the ones.
use native.Mathlib.Nat.{mod-eq_of_lt}
use alive_next_deprecated.Prelude.{
  ℕ, zero, suc, ◌-◌, ◌≤◌, ◌<◌, ◌≡◌, arith, ◌⊎◌, inl, inr, ◌==◌, Bool-cases, refl, true, false, ◌∙◌,
  ap,
}
use alive_next_deprecated.Prelude.Pow.{lt-pow}
use alive_next_deprecated.Smt.Bv.{bit, mk_uint}
use alive_next_deprecated.Smt.Count.{cttz, cttz_loop, ctlz, ctlz_loop}

-- No bit from `lo` up to `hi` is set.
abbrev pub IsClear : ℕ → ℕ → ℕ → Type 0
IsClear a lo hi = (i : ℕ) → lo ≤ i → i < hi → bit i a ≡ 0

-- `r` is the lowest set bit of `a` below `n`; where there is none it is the default `d`.
abbrev pub IsLowest : ℕ → ℕ → ℕ → ℕ → Type 0
IsLowest a d n r = ((r < n) × (bit r a ≡ 1) × IsClear a 0 r) ⊎ ((r ≡ d) × IsClear a 0 n)

-- `i` is the highest set bit of `a` below `n`, and `r` counts the bits of `w` above it.
abbrev pub IsHighest : ℕ → ℕ → ℕ → ℕ → Type 0
IsHighest w a n r =
    ((i : ℕ) × (i < n) × (bit i a ≡ 1) × IsClear a (suc i) n × (r ≡ w - 1 - i))
    ⊎ ((r ≡ w) × IsClear a 0 n)

mk_uint_self : (w i : ℕ) → i ≤ w → mk_uint w i ≡ i
mk_uint_self w i h = mod-eq_of_lt (omega (arith, lt-pow w))

IsClear-more : (a lo n : ℕ) → (bit n a == 1) ≡ false → IsClear a lo n → IsClear a lo (suc n)
IsClear-more a lo n other z i p q = elim (Bool-cases (i == n)) [
  | inl e ↦ ap (λ (t : ℕ). bit t a) {x = i} {y = n} (ground arith) ∙ ground arith
  | inr ne ↦ z i p (ground arith)
]

IsLowest-one :
    (w a d n r : ℕ)
    → n ≤ w
    → (bit n a == 1) ≡ true
    → IsLowest a (mk_uint w n) n r
    → IsLowest a d (suc n) r
IsLowest-one w a d n r h one (inl (p, b, z)) = inl (omega arith, b, z)
IsLowest-one w a d n r h one (inr (e, z)) =
    let same : r ≡ n = e ∙ mk_uint_self w n h in
    inl (omega arith, ap (λ (t : ℕ). bit t a) same ∙ ground arith, λ i p q. z i p (omega arith))

IsLowest-zero : (a d n r : ℕ) → (bit n a == 1) ≡ false → IsLowest a d n r → IsLowest a d (suc n) r
IsLowest-zero a d n r other (inl (p, b, z)) = inl (omega arith, b, z)
IsLowest-zero a d n r other (inr (e, z)) = inr (e, IsClear-more a 0 n other z)

cttz_loop-IsLowest : (w a n d : ℕ) → n ≤ w → IsLowest a d n (cttz_loop w a n d)
unfolding cttz_loop
cttz_loop-IsLowest w a zero d h = inr (refl, λ i p q. elim q [ ])
cttz_loop-IsLowest w a (suc n) d h = elim (Bool-cases (bit n a == 1)) [
  | inl one ↦ rw one (
      IsLowest-one w a d n _ (omega arith) one
        (cttz_loop-IsLowest w a n (mk_uint w n) (omega arith)))
  | inr other ↦ rw other (IsLowest-zero a d n _ other (cttz_loop-IsLowest w a n d (omega arith)))
]

-- cttz is the position of the lowest one, or the given value where no bit is set.
pub cttz-IsLowest : (w a val_zero : ℕ) → IsLowest a val_zero w (cttz w a val_zero)
unfolding cttz
cttz-IsLowest w a val_zero = cttz_loop-IsLowest w a w val_zero (omega arith)

IsHighest-zero :
    (w a n r : ℕ) → (bit n a == 1) ≡ false → IsHighest w a n r → IsHighest w a (suc n) r
IsHighest-zero w a n r other (inl (i, p, b, z, e)) =
    inl (i, omega arith, b, IsClear-more a (suc i) n other z, e)
IsHighest-zero w a n r other (inr (e, z)) = inr (e, IsClear-more a 0 n other z)

ctlz_loop-IsHighest : (w a n : ℕ) → n ≤ w → IsHighest w a n (ctlz_loop w a n)
unfolding ctlz_loop
ctlz_loop-IsHighest w a zero h = inr (mk_uint_self w w (omega arith), λ i p q. elim q [ ])
ctlz_loop-IsHighest w a (suc n) h = elim (Bool-cases (bit n a == 1)) [
  | inl one ↦ rw one (
      inl (
        n,
        omega arith,
        ground arith,
        (λ i p q. absurd (omega arith)),
        mk_uint_self w (w - 1 - n) (omega arith),
      ))
  | inr other ↦ rw other (IsHighest-zero w a n _ other (ctlz_loop-IsHighest w a n (omega arith)))
]

-- ctlz is the number of bits above the highest one, or the width where no bit is set.
pub ctlz-IsHighest : (w a : ℕ) → IsHighest w a w (ctlz w a)
unfolding ctlz
ctlz-IsHighest w a = ctlz_loop-IsHighest w a w (omega arith)
