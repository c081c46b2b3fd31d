-- ===== src/Util/Compiler/Laws.antt =====
-- About the saturated operations, round_up and ilog2 of util/compiler.cpp.
use alive_next_deprecated.Prelude.{
  ℕ, zero, suc, ◌+◌, ◌-◌, ◌*◌, ◌/◌, ◌%◌, ◌^◌, ◌<◌, ◌≤◌, ◌≡◌, refl, arith, false, leb, ◌==◌,
  if◌then◌else◌, min, Bool-cases, inl, inr, ap,
}
use native.Mathlib.Nat.{mod-eq_of_lt, mod-lt, div-add-mod', pow-zero, div-mul-le_self}
use alive_next_deprecated.Prelude.Div.{mod_once, mod_unique}
use alive_next_deprecated.Prelude.Pow.{pow-double, pow-half}
use alive_next_deprecated.Util.Compiler.{
  u64, u64_max, bit_width, ilog2, add_saturate, mul_saturate, divide_up, round_up,
}

cut_lem : (m x : ℕ) → 0 < m → (if leb m x then m - 1 else x % m) ≡ min x (m - 1)
cut_lem m x pm = elim (Bool-cases (leb m x)) [
  | inl ge ↦ rw ge (ground arith)
  | inr lt ↦ rw (lt, mod-eq_of_lt {n = x} {m = m} (ground arith)) (ground arith)
]

-- add_saturate and mul_saturate are the exact sum and product, cut at the largest 64-bit number.
pub saturate_lem :
    (a b : ℕ) → (add_saturate a b ≡ min (a + b) u64_max) × (mul_saturate a b ≡ min (a * b) u64_max)
unfolding add_saturate mul_saturate
saturate_lem a b = (cut_lem u64 (a + b) (omega arith), cut_lem u64 (a * b) (omega arith))

wrap_pred : (m x : ℕ) → 0 < x → x ≤ m → (x % m + (m - 1)) % m ≡ x - 1
wrap_pred m x p q = elim (Bool-cases (x == m)) [
  | inl e ↦
      let zero_mod : x % m ≡ 0 = mod_unique m x 1 0 (ground arith) (ground arith) in
      rw (zero_mod, mod-eq_of_lt {n = 0 + (m - 1)} {m = m} (ground arith)) (ground arith)
  | inr ne ↦
      rw (mod-eq_of_lt {n = x} {m = m} (ground arith))
        (rw (mod_once m (x + (m - 1)) (ground arith)) (ground arith))
]

divide_up_lem :
    (n amount : ℕ) → 0 < amount → n + amount ≤ u64 → divide_up n amount ≡ (n + amount - 1) / amount
unfolding divide_up
divide_up_lem n amount p q = rw (wrap_pred u64 (n + amount) (omega arith) q) refl

-- For a positive amount such that n + amount does not pass 2^64, round_up gives the multiple of
-- the amount that is not below n and below n + amount.
pub round_up_lem :
    (n amount : ℕ)
    → 0 < amount
    → n + amount ≤ u64
    → (round_up n amount % amount ≡ 0) × (n ≤ round_up n amount) × (round_up n amount < n + amount)
unfolding round_up
round_up_lem n amount p q =
    rw
      (
        divide_up_lem n amount p q,
        mod-eq_of_lt {n = below} {m = u64} (omega (arith, div-mul-le_self top amount)),
      )
      (
        mod_unique amount below (top / amount) 0 p (omega arith),
        omega (arith, div-add-mod' top amount, mod-lt top p),
        omega (arith, div-mul-le_self top amount),
      )
  where
    top : ℕ
    top = n + amount - 1

    below : ℕ
    below = top / amount * amount

bit_width-step : (k n : ℕ) → 0 < n → bit_width (suc k) n ≡ suc (bit_width k (n / 2))
unfolding bit_width
bit_width-step k n p = ground arith

bit_width-zero : (k : ℕ) → bit_width k 0 ≡ 0
unfolding bit_width
bit_width-zero zero = refl
bit_width-zero (suc k) = refl

-- The powers of 2 around `n`, where `b` digits are left of `n / 2`.
bit_width_more :
    (b n : ℕ)
    → (0 < b) × (2 ^ (b - 1) ≤ n / 2) × (n / 2 < 2 ^ b)
    → (0 < suc b) × (2 ^ (suc b - 1) ≤ n) × (n < 2 ^ suc b)
bit_width_more b n (pb, lo, hi) = (
  omega arith,
  omega (arith, pow-half b pb, ap (λ (t : ℕ). 2 ^ t) {x = suc b - 1} {y = b} (omega arith)),
  omega (arith, pow-double b),
)

bit_width_lem :
    (k n : ℕ)
    → 0 < n
    → n < 2 ^ k
    → (0 < bit_width k n) × (2 ^ (bit_width k n - 1) ≤ n) × (n < 2 ^ bit_width k n)
bit_width_lem zero n p h = absurd (omega (arith, pow-zero 2))
bit_width_lem (suc k) n p h = rw (bit_width-step k n p) (elim (Bool-cases (n == 1)) [
  | inl one ↦
      let half_zero : n / 2 ≡ 0 = ground arith in
      rw (half_zero, bit_width-zero k) (omega arith, ground arith, ground arith)
  | inr more ↦
      bit_width_more (bit_width k (n / 2)) n
        (bit_width_lem k (n / 2) (ground arith) (omega (arith, pow-double k)))
])

ilog2_nonzero : (n : ℕ) → 0 < n → ilog2 n ≡ bit_width 64 n - 1
unfolding ilog2
ilog2_nonzero n p = rw nonzero refl
  where
    nonzero : (n == 0) ≡ false
    nonzero = ground arith

-- For a 64-bit number that is not 0, ilog2 is the position of its highest bit.
pub ilog2_lem : (n : ℕ) → 0 < n → n < u64 → (2 ^ ilog2 n ≤ n) × (n < 2 ^ (ilog2 n + 1))
ilog2_lem n p h = rw (ilog2_nonzero n p) (ilog2_of (bit_width 64 n) n (bit_width_lem 64 n p h))
  where
    ilog2_of :
        (b x : ℕ)
        → (0 < b) × (2 ^ (b - 1) ≤ x) × (x < 2 ^ b)
        → (2 ^ (b - 1) ≤ x) × (x < 2 ^ (b - 1 + 1))
    ilog2_of b x (pb, lo, hi) =
        (lo, rw (ap (λ (t : ℕ). 2 ^ t) {x = b - 1 + 1} {y = b} (omega arith)) hi)
