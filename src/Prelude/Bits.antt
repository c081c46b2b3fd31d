-- ===== src/Prelude/Bits.antt =====
-- Bounds of the bit operations at variables, from the digit recursion that they stand for.
use Prim.Native.Nat.{
  ℕ, zero, suc, ◌/◌, ◌^◌, ◌≤◌, ◌<◌, min, max, digits, bit_and, bit_or, bit_and-bitwise,
  bit_or-bitwise, bit_xor, bit_xor-bitwise, differ, ◌%◌,
}
use native.Mathlib.Nat.{pow-zero}
use native.Mathlib.Omega.{arith}
use alive_next_deprecated.Prelude.Pow.{pow-double}

and_digits-le_left : (n a b : ℕ) → digits (λ _. zero) min n a b ≤ a
and_digits-le_left zero zero b = omega arith
and_digits-le_left (suc n) zero b = omega arith
and_digits-le_left zero (suc a) b = omega arith
and_digits-le_left (suc n) (suc a) b = omega (arith, and_digits-le_left n (suc a / 2) (b / 2))

and_digits-le_right : (n a b : ℕ) → digits (λ _. zero) min n a b ≤ b
and_digits-le_right zero zero b = omega arith
and_digits-le_right (suc n) zero b = omega arith
and_digits-le_right zero (suc a) b = omega arith
and_digits-le_right (suc n) (suc a) b = omega (arith, and_digits-le_right n (suc a / 2) (b / 2))

or_digits-le_left : (n a b : ℕ) → a ≤ n → a ≤ digits (λ y. y) max n a b
or_digits-le_left zero zero b h = omega arith
or_digits-le_left (suc n) zero b h = omega arith
or_digits-le_left zero (suc a) b h = absurd (omega arith)
or_digits-le_left (suc n) (suc a) b h =
    omega (arith, or_digits-le_left n (suc a / 2) (b / 2) (omega arith))

or_digits-le_right : (n a b : ℕ) → a ≤ n → b ≤ digits (λ y. y) max n a b
or_digits-le_right zero zero b h = omega arith
or_digits-le_right (suc n) zero b h = omega arith
or_digits-le_right zero (suc a) b h = absurd (omega arith)
or_digits-le_right (suc n) (suc a) b h =
    omega (arith, or_digits-le_right n (suc a / 2) (b / 2) (omega arith))

or_digits-lt : (n a b k : ℕ) → a ≤ n → a < 2 ^ k → b < 2 ^ k → digits (λ y. y) max n a b < 2 ^ k
or_digits-lt zero zero b k h p q = q
or_digits-lt (suc n) zero b k h p q = q
or_digits-lt zero (suc a) b k h p q = absurd (omega arith)
or_digits-lt (suc n) (suc a) b zero h p q = absurd (omega (arith, pow-zero 2))
or_digits-lt (suc n) (suc a) b (suc k) h p q = omega (
  arith,
  pow-double k,
  or_digits-lt n (suc a / 2) (b / 2) k (omega arith) (omega (arith, pow-double k))
      (omega (arith, pow-double k)),
)

differ-lt : (a b : ℕ) → a < 2 → b < 2 → differ a b < 2
differ-lt zero b p q = q
differ-lt (suc a) zero p q = p
differ-lt (suc a) (suc b) p q = differ-lt a b (omega arith) (omega arith)

differ-digits-lt :
    (n a b k : ℕ) → a ≤ n → a < 2 ^ k → b < 2 ^ k → digits (λ y. y) differ n a b < 2 ^ k
differ-digits-lt zero zero b k h p q = q
differ-digits-lt (suc n) zero b k h p q = q
differ-digits-lt zero (suc a) b k h p q = absurd (omega arith)
differ-digits-lt (suc n) (suc a) b zero h p q = absurd (omega (arith, pow-zero 2))
differ-digits-lt (suc n) (suc a) b (suc k) h p q = omega (
  arith,
  pow-double k,
  differ-lt (suc a % 2) (b % 2) (omega arith) (omega arith),
  differ-digits-lt n (suc a / 2) (b / 2) k (omega arith) (omega (arith, pow-double k))
      (omega (arith, pow-double k)),
)

pub bit_xor-lt : (a b k : ℕ) → a < 2 ^ k → b < 2 ^ k → bit_xor a b < 2 ^ k
bit_xor-lt a b k p q = rw bit_xor-bitwise (differ-digits-lt a a b k (omega arith) p q)

pub bit_and-le_left : (a b : ℕ) → bit_and a b ≤ a
bit_and-le_left a b = rw bit_and-bitwise (and_digits-le_left a a b)

pub bit_and-le_right : (a b : ℕ) → bit_and a b ≤ b
bit_and-le_right a b = rw bit_and-bitwise (and_digits-le_right a a b)

pub bit_or-le_left : (a b : ℕ) → a ≤ bit_or a b
bit_or-le_left a b = rw bit_or-bitwise (or_digits-le_left a a b (omega arith))

pub bit_or-le_right : (a b : ℕ) → b ≤ bit_or a b
bit_or-le_right a b = rw bit_or-bitwise (or_digits-le_right a a b (omega arith))

pub bit_or-lt : (a b k : ℕ) → a < 2 ^ k → b < 2 ^ k → bit_or a b < 2 ^ k
bit_or-lt a b k p q = rw bit_or-bitwise (or_digits-lt a a b k (omega arith) p q)
