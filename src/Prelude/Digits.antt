-- ===== src/Prelude/Digits.antt =====
-- The binary digits of a number, and those of the bit operations.
use Prim.Native.Nat.{
  ℕ, zero, suc, ◌+◌, ◌*◌, ◌/◌, ◌%◌, ◌^◌, ◌≤◌, ◌<◌, min, max, digits, bit_and, bit_or,
  bit_and-bitwise, bit_or-bitwise,
}
use mathlib.Core.Path.{◌≡◌, refl, sym, ap, ◌∙◌}
use mathlib.Core.Logic.{inl, inr}
use mathlib.Core.Bool.{Bool, true, false, not, ◌&&◌, ◌||◌}
use native.Mathlib.Omega.{arith}
use alive_next_deprecated.Prelude.Tests.{◌==◌, Bool-cases}
use alive_next_deprecated.Prelude.Pow.{pow-double}

-- Digit `k`, from the lowest, is one.
abbrev pub bit : ℕ → ℕ → Bool
bit zero v = v % 2 == 1
bit (suc k) v = bit k (v / 2)

pub bit-zero : (k : ℕ) → bit k 0 ≡ false
bit-zero zero = refl
bit-zero (suc k) = bit-zero k

half_of : (r d : ℕ) → d < 2 → (r * 2 + d) / 2 ≡ r
half_of r d h = omega arith

low_of : (r d : ℕ) → d < 2 → (r * 2 + d) % 2 ≡ d
low_of r d h = omega arith

or_digit : (x y : ℕ) → x < 2 → y < 2 → (max x y == 1) ≡ ((x == 1) || (y == 1))
or_digit x y p q = ground arith

and_digit : (x y : ℕ) → x < 2 → y < 2 → (min x y == 1) ≡ ((x == 1) && (y == 1))
and_digit x y p q = ground arith

bit-or_digits : (k n a b : ℕ) → a ≤ n → bit k (digits (λ y. y) max n a b) ≡ (bit k a || bit k b)
bit-or_digits k zero zero b h = rw (bit-zero k) refl
bit-or_digits k (suc n) zero b h = rw (bit-zero k) refl
bit-or_digits k zero (suc a) b h = absurd (omega arith)
bit-or_digits zero (suc n) (suc a) b h =
    let r : ℕ = digits (λ y. y) max n (suc a / 2) (b / 2) in
    rw (low_of r (max (suc a % 2) (b % 2)) (omega arith))
      (or_digit (suc a % 2) (b % 2) (omega arith) (omega arith))
bit-or_digits (suc k) (suc n) (suc a) b h =
    let r : ℕ = digits (λ y. y) max n (suc a / 2) (b / 2) in
    rw (half_of r (max (suc a % 2) (b % 2)) (omega arith))
      (bit-or_digits k n (suc a / 2) (b / 2) (omega arith))

bit-and_digits : (k n a b : ℕ) → a ≤ n → bit k (digits (λ _. zero) min n a b) ≡ (bit k a && bit k b)
bit-and_digits k zero zero b h = rw (bit-zero k) refl
bit-and_digits k (suc n) zero b h = rw (bit-zero k) refl
bit-and_digits k zero (suc a) b h = absurd (omega arith)
bit-and_digits zero (suc n) (suc a) b h =
    let r : ℕ = digits (λ _. zero) min n (suc a / 2) (b / 2) in
    rw (low_of r (min (suc a % 2) (b % 2)) (omega arith))
      (and_digit (suc a % 2) (b % 2) (omega arith) (omega arith))
bit-and_digits (suc k) (suc n) (suc a) b h =
    let r : ℕ = digits (λ _. zero) min n (suc a / 2) (b / 2) in
    rw (half_of r (min (suc a % 2) (b % 2)) (omega arith))
      (bit-and_digits k n (suc a / 2) (b / 2) (omega arith))

pub bit-bit_or : (k a b : ℕ) → bit k (bit_or a b) ≡ (bit k a || bit k b)
bit-bit_or k a b = rw bit_or-bitwise (bit-or_digits k a a b (omega arith))

pub bit-bit_and : (k a b : ℕ) → bit k (bit_and a b) ≡ (bit k a && bit k b)
bit-bit_and k a b = rw bit_and-bitwise (bit-and_digits k a a b (omega arith))

-- The digits of a power of two.
pub bit-pow : (k t : ℕ) → bit k (2 ^ t) ≡ (k == t)
bit-pow zero zero = refl
bit-pow zero (suc t) = ground (arith, pow-double t)
bit-pow (suc k) zero = bit-zero k ∙ ground arith
bit-pow (suc k) (suc t) =
    let half : (2 ^ suc t) / 2 ≡ 2 ^ t = omega (arith, pow-double t) in
    rw half (bit-pow k t ∙ ground arith)

ext_below : (n a b : ℕ) → a ≤ n → b ≤ n → ((k : ℕ) → bit k a ≡ bit k b) → a ≡ b
ext_below zero a b p q h = omega arith
ext_below (suc n) a b p q h =
    let low : (a % 2 == 1) ≡ (b % 2 == 1) = h 0 in
    let high : a / 2 ≡ b / 2 =
      ext_below n (a / 2) (b / 2) (omega arith) (omega arith) (λ k. h (suc k)) in
    ground arith

-- Numbers with the same digits are the same.
pub bit-ext : (a b : ℕ) → ((k : ℕ) → bit k a ≡ bit k b) → a ≡ b
bit-ext a b h = ext_below (max a b) a b (omega arith) (omega arith) h

none_left : (k t : ℕ) (v : ℕ) → bit t v ≡ false → (bit k v && (k == t)) ≡ false
none_left k t v h = elim (Bool-cases (k == t)) [
  | inl e ↦ let same : k ≡ t = ground arith in rw e (rw same (rw h refl))
  | inr e ↦ rw e (and_false (bit k v))
]
  where
    and_false : (b : Bool) → (b && false) ≡ false
    and_false true = refl
    and_false false = refl

-- A mask of one digit tests that digit.
pub bit_and-pow : (v t : ℕ) → not (bit_and v (2 ^ t) == 0) ≡ bit t v
bit_and-pow v t =
    let at : (k : ℕ) → bit k (bit_and v (2 ^ t)) ≡ (bit k v && (k == t)) =
      λ k. bit-bit_and k v (2 ^ t) ∙ ap (λ b. bit k v && b) (bit-pow k t) in
    elim (Bool-cases (bit t v)) [
      | inl e ↦ elim (Bool-cases (bit_and v (2 ^ t) == 0)) [
        | inl z ↦
            let zeros : bit_and v (2 ^ t) ≡ 0 = ground arith in
            let one : bit t (bit_and v (2 ^ t)) ≡ (bit t v && (t == t)) = at t in
            let same : (t == t) ≡ true = ground arith in
            let off : bit t (bit_and v (2 ^ t)) ≡ false = rw zeros (bit-zero t) in absurd (cc)
        | inr z ↦ rw (z, e) refl
      ]
      | inr e ↦
          let zeros : bit_and v (2 ^ t) ≡ 0 =
            bit-ext (bit_and v (2 ^ t)) 0 (λ k. at k ∙ (none_left k t v e ∙ sym (bit-zero k))) in
          rw (zeros, e) refl
    ]
