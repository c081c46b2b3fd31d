-- ===== src/Prelude/Div.antt =====
-- Quotient and remainder by a variable, where the quotient is small or known.
use Prim.Native.Nat.{ℕ, ◌+◌, ◌-◌, ◌*◌, ◌/◌, ◌%◌, ◌<◌}
use mathlib.Core.Path.{◌≡◌, ap, ◌∙◌}
use mathlib.Core.Logic.{inl, inr}
use native.Mathlib.Nat.{mod-lt, div-add-mod, mod-eq_of_lt, div-eq_of_lt}
use native.Mathlib.Omega.{arith}
use alive_next_deprecated.Prelude.Tests.{ltb, if◌then◌else◌, Bool-cases}

quotient_unique : (m q q' r r' : ℕ) → r < m → r' < m → m * q + r ≡ m * q' + r' → q ≡ q'
quotient_unique m q q' r r' h h' e = grind arith

pub div_unique : (m x q r : ℕ) → r < m → x ≡ m * q + r → x / m ≡ q
div_unique m x q r h e =
    quotient_unique m (x / m) q (x % m) r (mod-lt x (omega arith)) h (div-add-mod x m ∙ e)

pub mod_unique : (m x q r : ℕ) → r < m → x ≡ m * q + r → x % m ≡ r
mod_unique m x q r h e =
    omega (arith, div-add-mod x m, ap (λ (t : ℕ). m * t) (div_unique m x q r h e))

-- The wrap of a number below twice the modulus.
pub mod_once : (m x : ℕ) → x < m + m → x % m ≡ (if ltb x m then x else x - m)
mod_once m x h = elim (Bool-cases (ltb x m)) [
  | inl lt ↦ rw lt (mod-eq_of_lt (ground arith))
  | inr ge ↦ rw ge (mod_unique m x 1 (x - m) (ground arith) (ground arith))
]

pub div_once : (m x : ℕ) → x < m + m → x / m ≡ (if ltb x m then 0 else 1)
div_once m x h = elim (Bool-cases (ltb x m)) [
  | inl lt ↦ rw lt (div-eq_of_lt (ground arith))
  | inr ge ↦ rw ge (div_unique m x 1 (x - m) (ground arith) (ground arith))
]
