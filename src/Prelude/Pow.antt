-- ===== src/Prelude/Pow.antt =====
-- Powers of two at a variable exponent.
use Prim.Native.Nat.{ℕ, zero, suc, ◌+◌, ◌-◌, ◌*◌, ◌^◌, ◌≤◌, ◌<◌}
use mathlib.Core.Path.{◌≡◌, ap, ◌∙◌}
use native.Mathlib.Nat.{pow-suc, one-le-pow, pow-zero, pow-le-pow_right}
use native.Mathlib.Omega.{arith}

pub pow-pos : (k : ℕ) → 0 < 2 ^ k
pow-pos k = one-le-pow k 2 (omega arith)

pub pow-double : (k : ℕ) → 2 ^ suc k ≡ 2 ^ k + 2 ^ k
pow-double k = omega (arith, pow-suc 2 k)

pub pow-succ : (k : ℕ) → 2 ^ (k + 1) ≡ 2 ^ k + 2 ^ k
pow-succ k = ap (λ (t : ℕ). 2 ^ t) (omega arith) ∙ pow-double k

pub pow-half : (w : ℕ) → 0 < w → 2 ^ w ≡ 2 ^ (w - 1) + 2 ^ (w - 1)
pow-half zero h = elim h [ ]
pow-half (suc k) h =
    pow-double k ∙ ap (λ (t : ℕ). 2 ^ t + 2 ^ t) {x = k} {y = suc k - 1} (omega arith)

pub pow-add : (j k : ℕ) → 2 ^ (j + k) ≡ 2 ^ j * 2 ^ k
pow-add j zero = ap (λ (t : ℕ). 2 ^ t) {x = j + 0} {y = j} (omega arith) ∙ omega (arith, pow-zero 2)
pow-add j (suc k) =
    ap (λ (t : ℕ). 2 ^ t) {x = j + suc k} {y = suc (j + k)} (omega arith)
    ∙ pow-double (j + k)
    ∙ ap (λ (t : ℕ). t + t) (pow-add j k)
    ∙ omega (arith, ap (λ (t : ℕ). 2 ^ j * t) (pow-double k))

pub pow_mono : (j k : ℕ) → j ≤ k → 2 ^ j ≤ 2 ^ k
pow_mono j k h = pow-le-pow_right (omega arith) h

pub lt-pow : (n : ℕ) → n < 2 ^ n
lt-pow zero = omega (arith, pow-zero 2)
lt-pow (suc n) = omega (arith, lt-pow n, pow-double n)
