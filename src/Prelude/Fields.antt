-- ===== src/Prelude/Fields.antt =====
-- Fields of a word: the `n` digits from position `s`, and how words are put together.
use Prim.Native.Nat.{ℕ, suc, ◌+◌, ◌*◌, ◌-◌, ◌/◌, ◌%◌, ◌^◌, ◌≤◌, ◌<◌}
use mathlib.Core.Path.{◌≡◌, sym, ap, ◌∙◌}
use native.Mathlib.Nat.{
  div-div-eq-div-mul, mod-eq_of_lt, mul-le-mul_right, add-mul, mul-add-div_right, mul-add-div,
  mul-add-mod_self_right, div-eq_of_lt,
}
use native.Mathlib.Omega.{arith}
use alive_next_deprecated.Prelude.Pow.{pow-add, pow-pos}

abbrev pub field : ℕ → ℕ → ℕ → ℕ
field s n v = v / 2 ^ s % 2 ^ n

-- `a` above `b`.
abbrev pub above : ℕ → ℕ → ℕ → ℕ
above wb a b = a * 2 ^ wb + b

pub above-lt : (wa wb a b : ℕ) → a < 2 ^ wa → b < 2 ^ wb → above wb a b < 2 ^ (wa + wb)
above-lt wa wb a b p q = omega (
  arith,
  mul-le-mul_right {m = suc a} {n = 2 ^ wa} (2 ^ wb) p,
  add-mul 1 a (2 ^ wb),
  pow-add wa wb,
)

above-div : (wb a b : ℕ) → b < 2 ^ wb → above wb a b / 2 ^ wb ≡ a
above-div wb a b q =
    mul-add-div_right (pow-pos wb) a b ∙ omega (arith, div-eq_of_lt {n = b} {m = 2 ^ wb} q)

-- A field of the upper part.
pub field-above : (wb s n a b : ℕ) → b < 2 ^ wb → field (wb + s) n (above wb a b) ≡ field s n a
field-above wb s n a b q =
    ap (λ x. x % 2 ^ n)
      (ap (λ d. above wb a b / d) (pow-add wb s)
        ∙ (sym (div-div-eq-div-mul (above wb a b) (2 ^ wb) (2 ^ s))
            ∙ ap (λ x. x / 2 ^ s) (above-div wb a b q)))

swap : (a b c d : ℕ) → a * (b * (c * d)) ≡ b * (a * c * d)
swap a b c d = omega arith

-- A field of the lower part.
pub field-below : (wb s n a b : ℕ) → s + n ≤ wb → field s n (above wb a b) ≡ field s n b
field-below wb s n a b p =
    ap (λ x. x % 2 ^ n)
      (ap (λ x. (x + b) / 2 ^ s) (ap (λ x. a * x) whole ∙ turn)
        ∙ mul-add-div (pow-pos s) (a * 2 ^ u * 2 ^ n) b)
    ∙ mul-add-mod_self_right (a * 2 ^ u) (2 ^ n) (b / 2 ^ s)
  where
    u : ℕ
    u = wb - s - n

    whole : 2 ^ wb ≡ 2 ^ s * (2 ^ u * 2 ^ n)
    whole = ap (λ k. 2 ^ k) (omega arith) ∙ (pow-add s (u + n) ∙ ap (λ k. 2 ^ s * k) (pow-add u n))

    turn : a * (2 ^ s * (2 ^ u * 2 ^ n)) ≡ 2 ^ s * (a * 2 ^ u * 2 ^ n)
    turn = swap a (2 ^ s) (2 ^ u) (2 ^ n)

pub field-whole : (n a : ℕ) → a < 2 ^ n → field 0 n a ≡ a
field-whole n a p = ap (λ x. x % 2 ^ n) (omega arith) ∙ mod-eq_of_lt p
