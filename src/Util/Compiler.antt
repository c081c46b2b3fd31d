-- ===== src/Util/Compiler.antt =====
-- util/compiler.cpp: logarithms, saturated and rounded arithmetic on uint64_t.
pub mod Laws
use alive_next_deprecated.Prelude.{
  bit_and, ℕ, zero, suc, ◌+◌, ◌-◌, ◌*◌, ◌/◌, ◌%◌, ◌^◌, ◌<◌, ◌≤◌, ◌≡◌, refl, arith, Bool, true,
  false, not, ◌&&◌, ltb, leb, ◌==◌, if◌then◌else◌, min, Bool-cases, inl, inr, ap, ◌∙◌, sym,
}
use native.Mathlib.Nat.{mod-eq_of_lt, mod-lt, div-add-mod}
use alive_next_deprecated.Prelude.Div.{mod_once}

abbrev pub u64 : ℕ
u64 = 2 ^ 64

abbrev pub u64_max : ℕ
u64_max = 2 ^ 64 - 1

-- std::bit_width of a number of `n` bits: the digits up to the highest one.
unfoldable pub bit_width : ℕ → ℕ → ℕ
bit_width zero x = 0
bit_width (suc n) x = let rest = bit_width n (x / 2) in if x == 0 then 0 else suc rest

unfoldable pub has_single_bit : ℕ → Bool
has_single_bit n = not (n == 0) && (bit_and n (n - 1) == 0)

unfoldable pub ilog2 : ℕ → ℕ
ilog2 n = if n == 0 then 0 else bit_width 64 n - 1

unfoldable pub is_power2 : ℕ → Bool
is_power2 n = has_single_bit n

unfoldable pub ilog2_ceil : ℕ → Bool → ℕ
ilog2_ceil n up_power2 = let log = ilog2 n in if not up_power2 && is_power2 n then log else log + 1

unfoldable pub add_saturate : ℕ → ℕ → ℕ
add_saturate a b = if leb u64 (a + b) then u64_max else (a + b) % u64

unfoldable pub mul_saturate : ℕ → ℕ → ℕ
mul_saturate a b = if leb u64 (a * b) then u64_max else a * b % u64

-- The sum and the difference wrap.
unfoldable pub divide_up : ℕ → ℕ → ℕ
divide_up n amount = ((n + amount) % u64 + (u64 - 1)) % u64 / amount

unfoldable pub round_up : ℕ → ℕ → ℕ
unfolding divide_up
round_up n amount = divide_up n amount * amount % u64
