-- ===== src/Tests/Constants.antt =====
-- Known bits where all bits are known or none, and ranges of a small interval.
use alive_next_deprecated.Prelude.{
  ℕ, ◌/◌, ◌%◌, ◌^◌, ◌<◌, ◌≤◌, ◌≡◌, refl, Bool, true, false, Option, none, some, bit_and, bit_or,
  bit_xor,
}
use alive_next_deprecated.Smt.Bv.{bvlshr}
use alive_next_deprecated.TvNext.KnownBits.{KnownBitsLib, IsSoundLib}
use alive_next_deprecated.TvNext.Range.Defs.{Range}
use alive_next_deprecated.TvNext.Sound.Claims.{Holds, HoldsOpt}

abbrev lift : (ℕ → ℕ → ℕ) → Option ℕ → Option ℕ → Option ℕ
lift f (some x) (some y) = some (f x y)
lift f (some x) none = none
lift f none y = none

abbrev is_none : Option ℕ → Bool
is_none none = true
is_none (some x) = false

abbrev either : Option ℕ → Option ℕ → Option ℕ
either (some x) y = some x
either none y = y

abbrev truncated : ℕ → Option ℕ → Option ℕ
truncated w none = none
truncated w (some x) = some (x % 2 ^ w)

-- All bits are known, or none.
abbrev IsValue : ℕ → Option ℕ → ℕ → Type 0
IsValue w none v = Unit {0}
IsValue w (some c) v = v ≡ c

abbrev pub constants : KnownBitsLib
constants = record {
  KnownBits = Option ℕ;
  Known = IsValue;
  unknown = λ w. none;
  is_unknown = is_none;
  make_constant = λ w v. some v;
  join = either;
  intersect_with = λ x y. none;
  of_range = λ w lo hi. none;
  and_bits = lift bit_and;
  or_bits = lift bit_or;
  xor_bits = lift bit_xor;
  urem = lift ◌%◌;
  udiv = lift ◌/◌;
  lshr = lift bvlshr;
  ashr = λ x y. none;
  shl = λ nuw nsw x y. none;
  add_sub = λ add nsw nuw x y. none;
  mul = λ x y. none;
  zext = λ w x. x;
  sext = λ w x. none;
  trunc = truncated;
}

lift-IsValue :
    (f : ℕ → ℕ → ℕ) (w a b : ℕ) (x y : Option ℕ)
    → IsValue w x a
    → IsValue w y b
    → IsValue w (lift f x y) (f a b)
lift-IsValue f w a b none y p q = tt
lift-IsValue f w a b (some x) none p q = tt
lift-IsValue f w a b (some x) (some y) p q = rw (p, q) refl

either-IsValue :
    (w v : ℕ) (x y : Option ℕ) → IsValue w x v → IsValue w y v → IsValue w (either x y) v
either-IsValue w v none y p q = q
either-IsValue w v (some x) y p q = p

truncated-IsValue :
    (w w' a : ℕ) (x : Option ℕ) → IsValue w x a → IsValue w' (truncated w' x) (a % 2 ^ w')
truncated-IsValue w w' a none p = tt
truncated-IsValue w w' a (some x) p = rw p refl

zext-IsValue : (w w' a : ℕ) (x : Option ℕ) → IsValue w x a → IsValue w' x a
zext-IsValue w w' a none p = tt
zext-IsValue w w' a (some x) p = p

pub constants-IsSoundLib : IsSoundLib constants
constants-IsSoundLib = record {
  unknown_sound = λ w v lt. tt;
  constant_sound = λ w v lt. refl;
  join_sound = either-IsValue;
  intersect_left = λ w v x y p. tt;
  intersect_right = λ w v x y p. tt;
  range_sound = λ w lo hi v lo_lt hi_lt p q. tt;
  and_sound = λ w a b x y i j p q. lift-IsValue bit_and w a b x y p q;
  or_sound = λ w a b x y i j p q. lift-IsValue bit_or w a b x y p q;
  xor_sound = λ w a b x y i j p q. lift-IsValue bit_xor w a b x y p q;
  urem_sound = λ w a b x y n i j p q. lift-IsValue ◌%◌ w a b x y p q;
  udiv_sound = λ w a b x y n i j p q. lift-IsValue ◌/◌ w a b x y p q;
  lshr_sound = λ w a b x y n i j p q. lift-IsValue bvlshr w a b x y p q;
  add_sound = λ w a b m n x y i j s u p q. tt;
  sub_sound = λ w a b m n x y i j s u p q. tt;
  mul_sound = λ w a b x y i j p q. tt;
  zext_sound = λ w w' a x le i p. zext-IsValue w w' a x p;
  trunc_sound = λ w w' a x le i p. truncated-IsValue w w' a x p;
}

-- Between the two numbers, without a sign.
abbrev pub within : ℕ → ℕ → Range constants
within lo hi = record {
  u = some (lo, hi);
  s = none;
  bits = none;
  undef_free = true;
  poison_free = true;
}

pub within-Holds : (lo hi v : ℕ) → lo ≤ v → v ≤ hi → hi < 2 ^ 8 → Holds constants 8 (within lo hi) v
within-Holds lo hi v p q r = record { in_u = (p, q, r); in_s = tt; in_bits = tt }

abbrev pub some_within : ℕ → ℕ → Option (Range constants)
some_within lo hi = some (within lo hi)

pub within-HoldsOpt :
    (lo hi v : ℕ) → lo ≤ v → v ≤ hi → hi < 2 ^ 8 → HoldsOpt constants 8 (some_within lo hi) v
within-HoldsOpt lo hi v p q r = HoldsOpt.entry (within-Holds lo hi v p q r)
