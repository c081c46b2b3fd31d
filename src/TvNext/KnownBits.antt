-- ===== src/TvNext/KnownBits.antt =====
-- What tv-next/range.cpp takes from LLVM: the masks of known bits and their transfer functions,
-- and the conversion of a constant range. Each law is the documented contract, that the result
-- describes the result of the operation on all values of the width that the arguments describe;
-- where a flag promises that the operation does not wrap, on those on which it does not.
use alive_next_deprecated.Prelude.{
  ℕ, ◌/◌, ◌%◌, ◌^◌, ◌+◌, ◌≡◌, ◌≤◌, ◌<◌, ◌≢◌, Bool, true, false, ltb, ◌⊎◌, if◌then◌else◌,
}
use alive_next_deprecated.Smt.Bv.{bvadd, bvsub, bvmul, bvlshr, bvand, bvor, bvxor, trunc, to_int}
use alive_next_deprecated.Prelude.Int.{◌+ℤ◌, ◌-ℤ◌}
use alive_next_deprecated.Smt.Overflow.Add.{fits_signed}

-- llvm::ConstantRange(lo, hi): from lo up to but not including hi, around the end where hi is the
-- smaller; the two sets with equal ends claim nothing.
abbrev pub Between : ℕ → ℕ → ℕ → Type 0
Between lo hi v =
    if ltb lo hi then (lo ≤ v) × (v < hi) else if ltb hi lo then (lo ≤ v) ⊎ (v < hi) else Unit {0}

pub record KnownBitsLib : Type 1 where
  pub KnownBits : Type 0
  -- The value of the given width agrees with the masks.
  pub Known : ℕ → KnownBits → ℕ → Type 0
  pub unknown : ℕ → KnownBits
  pub is_unknown : KnownBits → Bool
  pub make_constant : ℕ → ℕ → KnownBits
  -- Both masks at once: `Zero |= …; One |= …`.
  pub join : KnownBits → KnownBits → KnownBits
  pub intersect_with : KnownBits → KnownBits → KnownBits
  pub of_range : ℕ → ℕ → ℕ → KnownBits
  pub and_bits : KnownBits → KnownBits → KnownBits
  pub or_bits : KnownBits → KnownBits → KnownBits
  pub xor_bits : KnownBits → KnownBits → KnownBits
  pub urem : KnownBits → KnownBits → KnownBits
  pub udiv : KnownBits → KnownBits → KnownBits
  pub lshr : KnownBits → KnownBits → KnownBits
  pub ashr : KnownBits → KnownBits → KnownBits
  pub shl : Bool → Bool → KnownBits → KnownBits → KnownBits
  -- computeForAddSub: addition or subtraction, nsw, nuw.
  pub add_sub : Bool → Bool → Bool → KnownBits → KnownBits → KnownBits
  pub mul : KnownBits → KnownBits → KnownBits
  pub zext : ℕ → KnownBits → KnownBits
  pub sext : ℕ → KnownBits → KnownBits
  pub trunc : ℕ → KnownBits → KnownBits

-- The contracts, for values of width `w`.
pub record IsSoundLib (l : KnownBitsLib) : Type 0 where
  pub unknown_sound : (w v : ℕ) → v < 2 ^ w → l.Known w (l.unknown w) v
  pub constant_sound : (w v : ℕ) → v < 2 ^ w → l.Known w (l.make_constant w v) v
  pub join_sound :
      (w v : ℕ) (x y : l.KnownBits) → l.Known w x v → l.Known w y v → l.Known w (l.join x y) v
  pub intersect_left :
      (w v : ℕ) (x y : l.KnownBits) → l.Known w x v → l.Known w (l.intersect_with x y) v
  pub intersect_right :
      (w v : ℕ) (x y : l.KnownBits) → l.Known w y v → l.Known w (l.intersect_with x y) v
  pub range_sound :
      (w lo hi v : ℕ)
      → lo < 2 ^ w
      → hi < 2 ^ w
      → v < 2 ^ w
      → Between lo hi v
      → l.Known w (l.of_range w lo hi) v
  pub and_sound :
      (w a b : ℕ) (x y : l.KnownBits)
      → a < 2 ^ w
      → b < 2 ^ w
      → l.Known w x a
      → l.Known w y b
      → l.Known w (l.and_bits x y) (bvand a b)
  pub or_sound :
      (w a b : ℕ) (x y : l.KnownBits)
      → a < 2 ^ w
      → b < 2 ^ w
      → l.Known w x a
      → l.Known w y b
      → l.Known w (l.or_bits x y) (bvor a b)
  pub xor_sound :
      (w a b : ℕ) (x y : l.KnownBits)
      → a < 2 ^ w
      → b < 2 ^ w
      → l.Known w x a
      → l.Known w y b
      → l.Known w (l.xor_bits x y) (bvxor a b)
  pub urem_sound :
      (w a b : ℕ) (x y : l.KnownBits)
      → b ≢ 0
      → a < 2 ^ w
      → b < 2 ^ w
      → l.Known w x a
      → l.Known w y b
      → l.Known w (l.urem x y) (a % b)
  pub udiv_sound :
      (w a b : ℕ) (x y : l.KnownBits)
      → b ≢ 0
      → a < 2 ^ w
      → b < 2 ^ w
      → l.Known w x a
      → l.Known w y b
      → l.Known w (l.udiv x y) (a / b)
  pub lshr_sound :
      (w a b : ℕ) (x y : l.KnownBits)
      → b < w
      → a < 2 ^ w
      → b < 2 ^ w
      → l.Known w x a
      → l.Known w y b
      → l.Known w (l.lshr x y) (bvlshr a b)
  pub add_sound :
      (w a b : ℕ) (nsw nuw : Bool) (x y : l.KnownBits)
      → a < 2 ^ w
      → b < 2 ^ w
      → (nsw ≡ true → fits_signed w (to_int w a +ℤ to_int w b) ≡ true)
      → (nuw ≡ true → a + b < 2 ^ w)
      → l.Known w x a
      → l.Known w y b
      → l.Known w (l.add_sub true nsw nuw x y) (bvadd w a b)
  pub sub_sound :
      (w a b : ℕ) (nsw nuw : Bool) (x y : l.KnownBits)
      → a < 2 ^ w
      → b < 2 ^ w
      → (nsw ≡ true → fits_signed w (to_int w a -ℤ to_int w b) ≡ true)
      → (nuw ≡ true → b ≤ a)
      → l.Known w x a
      → l.Known w y b
      → l.Known w (l.add_sub false nsw nuw x y) (bvsub w a b)
  pub mul_sound :
      (w a b : ℕ) (x y : l.KnownBits)
      → a < 2 ^ w
      → b < 2 ^ w
      → l.Known w x a
      → l.Known w y b
      → l.Known w (l.mul x y) (bvmul w a b)
  pub zext_sound :
      (w w' a : ℕ) (x : l.KnownBits)
      → w ≤ w'
      → a < 2 ^ w
      → l.Known w x a
      → l.Known w' (l.zext w' x) a
  pub trunc_sound :
      (w w' a : ℕ) (x : l.KnownBits)
      → w' ≤ w
      → a < 2 ^ w
      → l.Known w x a
      → l.Known w' (l.trunc w' x) (trunc w' a)
