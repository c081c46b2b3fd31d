-- ===== src/Ir/Blocks/Laws.antt =====
-- About `disjoint` of ir/memory.cpp.
use alive_next_deprecated.Prelude.{
  ℕ, suc, ◌+◌, ◌*◌, ◌/◌, ◌%◌, ◌^◌, ◌≤◌, ◌<◌, ◌≡◌, ◌≢◌, refl, ap, sym, ◌∙◌, arith, Bool, true, false,
  ◌&&◌, ◌||◌, not, ltb, leb, ◌==◌, Option, none, some, Bool-cases, inl, inr, ◌↔◌, ◌⊎◌,
}
use mathlib.Core.Path.{subst}
use alive_next_deprecated.Prelude.Pow.{pow_mono, pow-double, pow-pos}
use native.Mathlib.Nat.{mod-eq_of_lt, mul-le-mul_left, div-add-mod}
use alive_next_deprecated.Smt.Bv.{bvadd}
use alive_next_deprecated.Ir.Blocks.{SeenBlocks, disjoint, align_ge_size}

-- Multiples of a step that differ are a step apart.
step_apart : (n q r : ℕ) → q < r → n * q + n ≤ n * r
step_apart n q r h = omega (arith, mul-le-mul_left {m = suc q} {n = r} n h)

whole : (n b : ℕ) → b % n ≡ 0 → b ≡ n * (b / n)
whole n b h = omega (arith, div-add-mod b n)

multiples_apart : (n a b : ℕ) → a % n ≡ 0 → b % n ≡ 0 → a ≢ b → (a + n ≤ b) ⊎ (b + n ≤ a)
multiples_apart n a b p q h = elim (Bool-cases (ltb (a / n) (b / n))) [
  | inl e ↦
      inl (omega (arith, whole n a p, whole n b q, step_apart n (a / n) (b / n) (ground arith)))
  | inr e ↦ elim (Bool-cases (ltb (b / n) (a / n))) [
    | inl f ↦
        inr (omega (arith, whole n a p, whole n b q, step_apart n (b / n) (a / n) (ground arith)))
    | inr f ↦
        let same : a / n ≡ b / n = ground arith in
        absurd (h (whole n a p ∙ (ap (λ k. n * k) same ∙ sym (whole n b q))))
  ]
]

-- The two ranges have no address in common.
pub Apart : ℕ → ℕ → ℕ → ℕ → Type 0
Apart b1 l1 b2 l2 = (a : ℕ) → b1 ≤ a → a < b1 + l1 → b2 ≤ a → b2 + l2 ≤ a

-- What the code sees is so: constant sizes are the sizes, equal alignments have one constant, and
-- the blocks start at multiples of their alignments.
pub record IsSeen (s : SeenBlocks) (b1 l1 b2 l2 : ℕ) : Type 0 where
  pub same : (j k : ℕ) → s.same_align ≡ true → s.align1 ≡ some j → s.align2 ≡ some k → j ≡ k
  pub small1 : (k : ℕ) → s.align1 ≡ some k → k < 64
  pub aligned1 : (k : ℕ) → s.align1 ≡ some k → b1 % 2 ^ k ≡ 0
  pub aligned2 : (k : ℕ) → s.align2 ≡ some k → b2 % 2 ^ k ≡ 0
  pub size1 : (n : ℕ) → s.len1 ≡ some n → n ≡ l1
  pub size2 : (n : ℕ) → s.len2 ≡ some n → n ≡ l2

module _ (b1 l1 b2 l2 : ℕ) (p : 0 < l1) (q : 0 < l2) where
  tests_sound : (leb (b2 + l2) b1 || leb (b1 + l1) b2) ≡ true → Apart b1 l1 b2 l2
  unfolding Apart
  tests_sound h a t u v = ground arith

  tests_complete : Apart b1 l1 b2 l2 → (leb (b2 + l2) b1 || leb (b1 + l1) b2) ≡ true
  unfolding Apart
  tests_complete h = elim (Bool-cases (leb b1 b2)) [
    | inl e ↦ elim (Bool-cases (leb (b1 + l1) b2)) [
      | inl f ↦ ground arith
      | inr f ↦
          let clash : b2 + l2 ≤ b2 = h b2 (ground arith) (ground arith) (omega arith) in
          absurd (omega arith)
    ]
    | inr e ↦ elim (Bool-cases (leb (b2 + l2) b1)) [
      | inl f ↦ ground arith
      | inr f ↦
          let clash : b2 + l2 ≤ b1 = h b1 (omega arith) (omega arith) (ground arith) in
          absurd (ground arith)
    ]
  ]

  -- Blocks no larger than the step that their starts are multiples of.
  steps_iff :
      (n : ℕ)
      → b1 % n ≡ 0
      → b2 % n ≡ 0
      → l1 ≤ n
      → l2 ≤ n
      → (not (b1 == b2) ≡ true) ↔ Apart b1 l1 b2 l2
  unfolding Apart
  steps_iff n x y f g = (
    λ h a t u v. elim (multiples_apart n b1 b2 x y (λ e. absurd (ground (arith, e)))) [
      | inl z ↦ absurd (omega arith)
      | inr z ↦ omega arith
    ],
    λ h. elim (Bool-cases (b1 == b2)) [
      | inl e ↦
          let clash : b2 + l2 ≤ b2 = h b2 (ground arith) (ground arith) (omega arith) in
          absurd (omega arith)
      | inr e ↦ rw e refl
    ],
  )

ranges_iff :
    (w b1 l1 b2 l2 : ℕ)
    → 0 < l1
    → 0 < l2
    → b1 + l1 < 2 ^ w
    → b2 + l2 < 2 ^ w
    → ((leb (bvadd w b2 l2) b1 || leb (bvadd w b1 l1) b2) ≡ true) ↔ Apart b1 l1 b2 l2
ranges_iff w b1 l1 b2 l2 p q f g =
    rw (mod-eq_of_lt {n = b1 + l1} {m = 2 ^ w} f, mod-eq_of_lt {n = b2 + l2} {m = 2 ^ w} g)
      (tests_sound b1 l1 b2 l2 p q, tests_complete b1 l1 b2 l2 p q)

fits_align :
    (a n : Option ℕ)
    → align_ge_size a n ≡ true
    → (k : ℕ) × ((m : ℕ) × ((a ≡ some k) × ((n ≡ some m) × (leb m (2 ^ k % 2 ^ 64) ≡ true))))
unfolding align_ge_size
fits_align none n h = absurd (ground arith)
fits_align (some k) none h = absurd (ground arith)
fits_align (some k) (some m) h = (k, (m, (refl, (refl, h))))

both_true : (a b c : Bool) → (a && (b && c)) ≡ true → (a ≡ true) × ((b ≡ true) × (c ≡ true))
both_true true true true h = (refl, (refl, refl))
both_true true true false h = absurd (ground arith)
both_true true false c h = absurd (ground arith)
both_true false b c h = absurd (ground arith)

pow_lt : (k n : ℕ) → k < n → 2 ^ k < 2 ^ n
pow_lt k n h = omega (arith, pow_mono (suc k) n h, pow-double k, pow-pos k)

fits_step : (m k l : ℕ) → k < 64 → leb m (2 ^ k % 2 ^ 64) ≡ true → m ≡ l → l ≤ 2 ^ k
fits_step m k l small h e =
    let exact : 2 ^ k % 2 ^ 64 ≡ 2 ^ k =
      mod-eq_of_lt {n = 2 ^ k} {m = 2 ^ 64} (pow_lt k 64 small) in
    ground arith

-- Two blocks that are not empty and whose ends, the addresses after them, are addresses of `w` bits
-- too are disjoint for the test exactly where no address is in both, also where it only compares
-- the starts; what the code sees of sizes and alignments must be so.
pub disjoint_iff :
    (w : ℕ) (s : SeenBlocks) (b1 l1 b2 l2 : ℕ)
    → 0 < l1
    → 0 < l2
    → b1 + l1 < 2 ^ w
    → b2 + l2 < 2 ^ w
    → IsSeen s b1 l1 b2 l2
    → (disjoint w s b1 l1 b2 l2 ≡ true) ↔ Apart b1 l1 b2 l2
unfolding disjoint
disjoint_iff w s b1 l1 b2 l2 p q f g seen =
    elim (Bool-cases
      (s.same_align && (align_ge_size s.align1 s.len1 && align_ge_size s.align2 s.len2))) [
        | inl e ↦ rw e (aligned e)
        | inr e ↦ rw e (ranges_iff w b1 l1 b2 l2 p q f g)
      ]
  where
    aligned :
        (s.same_align && (align_ge_size s.align1 s.len1 && align_ge_size s.align2 s.len2)) ≡ true
        → (not (b1 == b2) ≡ true) ↔ Apart b1 l1 b2 l2
    aligned e =
        let (same, (fit1, fit2)) =
          both_true s.same_align (align_ge_size s.align1 s.len1) (align_ge_size s.align2 s.len2)
            e in
        let (k, (m, (ak, (lm, le1)))) = fits_align s.align1 s.len1 fit1 in
        let (j, (n, (aj, (ln, le2)))) = fits_align s.align2 s.len2 fit2 in
        let one : k ≡ j = seen.same k j same ak aj in
        let small : k < 64 = seen.small1 k ak in
        steps_iff b1 l1 b2 l2 p q (2 ^ k) (seen.aligned1 k ak)
          (subst (λ i. b2 % 2 ^ i ≡ 0) (sym one) (seen.aligned2 j aj))
          (fits_step m k l1 small le1 (seen.size1 m lm))
          (fits_step n k l2 small (subst (λ i. leb n (2 ^ i % 2 ^ 64) ≡ true) (sym one) le2)
            (seen.size2 n ln))
