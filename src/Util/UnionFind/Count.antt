-- ===== src/Util/UnionFind/Count.antt =====
-- The number of the elements that are not their own successor (util/unionfind.cpp).
use alive_next_deprecated.Prelude.{
  ℕ, zero, suc, ◌+◌, ◌≤◌, ◌<◌, ◌≡◌, ◌≢◌, refl, ap, sym, ◌∙◌, arith, ◌==◌, false, ltb, List, length,
  get_or, set, get_or-set_self, get_or-set_ne, if◌then◌else◌, Bool-cases, inl, inr,
}
use mathlib.Core.Path.{subst}

abbrev pub at : List ℕ → ℕ → ℕ
at id x = get_or id x 0

-- Among the first `k`.
abbrev pub moved : List ℕ → ℕ → ℕ
moved id zero = 0
moved id (suc k) = moved id k + (if k == at id k then 0 else 1)

pub moved_le : (id : List ℕ) (k : ℕ) → moved id k ≤ k
moved_le id zero = omega arith
moved_le id (suc k) = elim (Bool-cases (k == at id k)) [
  | inl e ↦ rw e (omega (arith, moved_le id k))
  | inr e ↦ rw e (omega (arith, moved_le id k))
]

module _ (id : List ℕ) (i v : ℕ) (inside : i < length id) where
  pub at-set_self : at (set id i v) i ≡ v
  at-set_self = get_or-set_self id i v 0 inside

  pub at-set_ne : (x : ℕ) → i ≢ x → at (set id i v) x ≡ at id x
  at-set_ne x h = get_or-set_ne id i x v 0 h

  -- An element that keeps or loses being its own successor.
  pub moved-set_same : (i == v) ≡ (i == at id i) → (k : ℕ) → moved (set id i v) k ≡ moved id k
  moved-set_same h zero = refl
  moved-set_same h (suc k) = elim (Bool-cases (i == k)) [
    | inl e ↦
        let same : k ≡ i = ground arith in
        let new : at (set id i v) k ≡ v = ap (at (set id i v)) same ∙ at-set_self in
        let old : at id k ≡ at id i = ap (at id) same in
        rw (new, old, moved-set_same h k)
          (ap (λ b. moved id k + (if b then 0 else 1))
            (ap (λ t. t == v) same ∙ (h ∙ ap (λ t. t == at id i) (sym same))))
    | inr e ↦
        let other : i ≢ k = λ q. absurd (ground (arith, q)) in
        rw (at-set_ne k other, moved-set_same h k) refl
  ]

  pub moved-set_more :
      i ≢ v → at id i ≡ i → (k : ℕ) → moved (set id i v) k ≡ moved id k + (if ltb i k then 1 else 0)
  moved-set_more n e zero = ground arith
  moved-set_more n e (suc k) = elim (Bool-cases (i == k)) [
    | inl q ↦
        let same : k ≡ i = ground arith in
        let new : at (set id i v) k ≡ v = ap (at (set id i v)) same ∙ at-set_self in
        let old : at id k ≡ k = ap (at id) same ∙ (e ∙ sym same) in
        let apart : (k == v) ≡ false = differ same in
        rw (new, old, moved-set_more n e k, apart) (ground arith)
    | inr q ↦
        let other : i ≢ k = λ r. absurd (ground (arith, r)) in
        rw (at-set_ne k other, moved-set_more n e k) (ground arith)
  ]
    where
      differ : k ≡ i → (k == v) ≡ false
      differ same = elim (Bool-cases (k == v)) [
        | inl r ↦ let kv : k ≡ v = ground arith in absurd (n (sym same ∙ kv))
        | inr r ↦ r
      ]

  -- What holds of the written element and of the others holds of all.
  pub at-split :
      (P : ℕ → ℕ → Type 0)
      → P i v
      → ((x : ℕ) → i ≢ x → P x (at id x))
      → (x : ℕ) → P x (at (set id i v) x)
  at-split P p others x = elim (Bool-cases (i == x)) [
    | inl e ↦
        let same : i ≡ x = ground arith in
        subst (λ y. P y (at (set id i v) y)) same (subst (P i) (sym at-set_self) p)
    | inr e ↦
        let apart : i ≢ x = λ h. absurd (ground (arith, h)) in
        subst (P x) (sym (at-set_ne x apart)) (others x apart)
  ]
