-- ===== src/Smt/Exprs/Denotes.antt =====
-- About the terms that DisjointExpr and FunctionExpr build (smt/exprs.h, smt/exprs.cpp).
use alive_next_deprecated.Prelude.{
  Bool, true, false, ◌||◌, Option, none, some, List, [], ◌∷◌, if◌then◌else◌, ◌≡◌, refl, ap, sym,
  ◌∙◌, arith, Bool-cases, inl, inr,
}
use alive_next_deprecated.Smt.Exprs.{Terms, insert, add, mk_loop, mk, call, add_all}

-- What the builders mean in one assignment of the variables: the value of a term, and whether a
-- domain holds.
pub record Meaning {ℓ} {t d : Type ℓ} (s : Terms t d) (v : Type ℓ) : Type ℓ where
  pub value : t → v
  pub holds : d → Bool
  pub equal_keys : (a b : t) → s.before a b ≡ false → s.before b a ≡ false → value a ≡ value b
  pub is_true_holds : (x : d) → s.is_true x ≡ true → holds x ≡ true
  pub is_false_fails : (x : d) → s.is_false x ≡ true → holds x ≡ false
  pub either_holds : (x y : d) → holds (s.either x y) ≡ (holds x || holds y)
  pub mk_if_value :
      (x : d) (a b : t) → value (s.mk_if x a b) ≡ (if holds x then value a else value b)

module _ {ℓ} {t d v : Type ℓ} (s : Terms t d) (m : Meaning s v) where
  abbrev pub any_holds : List (t × d) → Bool
  any_holds [] = false
  any_holds (e ∷ es) = m.holds e.1 || any_holds es

  -- Every entry whose domain holds has the value `x`.
  abbrev pub Agree : v → List (t × d) → Type ℓ
  Agree x [] = Unit
  Agree x (e ∷ es) = (m.holds e.1 ≡ true → m.value e.0 ≡ x) × Agree x es

or_split : (a b : Bool) → (a || b) ≡ true → a ≡ false → b ≡ true
or_split a b h k = ground arith

or_shift : (a b c : Bool) → (b || (a || c)) ≡ (a || (b || c))
or_shift a b c = ground arith

chosen {ℓ} :
    {v : Type ℓ} (c b : Bool) (x y r : v)
    → (c ≡ true → y ≡ x)
    → (if b then x else if c then y else r) ≡ (if c || b then x else r)
chosen true true x y r h = refl
chosen true false x y r h = h refl
chosen false true x y r h = refl
chosen false false x y r h = refl

or_merge : (a b c : Bool) → ((b || a) || c) ≡ (a || (b || c))
or_merge a b c = ground arith

module _ {ℓ} {t d v : Type ℓ} (s : Terms t d) (m : Meaning s v) (x : v) where
  Agree-insert :
      (val : t) (dom : d) (es : List (t × d))
      → (m.holds dom ≡ true → m.value val ≡ x)
      → Agree s m x es
      → Agree s m x (insert s val dom es)
  Agree-insert val dom [] h a = (h, a)
  Agree-insert val dom (e ∷ es) h (g, a) = elim (Bool-cases (s.before val e.0)) [
    | inl p ↦ rw p (h, (g, a))
    | inr p ↦ elim (Bool-cases (s.before e.0 val)) [
      | inl q ↦ rw (p, q) (g, Agree-insert val dom es h a)
      | inr q ↦ rw (p, q) (merged p q, a)
    ]
  ]
    where
      merged :
          s.before val e.0 ≡ false
          → s.before e.0 val ≡ false
          → m.holds (s.either e.1 dom) ≡ true
          → m.value e.0 ≡ x
      merged p q k = elim (Bool-cases (m.holds e.1)) [
        | inl y ↦ g y
        | inr n ↦
            m.equal_keys e.0 val q p
            ∙ h (or_split (m.holds e.1) (m.holds dom) (sym (m.either_holds e.1 dom) ∙ k) n)
      ]

  any-insert :
      (val : t) (dom : d) (es : List (t × d))
      → any_holds s m (insert s val dom es) ≡ (m.holds dom || any_holds s m es)
  any-insert val dom [] = refl
  any-insert val dom (e ∷ es) = elim (Bool-cases (s.before val e.0)) [
    | inl p ↦ rw p refl
    | inr p ↦ elim (Bool-cases (s.before e.0 val)) [
      | inl q ↦
          rw (p, q)
            (ap (λ b. m.holds e.1 || b) (any-insert val dom es)
              ∙ or_shift (m.holds dom) (m.holds e.1) (any_holds s m es))
      | inr q ↦
          rw (p, q)
            (ap (λ b. b || any_holds s m es) (m.either_holds e.1 dom)
              ∙ or_merge (m.holds dom) (m.holds e.1) (any_holds s m es))
    ]
  ]

  Agree-add :
      (vals : List (t × d)) (val : t) (dom : d)
      → (m.holds dom ≡ true → m.value val ≡ x)
      → Agree s m x vals
      → Agree s m x (add s vals val dom)
  unfolding add
  Agree-add vals val dom h a = elim (Bool-cases (s.is_false dom)) [
    | inl p ↦ rw p a
    | inr p ↦
        rw p (Agree-insert val dom (if s.is_true dom then [] else vals) h (kept (s.is_true dom)))
  ]
    where
      kept : (b : Bool) → Agree s m x (if b then [] else vals)
      kept true = tt
      kept false = a

  -- What is added or held before still holds somewhere, if the domains that hold agree.
  any-add :
      (vals : List (t × d)) (val : t) (dom : d)
      → (m.holds dom || any_holds s m vals) ≡ true
      → any_holds s m (add s vals val dom) ≡ true
  unfolding add
  any-add vals val dom h = elim (Bool-cases (s.is_false dom)) [
    | inl p ↦ rw p (or_split (m.holds dom) (any_holds s m vals) h (m.is_false_fails dom p))
    | inr p ↦ elim (Bool-cases (s.is_true dom)) [
      | inl q ↦ rw (p, q) (any-insert val dom [] ∙ ap (λ b. b || false) (m.is_true_holds dom q))
      | inr q ↦ rw (p, q) (any-insert val dom vals ∙ h)
    ]
  ]

  -- The value that the loop gives from a value so far.
  mk_loop_from :
      (vals : List (t × d)) (r : t)
      → Agree s m x vals
      → (u : t) × ((mk_loop s vals (some r) ≡ some u)
          × (m.value u ≡ (if any_holds s m vals then x else m.value r)))
  unfolding mk_loop
  mk_loop_from [] r a = (r, (refl, refl))
  mk_loop_from (e ∷ es) r (g, a) = elim (Bool-cases (s.is_true e.1)) [
    | inl p ↦ (e.0, (rw p refl, rw (m.is_true_holds e.1 p) (g (m.is_true_holds e.1 p))))
    | inr p ↦
        let (u, (k, w)) = mk_loop_from es (s.mk_if e.1 e.0 r) a in
        (
          u,
          (
            rw p k,
            w
                ∙ (ap (λ z. if any_holds s m es then x else z) (m.mk_if_value e.1 e.0 r)
                    ∙ chosen (m.holds e.1) (any_holds s m es) x (m.value e.0) (m.value r) g),
          ),
        )
  ]

  -- The loop from nothing, where some domain holds.
  mk_loop_lem :
      (vals : List (t × d))
      → Agree s m x vals
      → any_holds s m vals ≡ true
      → (u : t) × ((mk_loop s vals none ≡ some u) × (m.value u ≡ x))
  unfolding mk_loop
  mk_loop_lem [] a h = absurd (ground arith)
  mk_loop_lem (e ∷ es) (g, a) h = elim (Bool-cases (s.is_true e.1)) [
    | inl p ↦ (e.0, (rw p refl, g (m.is_true_holds e.1 p)))
    | inr p ↦
        let (u, (k, w)) = mk_loop_from es e.0 a in
        (u, (rw p k, w ∙ reached (m.holds e.1) (any_holds s m es) g h))
  ]
    where
      reached :
          (c b : Bool)
          → (c ≡ true → m.value e.0 ≡ x)
          → (c || b) ≡ true
          → (if b then x else m.value e.0) ≡ x
      reached c true g h = refl
      reached true false g h = g refl
      reached false false g h = absurd (ground arith)

  add_all-both :
      (es vals : List (t × d))
      → Agree s m x es
      → Agree s m x vals
      → (any_holds s m es || any_holds s m vals) ≡ true
      → Agree s m x (add_all s vals es) × (any_holds s m (add_all s vals es) ≡ true)
  unfolding add_all
  add_all-both [] vals a b h = (b, h)
  add_all-both (e ∷ es) vals (g, a) b h =
      add_all-both es (add s vals e.0 e.1) a (Agree-add vals e.0 e.1 g b) (
        somewhere (m.holds e.1) (any_holds s m es) (any_holds s m vals)
          (any_holds s m (add s vals e.0 e.1)) h (any-add vals e.0 e.1))
    where
      somewhere :
          (a b c r : Bool) → ((a || b) || c) ≡ true → ((a || c) ≡ true → r ≡ true) → (b || r) ≡ true
      somewhere a true c r h k = refl
      somewhere true false c r h k = k refl
      somewhere false false c r h k = k h

-- A DisjointExpr to which pairs of a value and a domain have been added, in any order and with any
-- repetitions, gives a term, whatever its default, and the term means `x`, if some of the domains
-- holds and every pair whose domain holds means `x`.
pub call-Denotes {ℓ} :
    {t d v : Type ℓ} (s : Terms t d) (m : Meaning s v) (x : v) (es : List (t × d))
    (default_val : Option t)
    → Agree s m x es
    → any_holds s m es ≡ true
    → (u : t) × ((call s (add_all s [] es) default_val ≡ some u) × (m.value u ≡ x))
unfolding call mk add_all
call-Denotes s m x es default_val a h =
    let (b, k) = add_all-both s m x es [] a tt (or_nil (any_holds s m es) h) in
    let (u, (e, w)) = mk_loop_lem s m x (add_all s [] es) b k in
    (u, (ap (λ o. elim o [ none ↦ default_val | some r ↦ some r ]) e, w))
  where
    or_nil : (b : Bool) → b ≡ true → (b || false) ≡ true
    or_nil b h = ground arith
