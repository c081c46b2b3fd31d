-- ===== src/Ir/MemoryAccess/Query.antt =====
-- About the questions on several kinds of memory of MemoryAccess (ir/attrs.cpp).
use alive_next_deprecated.Prelude.{
  ℕ, ◌≡◌, refl, ap, sym, ◌∙◌, arith, Bool, true, false, ◌&&◌, not, ◌==◌, if◌then◌else◌, ◌↔◌,
  Bool-cases, inl, inr,
}
use alive_next_deprecated.Ir.MemoryAccess.{
  AccessType, index, same_type, all_types, every, can_read, can_write, can_only_read,
  can_only_write, can_access_anything, can_read_anything, can_write_anything,
}

module _ (test : AccessType → Bool) where
  every_sound : every test all_types ≡ true → (t : AccessType) → test t ≡ true
  every_sound h AccessType.args = ground arith
  every_sound h AccessType.globals = ground arith
  every_sound h AccessType.inaccessible = ground arith
  every_sound h AccessType.errno = ground arith
  every_sound h AccessType.other = ground arith

  every_complete : ((t : AccessType) → test t ≡ true) → every test all_types ≡ true
  every_complete h =
      rw
        (
          h AccessType.args,
          h AccessType.globals,
          h AccessType.inaccessible,
          h AccessType.errno,
          h AccessType.other,
        )
        refl

kept : (same b : Bool) → not (not same && b) ≡ true → b ≡ true → same ≡ true
kept same b h e = ground arith

of_index : ℕ → AccessType
of_index n =
    if n == 0
    then AccessType.args
    else if n == 1
    then AccessType.globals
    else if n == 2
    then AccessType.inaccessible
    else if n == 3
    then AccessType.errno
    else AccessType.other

of_index-index : (t : AccessType) → of_index (index t) ≡ t
unfolding of_index index
of_index-index AccessType.args = refl
of_index-index AccessType.globals = refl
of_index-index AccessType.inaccessible = refl
of_index-index AccessType.errno = refl
of_index-index AccessType.other = refl

same_type_sound : (s t : AccessType) → same_type s t ≡ true → s ≡ t
unfolding same_type
same_type_sound s t h =
    let e : index s ≡ index t = ground arith in
    sym (of_index-index s) ∙ (ap of_index e ∙ of_index-index t)

same_type_self : (t : AccessType) → same_type t t ≡ true
unfolding same_type
same_type_self t = ground arith

taken : (b c : Bool) → (if b then c else false) ≡ true → (b ≡ true) × (c ≡ true)
taken true c h = (refl, h)
taken false c h = absurd (ground arith)

only_sound :
    (f : AccessType → Bool) (ty : AccessType)
    → (if every (λ t. not (not (same_type t ty) && f t)) all_types then f ty else false) ≡ true
    → (t : AccessType) → f t ≡ same_type t ty
only_sound f ty h t =
    let test : AccessType → Bool = λ t. not (not (same_type t ty) && f t) in
    let (e, g) = taken (every test all_types) (f ty) h in
    let at : test t ≡ true = every_sound test e t in
    elim (Bool-cases (f t)) [
      | inl p ↦ p ∙ sym (kept (same_type t ty) (f t) at p)
      | inr p ↦ elim (Bool-cases (same_type t ty)) [
        | inl q ↦ absurd (cc (ap f (same_type_sound t ty q)))
        | inr q ↦ p ∙ sym q
      ]
    ]

only_complete :
    (f : AccessType → Bool) (ty : AccessType)
    → ((t : AccessType) → f t ≡ same_type t ty)
    → (if every (λ t. not (not (same_type t ty) && f t)) all_types then f ty else false) ≡ true
only_complete f ty h =
    rw
      (every_complete (λ t. not (not (same_type t ty) && f t))
        (λ t. rw (h t) (never (same_type t ty))))
      (h ty ∙ same_type_self ty)
  where
    never : (b : Bool) → not (not b && b) ≡ true
    never true = refl
    never false = refl

only :
    (f : AccessType → Bool) (ty : AccessType)
    → ((if every (λ t. not (not (same_type t ty) && f t)) all_types then f ty else false) ≡ true)
      ↔ ((t : AccessType) → f t ≡ same_type t ty)
only f ty = (only_sound f ty, only_complete f ty)

both : (b c : Bool) → (b && c) ≡ true → (b ≡ true) × (c ≡ true)
both true c h = (refl, h)
both false c h = absurd (ground arith)

and_iff :
    (f g : AccessType → Bool)
    → ((every f all_types && every g all_types) ≡ true) ↔ ((t : AccessType) → (f t && g t) ≡ true)
and_iff f g = (
  λ h t.
      let (p, q) = both (every f all_types) (every g all_types) h in
      rw (every_sound f p t, every_sound g q t) refl,
  λ h.
      let p : every f all_types ≡ true = every_complete f (λ t. (both (f t) (g t) (h t)).0) in
      let q : every g all_types ≡ true = every_complete g (λ t. (both (f t) (g t) (h t)).1) in cc,
)

-- canOnlyRead of a kind is true exactly where that kind can be read and no other can, the same for
-- canOnlyWrite, and canAccessAnything exactly where every kind can be read and written.
pub can_only_iff :
    (v : ℕ) (ty : AccessType)
    → ((can_only_read v ty ≡ true) ↔ ((t : AccessType) → can_read v t ≡ same_type t ty))
      × (((can_only_write v ty ≡ true) ↔ ((t : AccessType) → can_write v t ≡ same_type t ty))
          × ((can_access_anything v ≡ true)
              ↔ ((t : AccessType) → (can_read v t && can_write v t) ≡ true)))
unfolding can_only_read can_only_write can_access_anything can_read_anything can_write_anything
can_only_iff v ty =
    (only (can_read v) ty, (only (can_write v) ty, and_iff (can_read v) (can_write v)))
