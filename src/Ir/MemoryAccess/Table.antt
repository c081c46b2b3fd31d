-- ===== src/Ir/MemoryAccess/Table.antt =====
-- About MemoryAccess (ir/attrs.cpp) as a table of two permissions for each kind of memory.
use alive_next_deprecated.Prelude.{
  ℕ, zero, suc, ◌+◌, ◌*◌, ◌/◌, ◌%◌, ◌^◌, ◌≡◌, refl, ap, sym, ◌∙◌, arith, bit_and, bit_or, Bool,
  true, false, ◌&&◌, ◌||◌,
}
use alive_next_deprecated.Prelude.Digits.{
  bit, bit-bit_or, bit-bit_and, bit-pow, bit-zero, bit_and-pow,
}
use native.Mathlib.Nat.{div-div-eq-div-mul}
use alive_next_deprecated.Prelude.Pow.{pow-double}
use alive_next_deprecated.Ir.MemoryAccess.{
  AccessType, AccessOp, index, same_type, can_read, can_write, apply_op, set_no_access,
  set_full_access, set_can_only_read, set_can_only_write, set_can_only_read_of,
  set_can_only_write_of, set_can_only_access, set_can_also_read, set_can_also_write,
  set_can_also_access, meet, join,
}

bit-shift : (k m v : ℕ) → bit k (v / 2 ^ m) ≡ bit (m + k) v
bit-shift k zero v =
    let whole : v / 2 ^ 0 ≡ v = omega arith in
    let same : k ≡ 0 + k = omega arith in ap (bit k) whole ∙ ap (λ n. bit n v) same
bit-shift k (suc m) v =
    let twice : 2 * 2 ^ m ≡ 2 ^ suc m = omega (arith, pow-double m) in
    let split : v / 2 ^ suc m ≡ v / 2 / 2 ^ m =
      ap (λ d. v / d) (sym twice) ∙ sym (div-div-eq-div-mul v 2 (2 ^ m)) in
    let next : suc (m + k) ≡ suc m + k = omega arith in
    ap (bit k) split ∙ (bit-shift k m (v / 2) ∙ ap (λ n. bit n v) next)

can_read-bit : (v : ℕ) (t : AccessType) → can_read v t ≡ bit (2 * index t + 1) v
unfolding can_read
can_read-bit v t = bit_and-pow (v / 2 ^ (2 * index t)) 1 ∙ bit-shift 1 (2 * index t) v

can_write-bit : (v : ℕ) (t : AccessType) → can_write v t ≡ bit (2 * index t + 0) v
unfolding can_write
can_write-bit v t = bit_and-pow (v / 2 ^ (2 * index t)) 0 ∙ bit-shift 0 (2 * index t) v

read_mask : (t : AccessType) → (2 * 2 ^ (index t * 2)) % 2 ^ 32 ≡ 2 ^ (2 * index t + 1)
unfolding index
read_mask AccessType.args = refl
read_mask AccessType.globals = refl
read_mask AccessType.inaccessible = refl
read_mask AccessType.errno = refl
read_mask AccessType.other = refl

write_mask : (t : AccessType) → (1 * 2 ^ (index t * 2)) % 2 ^ 32 ≡ 2 ^ (2 * index t + 0)
unfolding index
write_mask AccessType.args = refl
write_mask AccessType.globals = refl
write_mask AccessType.inaccessible = refl
write_mask AccessType.errno = refl
write_mask AccessType.other = refl

module _ (v : ℕ) (s t : AccessType) where
  read-also_read : can_read (set_can_also_read v s) t ≡ (can_read v t || same_type s t)
  unfolding set_can_also_read
  read-also_read =
      rw (can_read-bit, read_mask s, bit-bit_or, bit-pow, can_read-bit v t) (ground arith)

  write-also_read : can_write (set_can_also_read v s) t ≡ can_write v t
  unfolding set_can_also_read
  write-also_read =
      rw (can_write-bit, read_mask s, bit-bit_or, bit-pow, can_write-bit v t) (ground arith)

  read-also_write : can_read (set_can_also_write v s) t ≡ can_read v t
  unfolding set_can_also_write
  read-also_write =
      rw (can_read-bit, write_mask s, bit-bit_or, bit-pow, can_read-bit v t) (ground arith)

  write-also_write : can_write (set_can_also_write v s) t ≡ (can_write v t || same_type s t)
  unfolding set_can_also_write
  write-also_write =
      rw (can_write-bit, write_mask s, bit-bit_or, bit-pow, can_write-bit v t) (ground arith)

module _ (v : ℕ) (s t : AccessType) where
  read-also_access : can_read (set_can_also_access v s) t ≡ (can_read v t || same_type s t)
  unfolding set_can_also_access
  read-also_access = read-also_write (set_can_also_read v s) s t ∙ read-also_read v s t

  write-also_access : can_write (set_can_also_access v s) t ≡ (can_write v t || same_type s t)
  unfolding set_can_also_access
  write-also_access =
      write-also_write (set_can_also_read v s) s t
      ∙ ap (λ b. b || same_type s t) (write-also_read v s t)

module _ (t : AccessType) where
  read-none : can_read 0 t ≡ false
  read-none = can_read-bit 0 t ∙ bit-zero (2 * index t + 1)

  write-none : can_write 0 t ≡ false
  write-none = can_write-bit 0 t ∙ bit-zero (2 * index t + 0)

-- What each operation makes of the permissions to read: `old` is what was permitted.
abbrev pub readable : AccessOp → (AccessType → Bool) → AccessType → Bool
readable AccessOp.no_access old t = false
readable AccessOp.full_access old t = true
readable AccessOp.only_read old t = true
readable AccessOp.only_write old t = false
readable (AccessOp.only_read_of ty) old t = same_type ty t
readable (AccessOp.only_write_of ty) old t = false
readable (AccessOp.only_access ty) old t = same_type ty t
readable (AccessOp.also_read ty) old t = old t || same_type ty t
readable (AccessOp.also_write ty) old t = old t
readable (AccessOp.also_access ty) old t = old t || same_type ty t
readable (AccessOp.meet_with rhs) old t = old t && can_read rhs t
readable (AccessOp.join_with rhs) old t = old t || can_read rhs t

-- The same for the permissions to write.
abbrev pub writable : AccessOp → (AccessType → Bool) → AccessType → Bool
writable AccessOp.no_access old t = false
writable AccessOp.full_access old t = true
writable AccessOp.only_read old t = false
writable AccessOp.only_write old t = same_type AccessType.other t
writable (AccessOp.only_read_of ty) old t = false
writable (AccessOp.only_write_of ty) old t = same_type ty t
writable (AccessOp.only_access ty) old t = same_type ty t
writable (AccessOp.also_read ty) old t = old t
writable (AccessOp.also_write ty) old t = old t || same_type ty t
writable (AccessOp.also_access ty) old t = old t || same_type ty t
writable (AccessOp.meet_with rhs) old t = old t && can_write rhs t
writable (AccessOp.join_with rhs) old t = old t || can_write rhs t

only_of-read :
    (v : ℕ) (ty t : AccessType)
    → (can_read (set_can_only_read_of v ty) t ≡ same_type ty t)
      × (can_write (set_can_only_read_of v ty) t ≡ false)
unfolding set_can_only_read_of set_no_access
only_of-read v ty t = (
  read-also_read 0 ty t ∙ ap (λ b. b || same_type ty t) (read-none t),
  write-also_read 0 ty t ∙ write-none t,
)

only_of-write :
    (v : ℕ) (ty t : AccessType)
    → (can_read (set_can_only_write_of v ty) t ≡ false)
      × (can_write (set_can_only_write_of v ty) t ≡ same_type ty t)
unfolding set_can_only_write_of set_no_access
only_of-write v ty t = (
  read-also_write 0 ty t ∙ read-none t,
  write-also_write 0 ty t ∙ ap (λ b. b || same_type ty t) (write-none t),
)

some_kind :
    (b : Bool) (t : AccessType)
    → (((((b || same_type AccessType.args t) || same_type AccessType.globals t)
            || same_type AccessType.inaccessible t)
          || same_type AccessType.errno t)
        || same_type AccessType.other t)
      ≡ true
unfolding same_type
some_kind true t = refl
some_kind false AccessType.args = refl
some_kind false AccessType.globals = refl
some_kind false AccessType.inaccessible = refl
some_kind false AccessType.errno = refl
some_kind false AccessType.other = refl

full-both :
    (v : ℕ) (t : AccessType)
    → (can_read (set_full_access v) t ≡ true) × (can_write (set_full_access v) t ≡ true)
unfolding set_full_access
full-both v t = (
  simp (read-also_access) (some_kind (can_read v t) t),
  simp (write-also_access) (some_kind (can_write v t) t),
)

only_read-both :
    (v : ℕ) (t : AccessType)
    → (can_read (set_can_only_read v) t ≡ true) × (can_write (set_can_only_read v) t ≡ false)
unfolding set_can_only_read
only_read-both v t = (
  simp (read-also_read) (some_kind (can_read (set_no_access v) t) t),
  simp (write-also_read) (write-none t),
)

module _ (rhs v : ℕ) (t : AccessType) where
  both-meet :
      (can_read (meet v rhs) t ≡ (can_read v t && can_read rhs t))
      × (can_write (meet v rhs) t ≡ (can_write v t && can_write rhs t))
  unfolding meet
  both-meet = (
    can_read-bit (bit_and v rhs) t
        ∙ rw (can_read-bit v t, can_read-bit rhs t) (bit-bit_and (2 * index t + 1) v rhs),
    can_write-bit (bit_and v rhs) t
        ∙ rw (can_write-bit v t, can_write-bit rhs t) (bit-bit_and (2 * index t + 0) v rhs),
  )

  both-join :
      (can_read (join v rhs) t ≡ (can_read v t || can_read rhs t))
      × (can_write (join v rhs) t ≡ (can_write v t || can_write rhs t))
  unfolding join
  both-join = (
    can_read-bit (bit_or v rhs) t
        ∙ rw (can_read-bit v t, can_read-bit rhs t) (bit-bit_or (2 * index t + 1) v rhs),
    can_write-bit (bit_or v rhs) t
        ∙ rw (can_write-bit v t, can_write-bit rhs t) (bit-bit_or (2 * index t + 0) v rhs),
  )

-- After any operation on a MemoryAccess, canRead and canWrite of each kind of memory are what the
-- two tables make of them; setCanOnlyWrite() leaves only the last kind writable.
pub apply_op-table :
    (op : AccessOp) (v : ℕ) (t : AccessType)
    → (can_read (apply_op op v) t ≡ readable op (can_read v) t)
      × (can_write (apply_op op v) t ≡ writable op (can_write v) t)
unfolding apply_op set_no_access meet join set_can_only_write set_can_only_access
apply_op-table AccessOp.no_access v t = (read-none t, write-none t)
apply_op-table AccessOp.full_access v t = full-both v t
apply_op-table AccessOp.only_read v t = only_read-both v t
apply_op-table AccessOp.only_write v t = only_of-write 0 AccessType.other t
apply_op-table (AccessOp.only_read_of ty) v t = only_of-read v ty t
apply_op-table (AccessOp.only_write_of ty) v t = only_of-write v ty t
apply_op-table (AccessOp.only_access ty) v t =
    let (r, w) = only_of-read v ty t in
    (
      read-also_write (set_can_only_read_of v ty) ty t ∙ r,
      write-also_write (set_can_only_read_of v ty) ty t ∙ ap (λ b. b || same_type ty t) w,
    )
apply_op-table (AccessOp.also_read ty) v t = (read-also_read v ty t, write-also_read v ty t)
apply_op-table (AccessOp.also_write ty) v t = (read-also_write v ty t, write-also_write v ty t)
apply_op-table (AccessOp.also_access ty) v t = (read-also_access v ty t, write-also_access v ty t)
apply_op-table (AccessOp.meet_with rhs) v t = both-meet rhs v t
apply_op-table (AccessOp.join_with rhs) v t = both-join rhs v t
