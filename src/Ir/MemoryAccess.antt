-- ===== src/Ir/MemoryAccess.antt =====
-- ir/attrs.h, ir/attrs.cpp: MemoryAccess, which kinds of memory a function may read and write.
--
-- The word `val` has two bits for each kind, "..rw.."; it is a 32-bit unsigned, of which ten bits
-- are used.
pub mod Table
pub mod Query
use alive_next_deprecated.Prelude.{
  ℕ, ◌+◌, ◌*◌, ◌/◌, ◌%◌, ◌^◌, bit_and, bit_or, Bool, true, false, ◌&&◌, ◌||◌, not, ◌==◌, List, [],
  ◌∷◌, if◌then◌else◌,
}

pub data AccessType : Type 0 where
  args globals inaccessible errno other : AccessType

unfoldable pub index : AccessType → ℕ
index args = 0
index globals = 1
index inaccessible = 2
index errno = 3
index other = 4

-- The rounds of a loop up to NumTypes.
abbrev pub all_types : List AccessType
all_types =
    AccessType.args ∷ AccessType.globals ∷ AccessType.inaccessible ∷ AccessType.errno
    ∷ AccessType.other ∷ []

abbrev pub same_type : AccessType → AccessType → Bool
unfolding index
same_type s t = index s == index t

unfoldable pub can_read : ℕ → AccessType → Bool
unfolding index
can_read val ty = not (bit_and (val / 2 ^ (2 * index ty)) 2 == 0)

unfoldable pub can_write : ℕ → AccessType → Bool
unfolding index
can_write val ty = not (bit_and (val / 2 ^ (2 * index ty)) 1 == 0)

-- A loop that leaves with `false` at the first kind that fails the test.
abbrev pub every : (AccessType → Bool) → List AccessType → Bool
every test [] = true
every test (t ∷ ts) = if not (test t) then false else every test ts

-- A loop that leaves with `true` at the first kind that passes the test.
abbrev pub some_of : (AccessType → Bool) → List AccessType → Bool
some_of test [] = false
some_of test (t ∷ ts) = if test t then true else some_of test ts

unfoldable pub can_only_read : ℕ → AccessType → Bool
unfolding can_read
can_only_read val ty =
    if every (λ t. not (not (same_type t ty) && can_read val t)) all_types
    then can_read val ty
    else false

unfoldable pub can_only_write : ℕ → AccessType → Bool
unfolding can_write
can_only_write val ty =
    if every (λ t. not (not (same_type t ty) && can_write val t)) all_types
    then can_write val ty
    else false

unfoldable pub can_read_anything : ℕ → Bool
unfolding can_read
can_read_anything val = every (can_read val) all_types

unfoldable pub can_write_anything : ℕ → Bool
unfolding can_write
can_write_anything val = every (can_write val) all_types

unfoldable pub can_access_anything : ℕ → Bool
unfolding can_read_anything can_write_anything
can_access_anything val = can_read_anything val && can_write_anything val

unfoldable pub can_read_something : ℕ → Bool
unfolding can_read
can_read_something val = some_of (can_read val) all_types

unfoldable pub can_write_something : ℕ → Bool
unfolding can_write
can_write_something val = some_of (can_write val) all_types

unfoldable pub set_no_access : ℕ → ℕ
set_no_access val = 0

unfoldable pub set_can_also_read : ℕ → AccessType → ℕ
unfolding index
set_can_also_read val ty = bit_or val ((2 * 2 ^ (index ty * 2)) % 2 ^ 32)

unfoldable pub set_can_also_write : ℕ → AccessType → ℕ
unfolding index
set_can_also_write val ty = bit_or val ((1 * 2 ^ (index ty * 2)) % 2 ^ 32)

unfoldable pub set_can_also_access : ℕ → AccessType → ℕ
unfolding set_can_also_read set_can_also_write
set_can_also_access val ty = set_can_also_write (set_can_also_read val ty) ty

unfoldable pub set_can_only_read_of : ℕ → AccessType → ℕ
unfolding set_no_access set_can_also_read
set_can_only_read_of val ty = set_can_also_read (set_no_access val) ty

unfoldable pub set_can_only_write_of : ℕ → AccessType → ℕ
unfolding set_no_access set_can_also_write
set_can_only_write_of val ty = set_can_also_write (set_no_access val) ty

unfoldable pub set_can_only_access : ℕ → AccessType → ℕ
unfolding set_can_only_read_of set_can_also_write
set_can_only_access val ty = set_can_also_write (set_can_only_read_of val ty) ty

abbrev for_each : (ℕ → AccessType → ℕ) → List AccessType → ℕ → ℕ
for_each f [] val = val
for_each f (t ∷ ts) val = for_each f ts (f val t)

unfoldable pub set_full_access : ℕ → ℕ
unfolding set_can_also_access
set_full_access val = for_each set_can_also_access all_types val

unfoldable pub set_can_only_read : ℕ → ℕ
unfolding set_no_access set_can_also_read
set_can_only_read val = for_each set_can_also_read all_types (set_no_access val)

-- Each round calls setCanOnlyWrite(ty), which starts from no access.
unfoldable pub set_can_only_write : ℕ → ℕ
unfolding set_no_access set_can_only_write_of
set_can_only_write val = for_each set_can_only_write_of all_types (set_no_access val)

unfoldable pub meet : ℕ → ℕ → ℕ
meet val rhs = bit_and val rhs

unfoldable pub join : ℕ → ℕ → ℕ
join val rhs = bit_or val rhs

-- The operations that change a MemoryAccess.
pub data AccessOp : Type 0 where
  no_access full_access only_read only_write : AccessOp
  only_read_of only_write_of only_access also_read also_write also_access : AccessType → AccessOp
  meet_with join_with : ℕ → AccessOp

unfoldable pub apply_op : AccessOp → ℕ → ℕ
unfolding set_no_access set_full_access set_can_only_read set_can_only_write set_can_only_read_of
    set_can_only_write_of set_can_only_access set_can_also_read set_can_also_write
    set_can_also_access meet join
apply_op no_access val = set_no_access val
apply_op full_access val = set_full_access val
apply_op only_read val = set_can_only_read val
apply_op only_write val = set_can_only_write val
apply_op (only_read_of ty) val = set_can_only_read_of val ty
apply_op (only_write_of ty) val = set_can_only_write_of val ty
apply_op (only_access ty) val = set_can_only_access val ty
apply_op (also_read ty) val = set_can_also_read val ty
apply_op (also_write ty) val = set_can_also_write val ty
apply_op (also_access ty) val = set_can_also_access val ty
apply_op (meet_with rhs) val = meet val rhs
apply_op (join_with rhs) val = join val rhs
