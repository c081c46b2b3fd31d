-- ===== src/Ir/AliasSet.antt =====
-- ir/memory.cpp: Memory::AliasSet, which blocks of each kind an access may touch.
--
-- isFullUpToAlias returns an int, -1 for "no": `none` here.
pub mod Sets
pub mod Query
use alive_next_deprecated.Prelude.{
  ℕ, zero, suc, ◌+◌, ◌-◌, Bool, true, false, ◌&&◌, ◌||◌, leb, ◌==◌, Option, none, some, List, [],
  ◌∷◌, length, get_or, set, max, if◌then◌else◌,
}

pub record AliasSet : Type 0 where
  pub local : List Bool
  pub non_local : List Bool

abbrev pub part : AliasSet → Bool → List Bool
part a islocal = if islocal then a.local else a.non_local

abbrev pub with_part : AliasSet → Bool → List Bool → AliasSet
with_part a true v = record a { local = v }
with_part a false v = record a { non_local = v }

clear : ℕ → List Bool
clear zero = []
clear (suc n) = false ∷ clear n

-- The numbers of local and non-local blocks of one memory, or of two.
unfoldable pub make : ℕ → ℕ → AliasSet
unfolding clear
make locals non_locals = record { local = clear locals; non_local = clear non_locals }

unfoldable pub make_for_two : ℕ → ℕ → ℕ → ℕ → AliasSet
unfolding make
make_for_two locals1 non_locals1 locals2 non_locals2 =
    make (max locals1 locals2) (max non_locals1 non_locals2)

unfoldable pub size : AliasSet → Bool → ℕ
size a islocal = length (part a islocal)

-- The first loop: the number of set bits before the first clear one.
unfoldable pub leading : List Bool → ℕ
leading [] = 0
leading (b ∷ v) = if b then suc (leading v) else 0

-- The second loop makes `rounds` rounds and reads `v[i]` in each, not `v[i2]`.
unfoldable pub second_loop : List Bool → ℕ → ℕ → Bool
second_loop v i zero = false
second_loop v i (suc rounds) = get_or v i false || second_loop v i rounds

abbrev pub int_pred : ℕ → Option ℕ
int_pred zero = none
int_pred (suc n) = some n

unfoldable pub is_full_up_to_alias : AliasSet → Bool → Option ℕ
unfolding leading second_loop
is_full_up_to_alias a islocal =
    let v = part a islocal in
    let i = leading v in if second_loop v i (length v - i) then none else int_pred i

unfoldable pub may_alias : AliasSet → Bool → ℕ → Bool
may_alias a islocal bid = get_or (part a islocal) bid false

-- The disjunction over the set bits below `n`.
unfoldable pub any_equal : List Bool → ℕ → ℕ → Bool
any_equal v bid zero = false
any_equal v bid (suc n) = any_equal v bid n || (get_or v n false && (bid == n))

-- mayAlias on a block id that is an expression, of which `bid` is the value.
unfoldable pub may_alias_expr : AliasSet → Bool → ℕ → Bool
unfolding is_full_up_to_alias any_equal
may_alias_expr a islocal bid = elim (is_full_up_to_alias a islocal) [
  | some upto ↦ leb bid upto
  | none ↦ any_equal (part a islocal) bid (length (part a islocal))
]

count_true : List Bool → ℕ
count_true [] = 0
count_true (b ∷ v) = (if b then 1 else 0) + count_true v

unfoldable pub num_may_alias : AliasSet → Bool → ℕ
unfolding count_true
num_may_alias a islocal = count_true (part a islocal)

unfoldable pub set_may_alias : AliasSet → Bool → ℕ → AliasSet
set_may_alias a islocal bid = with_part a islocal (set (part a islocal) bid true)

unfoldable pub set_no_alias : AliasSet → Bool → ℕ → AliasSet
set_no_alias a islocal bid = with_part a islocal (set (part a islocal) bid false)

-- The rounds 0 to `limit`.
unfoldable pub set_may_alias_up_to : AliasSet → Bool → ℕ → AliasSet
unfolding set_may_alias
set_may_alias_up_to a islocal zero = set_may_alias a islocal 0
set_may_alias_up_to a islocal (suc limit) =
    set_may_alias (set_may_alias_up_to a islocal limit) islocal (suc limit)

-- The loops over two vectors stop at the end of the shorter.
unfoldable pub zip_prefix : (Bool → Bool → Bool) → List Bool → List Bool → List Bool
zip_prefix f [] ys = []
zip_prefix f (x ∷ xs) [] = x ∷ xs
zip_prefix f (x ∷ xs) (y ∷ ys) = f x y ∷ zip_prefix f xs ys

unfoldable pub intersect_with : AliasSet → AliasSet → AliasSet
unfolding zip_prefix
intersect_with a b = record {
  local = zip_prefix ◌&&◌ a.local b.local;
  non_local = zip_prefix ◌&&◌ a.non_local b.non_local;
}

unfoldable pub union_with : AliasSet → AliasSet → AliasSet
unfolding zip_prefix
union_with a b = record {
  local = zip_prefix ◌||◌ a.local b.local;
  non_local = zip_prefix ◌||◌ a.non_local b.non_local;
}
