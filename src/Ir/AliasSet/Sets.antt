-- ===== src/Ir/AliasSet/Sets.antt =====
-- About the updates of Memory::AliasSet (ir/memory.cpp), bit by bit.
use alive_next_deprecated.Prelude.{
  ℕ, zero, suc, ◌<◌, ◌≡◌, refl, arith, Bool, true, false, ◌&&◌, ◌||◌, leb, ◌==◌, List, [], ◌∷◌,
  length, get_or, set, length-set, get_or-set_self, get_or-set_ne, if◌then◌else◌, Bool-cases, inl,
  inr, ap, ◌∙◌,
}
use alive_next_deprecated.Ir.AliasSet.{
  AliasSet, part, with_part, may_alias, size, set_may_alias_up_to, zip_prefix, intersect_with,
  union_with,
}

get_or-set :
    (v : List Bool) (i j : ℕ) (b : Bool)
    → i < length v
    → get_or (set v i b) j false ≡ (if i == j then b else get_or v j false)
get_or-set v i j b h = elim (Bool-cases (i == j)) [
  | inl e ↦ rw e (
      ap (λ (t : ℕ). get_or (set v i b) t false) {x = j} {y = i} (ground arith)
      ∙ get_or-set_self v i b false h)
  | inr ne ↦ rw ne (get_or-set_ne v i j b false (ground arith))
]

get_or-zip :
    (f : Bool → Bool → Bool) (xs ys : List Bool) (i : ℕ)
    → i < length xs
    → i < length ys
    → get_or (zip_prefix f xs ys) i false ≡ f (get_or xs i false) (get_or ys i false)
unfolding zip_prefix
get_or-zip f [] ys i h k = elim h [ ]
get_or-zip f (x ∷ xs) [] i h k = elim k [ ]
get_or-zip f (x ∷ xs) (y ∷ ys) zero h k = refl
get_or-zip f (x ∷ xs) (y ∷ ys) (suc i) h k = get_or-zip f xs ys i (omega arith) (omega arith)

-- Below both sizes, a bit of the intersection is set exactly when both are, and one of the union
-- exactly when one is.
pub may_alias-intersect_union :
    (a b : AliasSet) (islocal : Bool) (bid : ℕ)
    → bid < size a islocal
    → bid < size b islocal
    → (may_alias (intersect_with a b) islocal bid
        ≡ (may_alias a islocal bid && may_alias b islocal bid))
      × (may_alias (union_with a b) islocal bid
          ≡ (may_alias a islocal bid || may_alias b islocal bid))
unfolding may_alias intersect_with union_with size
may_alias-intersect_union a b true bid h k =
    (get_or-zip ◌&&◌ a.local b.local bid h k, get_or-zip ◌||◌ a.local b.local bid h k)
may_alias-intersect_union a b false bid h k = (
  get_or-zip ◌&&◌ a.non_local b.non_local bid h k,
  get_or-zip ◌||◌ a.non_local b.non_local bid h k,
)

part-with_part :
    (a : AliasSet) (islocal : Bool) (v : List Bool) → part (with_part a islocal v) islocal ≡ v
part-with_part a true v = refl
part-with_part a false v = refl

size-set_up_to :
    (a : AliasSet) (islocal : Bool) (limit : ℕ)
    → length (part (set_may_alias_up_to a islocal limit) islocal) ≡ length (part a islocal)
unfolding set_may_alias_up_to
size-set_up_to a islocal zero = rw part-with_part (length-set (part a islocal) 0 true)
size-set_up_to a islocal (suc limit) =
    rw part-with_part (length-set _ (suc limit) true ∙ size-set_up_to a islocal limit)

-- For a limit inside the set, setMayAliasUpTo sets the bits 0 to the limit and keeps the others.
pub may_alias-set_up_to :
    (a : AliasSet) (islocal : Bool) (limit bid : ℕ)
    → limit < size a islocal
    → may_alias (set_may_alias_up_to a islocal limit) islocal bid
      ≡ (if leb bid limit then true else may_alias a islocal bid)
unfolding may_alias set_may_alias_up_to size
may_alias-set_up_to a islocal zero bid h =
    rw part-with_part (get_or-set (part a islocal) 0 bid true h ∙ ground arith)
may_alias-set_up_to a islocal (suc limit) bid h = rw part-with_part (
    get_or-set (part (set_may_alias_up_to a islocal limit) islocal) (suc limit) bid true
      (omega (arith, size-set_up_to a islocal limit))
    ∙ ground (arith, may_alias-set_up_to a islocal limit bid (omega arith)))
