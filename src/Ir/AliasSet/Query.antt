-- ===== src/Ir/AliasSet/Query.antt =====
-- About mayAlias of Memory::AliasSet (ir/memory.cpp) on a block id that is an expression.
use alive_next_deprecated.Prelude.{
  ℕ, zero, suc, ◌-◌, ◌<◌, ◌≤◌, ◌≡◌, refl, arith, Bool, true, false, ◌&&◌, leb, ltb, ◌==◌, List, [],
  ◌∷◌, length, get_or, if◌then◌else◌, Bool-cases, inl, inr, ap, none, some,
}
use alive_next_deprecated.Ir.AliasSet.{
  AliasSet, part, may_alias, leading, second_loop, any_equal, int_pred, is_full_up_to_alias,
  may_alias_expr,
}

get_or-leading : (v : List Bool) → get_or v (leading v) false ≡ false
unfolding leading
get_or-leading [] = refl
get_or-leading (true ∷ v) = get_or-leading v
get_or-leading (false ∷ v) = refl

below-leading : (v : List Bool) (i : ℕ) → i < leading v → get_or v i false ≡ true
unfolding leading
below-leading [] i h = elim h [ ]
below-leading (true ∷ v) zero h = refl
below-leading (true ∷ v) (suc i) h = below-leading v i (omega arith)
below-leading (false ∷ v) i h = elim h [ ]

-- The second loop reads the bit at which the first one stopped, so it finds nothing.
second_loop-eq-false : (v : List Bool) (rounds : ℕ) → second_loop v (leading v) rounds ≡ false
unfolding second_loop
second_loop-eq-false v zero = refl
second_loop-eq-false v (suc n) = rw (get_or-leading v) (second_loop-eq-false v n)

any_equal_lem : (v : List Bool) (bid n : ℕ) → any_equal v bid n ≡ (ltb bid n && get_or v bid false)
unfolding any_equal
any_equal_lem v bid zero = ground arith
any_equal_lem v bid (suc n) = elim (Bool-cases (bid == n)) [
  | inl e ↦
      let same : get_or v n false ≡ get_or v bid false =
        ap (λ (t : ℕ). get_or v t false) {x = n} {y = bid} (ground arith) in
      ground (arith, any_equal_lem v bid n)
  | inr ne ↦ ground (arith, any_equal_lem v bid n)
]

get_or-beyond : (v : List Bool) (i : ℕ) → length v ≤ i → get_or v i false ≡ false
get_or-beyond [] i h = refl
get_or-beyond (x ∷ v) zero h = absurd (omega arith)
get_or-beyond (x ∷ v) (suc i) h = get_or-beyond v i (omega arith)

is_full_lem :
    (a : AliasSet) (islocal : Bool)
    → is_full_up_to_alias a islocal ≡ int_pred (leading (part a islocal))
unfolding is_full_up_to_alias
is_full_lem a islocal =
    rw (second_loop-eq-false (part a islocal) (length (part a islocal) - leading (part a islocal)))
      refl

test_lem :
    (v : List Bool) (bid n : ℕ)
    → (elim (int_pred n) [ some upto ↦ leb bid upto | none ↦ any_equal v bid (length v) ])
      ≡ (if n == 0 then get_or v bid false else ltb bid n)
test_lem v bid zero = ground (arith, any_equal_lem v bid (length v), get_or-beyond v bid)
test_lem v bid (suc n) = ground arith

-- Without a first set bit every bit is looked at; else the ids below the first clear bit are taken.
may_alias_expr_lem :
    (a : AliasSet) (islocal : Bool) (bid : ℕ)
    → may_alias_expr a islocal bid ≡ (
        if leading (part a islocal) == 0
        then get_or (part a islocal) bid false
        else ltb bid (leading (part a islocal)))
unfolding may_alias_expr
may_alias_expr_lem a islocal bid =
    rw (is_full_lem a islocal, may_alias_expr)
      (test_lem (part a islocal) bid (leading (part a islocal)))

-- An id that the expression admits is one whose bit is set.
pub may_alias_expr_sound :
    (a : AliasSet) (islocal : Bool) (bid : ℕ)
    → may_alias_expr a islocal bid ≡ true
    → may_alias a islocal bid ≡ true
unfolding may_alias
may_alias_expr_sound a islocal bid h =
    ground (arith, may_alias_expr_lem a islocal bid, below-leading (part a islocal) bid)

first_leading : (v : List Bool) → get_or v 0 false ≡ true → ¬ (leading v ≡ 0)
unfolding leading
first_leading [] p = cc
first_leading (true ∷ v) p = λ q. absurd (omega arith)
first_leading (false ∷ v) p = cc

leading-le : (v : List Bool) (gap : ℕ) → get_or v gap false ≡ false → leading v ≤ gap
leading-le v gap h = ground (arith, below-leading v gap)

-- Where the first bit is set and a bit below `bid` is clear, the expression denies `bid`, also if
-- its bit is set: the second loop of isFullUpToAlias was to send such a set to the full test.
pub may_alias_expr_missed :
    (a : AliasSet) (islocal : Bool) (gap bid : ℕ)
    → may_alias a islocal 0 ≡ true
    → may_alias a islocal gap ≡ false
    → gap < bid
    → may_alias_expr a islocal bid ≡ false
unfolding may_alias
may_alias_expr_missed a islocal gap bid first clear lt = ground (
  arith,
  may_alias_expr_lem a islocal bid,
  leading-le (part a islocal) gap,
  first_leading (part a islocal),
)
