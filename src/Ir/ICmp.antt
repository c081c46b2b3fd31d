-- ===== src/Ir/ICmp.antt =====
-- ir/instr.cpp: ICmp::toSMT on integers, with the chain over a condition that is not known.
--
-- The condition of the source is `none` where it is Any; `var` is then the value of its variable.
use alive_next_deprecated.Prelude.{
  ℕ, zero, suc, ◌-◌, ◌^◌, ◌<◌, ◌≤◌, ◌≡◌, refl, arith, Bool, true, not, ◌&&◌, ltb, ◌==◌,
  if◌then◌else◌, Option, none, some, Bool-cases, inl, inr, List, [], ◌∷◌, get_or, ap, sym, length,
}
use alive_next_deprecated.Prelude.Int.{ltb_ℤ, leb_ℤ}
use alive_next_deprecated.Prelude.Pow.{pow-half}
use alive_next_deprecated.Smt.Bv.{bvult, bvule, bvslt, bvsle, bit, to_bv_bool, to_int}
use alive_next_deprecated.Ir.StateValue.{StateValue}

pub data Cond : Type 0 where
  eq ne sle slt sge sgt ule ult uge ugt : Cond

unfoldable pub compare : ℕ → Cond → ℕ → ℕ → Bool
compare w eq a b = a == b
compare w ne a b = not (a == b)
compare w sle a b = bvsle w a b
compare w slt a b = bvslt w a b
compare w sge a b = bvsle w b a
compare w sgt a b = bvslt w b a
compare w ule a b = bvule a b
compare w ult a b = bvult a b
compare w uge a b = bvule b a
compare w ugt a b = bvult b a

-- The conditions by their number.
abbrev pub cond_at : ℕ → Cond
cond_at n = get_or (eq ∷ ne ∷ sle ∷ slt ∷ sge ∷ sgt ∷ ule ∷ ult ∷ uge ∷ []) n ugt

-- The conditions below `n`, the last one outermost in the call and innermost in the term.
unfoldable pub build_icmp_chain : ℕ → (Cond → Bool) → ℕ → Bool → Bool
build_icmp_chain var fn zero last = last
build_icmp_chain var fn (suc n) last =
    build_icmp_chain var fn n (if var == n then fn (cond_at n) else last)

unfoldable pub icmp : ℕ → Bool → Option Cond → ℕ → StateValue → StateValue → StateValue
unfolding compare build_icmp_chain
icmp w same_sign cond var a b =
    let fn2 = λ (c : Cond). compare w c a.value b.value in
    let v : Bool = elim cond [ some c ↦ fn2 c | none ↦ build_icmp_chain var fn2 9 (fn2 ugt) ] in
    let np = if same_sign then bit (w - 1) a.value == bit (w - 1) b.value else true in
    record { value = to_bv_bool v; non_poison = a.non_poison && b.non_poison && np }

build_icmp_chain_lem :
    (fn : Cond → Bool) (var n : ℕ) (last : Bool)
    → build_icmp_chain var fn n last ≡ (if ltb var n then fn (cond_at var) else last)
unfolding build_icmp_chain
build_icmp_chain_lem fn var zero last = ground arith
build_icmp_chain_lem fn var (suc n) last =
    rw (build_icmp_chain_lem fn var n (if var == n then fn (cond_at n) else last))
      (elim (Bool-cases (var == n)) [
        | inl e ↦
            let same : fn (cond_at n) ≡ fn (cond_at var) =
              ap (λ (t : ℕ). fn (cond_at t)) {x = n} {y = var} (ground arith) in
            ground (arith, same)
        | inr ne' ↦ ground arith
      ])

get_or-beyond : {A : Type 0} → (v : List A) (i : ℕ) (d : A) → length v ≤ i → get_or v i d ≡ d
get_or-beyond [] i d h = refl
get_or-beyond (x ∷ v) zero d h = absurd (omega arith)
get_or-beyond (x ∷ v) (suc i) d h = get_or-beyond v i d (omega arith)

ugt_beyond :
    (g : Cond → Bool) (var : ℕ) → (if ltb var 9 then g (cond_at var) else g ugt) ≡ g (cond_at var)
ugt_beyond g var = elim (Bool-cases (ltb var 9)) [
  | inl lt ↦ rw lt refl
  | inr ge ↦ rw ge (
      ap g (
        sym (
          get_or-beyond (eq ∷ ne ∷ sle ∷ slt ∷ sge ∷ sgt ∷ ule ∷ ult ∷ uge ∷ []) var ugt
            (ground arith))))
]

-- Where the condition is a variable, the comparison is the one whose number the variable has, and
-- ugt for 9 and above.
pub icmp-any :
    (w : ℕ) (same_sign : Bool) (var : ℕ) (a b : StateValue)
    → icmp w same_sign none var a b ≡ icmp w same_sign (some (cond_at var)) var a b
unfolding icmp
icmp-any w same_sign var a b =
    rw
      (
        build_icmp_chain_lem (λ (c : Cond). compare w c a.value b.value) var 9
            (compare w ugt a.value b.value),
        ugt_beyond (λ (c : Cond). compare w c a.value b.value) var,
      )
      refl

-- For operands of the width, the signed conditions compare the integers that the patterns stand
-- for.
pub compare-signed :
    (w : ℕ)
    → 0 < w
    → (a b : ℕ) → a < 2 ^ w
    → b < 2 ^ w
    → (compare w slt a b ≡ ltb_ℤ (to_int w a) (to_int w b))
      × (compare w sle a b ≡ leb_ℤ (to_int w a) (to_int w b))
      × (compare w sgt a b ≡ ltb_ℤ (to_int w b) (to_int w a))
      × (compare w sge a b ≡ leb_ℤ (to_int w b) (to_int w a))
unfolding compare
compare-signed w pw a b ha hb =
    let e = pow-half w pw in (ground arith, ground arith, ground arith, ground arith)
