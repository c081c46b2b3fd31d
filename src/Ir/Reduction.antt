-- ===== src/Ir/Reduction.antt =====
-- ir/instr.cpp: UnaryReductionOp::toSMT, the fold of the elements of a vector.
--
-- A vector has an element: `first` is the one of round 0, and the list holds those of the others.
use native.Mathlib.Nat.{mod-eq_of_lt, mod-lt, mod-add-mod}
use alive_next_deprecated.Prelude.{
  ℕ, ◌+◌, ◌%◌, ◌^◌, ◌<◌, ◌≡◌, refl, arith, Bool, true, ◌&&◌, List, [], ◌∷◌, max, min, ap, ◌∙◌,
}
use alive_next_deprecated.Prelude.Pow.{pow-pos}
use alive_next_deprecated.Smt.Bv.{bvadd, bvmul, bvand, bvor, bvxor}
use alive_next_deprecated.Smt.Order
use alive_next_deprecated.Ir.StateValue.{StateValue}

pub data RedOp : Type 0 where
  add mul and or xor smax smin umax umin : RedOp

unfoldable pub red_fn : ℕ → RedOp → ℕ → ℕ → ℕ
red_fn w add a b = bvadd w a b
red_fn w mul a b = bvmul w a b
red_fn w and a b = bvand a b
red_fn w or a b = bvor a b
red_fn w xor a b = bvxor a b
red_fn w smax a b = Order.smax w a b
red_fn w smin a b = Order.smin w a b
red_fn w umax a b = Order.umax w a b
red_fn w umin a b = Order.umin w a b

unfoldable pub reduce : ℕ → RedOp → StateValue → List StateValue → StateValue
unfolding red_fn
reduce w op res [] = res
reduce w op res (ith ∷ rest) =
    reduce w op
      (record {
        value = red_fn w op res.value ith.value;
        non_poison = res.non_poison && ith.non_poison;
      })
      rest

-- The exact sum, the largest and the smallest value, and whether no element is poison.
abbrev pub total : List StateValue → ℕ
total [] = 0
total (v ∷ vs) = v.value + total vs

abbrev pub largest : ℕ → List StateValue → ℕ
largest m [] = m
largest m (v ∷ vs) = largest (max m v.value) vs

abbrev pub smallest : ℕ → List StateValue → ℕ
smallest m [] = m
smallest m (v ∷ vs) = smallest (min m v.value) vs

abbrev pub all_defined : List StateValue → Bool
all_defined [] = true
all_defined (v ∷ vs) = v.non_poison && all_defined vs

-- A reduction is poison exactly where one of the elements is.
pub reduce-non_poison :
    (w : ℕ) (op : RedOp) (rest : List StateValue) (first : StateValue)
    → (reduce w op first rest).non_poison ≡ (first.non_poison && all_defined rest)
unfolding reduce
reduce-non_poison w op [] first = ground arith
reduce-non_poison w op (v ∷ rest) first = reduce-non_poison w op rest _ ∙ ground arith

-- For a first element of the width, the sum that add gives is the exact sum, wrapped once.
pub reduce-add :
    (w : ℕ) (rest : List StateValue) (first : StateValue)
    → first.value < 2 ^ w
    → (reduce w RedOp.add first rest).value ≡ (first.value + total rest) % 2 ^ w
unfolding reduce
reduce-add w [] first h =
    rw (mod-eq_of_lt {n = first.value + 0} {m = 2 ^ w} (omega arith)) (omega arith)
reduce-add w (v ∷ rest) first h =
    reduce-add w rest _ (mod-lt (first.value + v.value) (pow-pos w))
    ∙ mod-add-mod (first.value + v.value) (2 ^ w) (total rest)
    ∙ ap (λ (t : ℕ). t % 2 ^ w) {x = first.value + v.value + total rest}
        {y = first.value + (v.value + total rest)} (omega arith)

max_lem : (w a b : ℕ) → Order.umax w a b ≡ max a b
unfolding Order.umax
max_lem w a b = ground arith

min_lem : (w a b : ℕ) → Order.umin w a b ≡ min a b
unfolding Order.umin
min_lem w a b = ground arith

-- umax and umin give the largest and the smallest element.
pub reduce-umax-umin :
    (w : ℕ) (rest : List StateValue) (first : StateValue)
    → ((reduce w RedOp.umax first rest).value ≡ largest first.value rest)
      × ((reduce w RedOp.umin first rest).value ≡ smallest first.value rest)
unfolding reduce
reduce-umax-umin w [] first = (refl, refl)
reduce-umax-umin w (v ∷ rest) first = (
  (reduce-umax-umin w rest _).0 ∙ ap (λ (t : ℕ). largest t rest) (max_lem w first.value v.value),
  (reduce-umax-umin w rest _).1 ∙ ap (λ (t : ℕ). smallest t rest) (min_lem w first.value v.value),
)
