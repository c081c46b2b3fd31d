-- ===== src/Ir/AggregateType/Words.antt =====
-- About words put together from parts of given widths (ir/type.cpp).
use alive_next_deprecated.Prelude.{
  ℕ, zero, suc, ◌+◌, ◌-◌, ◌^◌, ◌<◌, ◌≡◌, refl, ap, ◌∙◌, arith, List, [], ◌∷◌, length,
}
use alive_next_deprecated.Prelude.Pow.{pow-pos}
use alive_next_deprecated.Prelude.Fields.{field, above, field-above, field-below, field-whole}
use alive_next_deprecated.Smt.Bv.{extract}
use alive_next_deprecated.Ir.Pointer.Parts.{extract-field}
use alive_next_deprecated.Ir.AggregateType.{total, total_before, width_at}

-- The parts below `acc`, the first on top.
abbrev pub pack : List ℕ → List ℕ → ℕ → ℕ
pack [] vs acc = acc
pack (w ∷ ws) [] acc = pack ws [] (above w acc 0)
pack (w ∷ ws) (v ∷ vs) acc = pack ws vs (above w acc v)

abbrev pub part_at : List ℕ → ℕ → ℕ
part_at [] index = 0
part_at (v ∷ vs) zero = v
part_at (v ∷ vs) (suc index) = part_at vs index

-- Every part fits its width.
abbrev pub Fit : List ℕ → List ℕ → Type 0
Fit [] vs = Unit
Fit (w ∷ ws) [] = Unit
Fit (w ∷ ws) (v ∷ vs) = (v < 2 ^ w) × Fit ws vs

-- What stands below the child.
abbrev pub total_after : List ℕ → ℕ → ℕ
total_after [] index = 0
total_after (w ∷ ws) zero = total ws
total_after (w ∷ ws) (suc index) = total_after ws index

pub total_split :
    (ws : List ℕ) (i : ℕ) → total ws ≡ total_before ws i + width_at ws i + total_after ws i
total_split [] i = refl
total_split (w ∷ ws) zero = omega arith
total_split (w ∷ ws) (suc i) = omega (arith, total_split ws i)

no_parts : (ws : List ℕ) → Fit ws []
no_parts [] = tt
no_parts (w ∷ ws) = tt

packed_under :
    (w : ℕ) (ws vs : List ℕ) (v acc t n : ℕ)
    → v < 2 ^ w
    → ((a : ℕ) → field (total ws + (w + t)) n (pack ws vs a) ≡ field (w + t) n a)
    → field ((w + total ws) + t) n (pack ws vs (above w acc v)) ≡ field t n acc
packed_under w ws vs v acc t n p h =
    ap (λ k. field k n (pack ws vs (above w acc v))) {y = total ws + (w + t)} (omega arith)
    ∙ (h (above w acc v) ∙ field-above w t n acc v p)

-- The digits above all the parts are those of `acc`.
field-pack :
    (ws vs : List ℕ) (acc t n : ℕ)
    → Fit ws vs
    → field (total ws + t) n (pack ws vs acc) ≡ field t n acc
field-pack [] vs acc t n f = ap (λ k. field k n acc) (omega arith)
field-pack (w ∷ ws) [] acc t n f =
    packed_under w ws [] 0 acc t n (pow-pos w) (λ a. field-pack ws [] a (w + t) n (no_parts ws))
field-pack (w ∷ ws) (v ∷ vs) acc t n (p, f) =
    packed_under w ws vs v acc t n p (λ a. field-pack ws vs a (w + t) n f)

first_part :
    (w : ℕ) (ws vs : List ℕ) (v acc : ℕ)
    → v < 2 ^ w
    → Fit ws vs
    → field (total ws) w (pack ws vs (above w acc v)) ≡ v
first_part w ws vs v acc p f =
    ap (λ k. field k w (pack ws vs (above w acc v))) {y = total ws + 0} (omega arith)
    ∙ (field-pack ws vs (above w acc v) 0 w f
        ∙ (field-below w 0 w acc v (omega arith) ∙ field-whole w v p))

-- A field at the place of a child is its part.
pub field-part :
    (ws vs : List ℕ) (acc i : ℕ)
    → i < length ws
    → Fit ws vs
    → field (total_after ws i) (width_at ws i) (pack ws vs acc) ≡ part_at vs i
field-part [] vs acc i p f = absurd (omega arith)
field-part (w ∷ ws) [] acc zero p f = first_part w ws [] 0 acc (pow-pos w) (no_parts ws)
field-part (w ∷ ws) [] acc (suc i) p f =
    field-part ws [] (above w acc 0) i (omega arith) (no_parts ws)
field-part (w ∷ ws) (v ∷ vs) acc zero p (q, f) = first_part w ws vs v acc q f
field-part (w ∷ ws) (v ∷ vs) acc (suc i) p (q, f) =
    field-part ws vs (above w acc v) i (omega arith) f

-- The bounds that the code computes from the top name that place.
pub extract-part :
    (ws vs : List ℕ) (acc i : ℕ)
    → i < length ws
    → 0 < width_at ws i
    → Fit ws vs
    → extract
        (total ws - total_before ws i - 1)
        (total ws - total_before ws i - width_at ws i)
        (pack ws vs acc)
      ≡ part_at vs i
extract-part ws vs acc i p q f =
    let low : total ws - total_before ws i - width_at ws i ≡ total_after ws i =
      omega (arith, total_split ws i) in
    let high : total ws - total_before ws i - 1 ≡ total_after ws i + width_at ws i - 1 =
      omega (arith, total_split ws i) in
    ap (λ k. extract k (total ws - total_before ws i - width_at ws i) (pack ws vs acc)) high
    ∙ (ap (λ k. extract (total_after ws i + width_at ws i - 1) k (pack ws vs acc)) low
        ∙ (extract-field (total_after ws i) (width_at ws i) (pack ws vs acc) q
            ∙ field-part ws vs acc i p f))
