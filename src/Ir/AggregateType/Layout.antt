-- ===== src/Ir/AggregateType/Layout.antt =====
-- About AggregateType::aggregateVals and AggregateType::extract (ir/type.cpp).
use alive_next_deprecated.Prelude.{
  ℕ, zero, suc, ◌*◌, ◌-◌, ◌^◌, ◌<◌, ◌≡◌, refl, ap, sym, ◌∙◌, arith, Bool, false, ◌==◌, Option, none,
  some, List, [], ◌∷◌, length, if◌then◌else◌, Bool-cases, inl, inr,
}
use alive_next_deprecated.Prelude.Fields.{above}
use alive_next_deprecated.Smt.Bv.{extract}
use alive_next_deprecated.Ir.AggregateType.{
  Bits, Child, first_val, other_vals, append_child, aggregate_loop, aggregate_vals, widths,
  np_widths, total, total_before, width_at, type_bits, type_np_bits, extract_child,
}
use alive_next_deprecated.Ir.AggregateType.Words.{pack, part_at, Fit, extract-part}

abbrev zero_bits : Bits
zero_bits = record { value = 0; non_poison = 0 }

-- What each child holds: the next value, or its dummy where it is padding; a child without bits
-- holds nothing, but has a value too.
abbrev pub slots : List Child → List Bits → List Bits
slots [] vals = []
slots (c ∷ cs) vals =
    let skipped = zero_bits ∷ slots cs (other_vals vals) in
    let padded = c.dummy ∷ slots cs vals in
    let taken = first_val vals ∷ slots cs (other_vals vals) in
    if c.bits == 0 then skipped else if c.is_padding then padded else taken

abbrev pub values : List Bits → List ℕ
values [] = []
values (b ∷ bs) = b.value ∷ values bs

abbrev pub poisons : List Bits → List ℕ
poisons [] = []
poisons (b ∷ bs) = b.non_poison ∷ poisons bs

-- A child without bits has no poison bits.
abbrev pub NoStray : List Child → Type 0
NoStray [] = Unit
NoStray (c ∷ cs) = (c.bits ≡ 0 → c.np_bits false ≡ 0) × NoStray cs

abbrev value_of : Option Bits → ℕ
value_of none = 0
value_of (some b) = b.value

abbrev poison_of : Option Bits → ℕ
poison_of none = 0
poison_of (some b) = b.non_poison

append-value :
    (c : Child) (v : Option Bits) (b : Bits)
    → (append_child c v b).value ≡ above c.bits (value_of v) b.value
append-value c none b = omega arith
append-value c (some v) b = refl

append-poison :
    (c : Child) (v : Option Bits) (b : Bits)
    → (append_child c v b).non_poison ≡ above (c.np_bits false) (poison_of v) b.non_poison
append-poison c none b = omega arith
append-poison c (some v) b = refl

nothing_above : (n acc : ℕ) → n ≡ 0 → acc ≡ above n acc 0
nothing_above n acc h = omega (arith, ap (λ k. acc * 2 ^ k) h)

loop-value :
    (cs : List Child) (vals : List Bits) (v : Option Bits)
    → value_of (aggregate_loop cs vals v) ≡ pack (widths cs) (values (slots cs vals)) (value_of v)
unfolding aggregate_loop
loop-value [] vals v = refl
loop-value (c ∷ cs) vals v = elim (Bool-cases (c.bits == 0)) [
  | inl e ↦ rw e (
      loop-value cs (other_vals vals) v
      ∙ ap (pack (widths cs) (values (slots cs (other_vals vals))))
          (nothing_above c.bits (value_of v) (ground arith)))
  | inr e ↦ elim (Bool-cases c.is_padding) [
    | inl f ↦
        rw (e, f)
          (loop-value cs vals (some (append_child c v c.dummy))
            ∙ ap (pack (widths cs) (values (slots cs vals))) (append-value c v c.dummy))
    | inr f ↦
        rw (e, f)
          (loop-value cs (other_vals vals) (some (append_child c v (first_val vals)))
            ∙ ap (pack (widths cs) (values (slots cs (other_vals vals))))
                (append-value c v (first_val vals)))
  ]
]

loop-poison :
    (cs : List Child) (vals : List Bits) (v : Option Bits)
    → NoStray cs
    → poison_of (aggregate_loop cs vals v)
      ≡ pack (np_widths false cs) (poisons (slots cs vals)) (poison_of v)
unfolding aggregate_loop
loop-poison [] vals v n = refl
loop-poison (c ∷ cs) vals v (z, n) = elim (Bool-cases (c.bits == 0)) [
  | inl e ↦ rw e (
      loop-poison cs (other_vals vals) v n
      ∙ ap (pack (np_widths false cs) (poisons (slots cs (other_vals vals))))
          (nothing_above (c.np_bits false) (poison_of v) (z (ground arith))))
  | inr e ↦ elim (Bool-cases c.is_padding) [
    | inl f ↦
        rw (e, f)
          (loop-poison cs vals (some (append_child c v c.dummy)) n
            ∙ ap (pack (np_widths false cs) (poisons (slots cs vals))) (append-poison c v c.dummy))
    | inr f ↦
        rw (e, f)
          (loop-poison cs (other_vals vals) (some (append_child c v (first_val vals))) n
            ∙ ap (pack (np_widths false cs) (poisons (slots cs (other_vals vals))))
                (append-poison c v (first_val vals)))
  ]
]

Result : List Child → List Bits → Option Bits → Type 0
Result cs vals v = (w : Bits) × (aggregate_loop cs vals v ≡ some w)

loop_keeps : (cs : List Child) (vals : List Bits) (v : Bits) → Result cs vals (some v)
unfolding aggregate_loop Result
loop_keeps [] vals v = (v, refl)
loop_keeps (c ∷ cs) vals v = elim (Bool-cases (c.bits == 0)) [
  | inl e ↦ rw e (loop_keeps cs (other_vals vals) v)
  | inr e ↦ elim (Bool-cases c.is_padding) [
    | inl f ↦ rw (e, f) (loop_keeps cs vals (append_child c (some v) c.dummy))
    | inr f ↦ rw (e, f) (loop_keeps cs (other_vals vals) (append_child c (some v) (first_val vals)))
  ]
]

taken_or_padded :
    (c : Child) (cs : List Child) (vals : List Bits)
    → (c.bits == 0) ≡ false
    → Result (c ∷ cs) vals none
unfolding aggregate_loop Result
taken_or_padded c cs vals e = elim (Bool-cases c.is_padding) [
  | inl f ↦ rw (e, f) (loop_keeps cs vals (append_child c none c.dummy))
  | inr f ↦ rw (e, f) (loop_keeps cs (other_vals vals) (append_child c none (first_val vals)))
]

-- The read that `extract` does in one of the two words.
abbrev read_at : List ℕ → ℕ → ℕ → ℕ
read_at ws i v =
    extract (total ws - total_before ws i - 1) (total ws - total_before ws i - width_at ws i) v

-- A child with bits leaves a result.
loop_gives :
    (cs : List Child) (vals : List Bits) (i : ℕ) → 0 < width_at (widths cs) i → Result cs vals none
unfolding aggregate_loop Result
loop_gives [] vals i p = absurd (omega arith)
loop_gives (c ∷ cs) vals zero p = elim (Bool-cases (c.bits == 0)) [
  | inl e ↦ absurd (ground arith)
  | inr e ↦ taken_or_padded c cs vals e
]
loop_gives (c ∷ cs) vals (suc i) p = elim (Bool-cases (c.bits == 0)) [
  | inl e ↦ rw e (loop_gives cs (other_vals vals) i p)
  | inr e ↦ taken_or_padded c cs vals e
]

-- The word of a child, and its poison bits, in what `aggregate_vals` gives.
pub GivesBack : Bool → List Child → List Bits → ℕ → Type 0
GivesBack le cs vals i =
    (w : Bits) × ((aggregate_vals cs vals ≡ some w)
      × (((extract_child le false cs w i).value ≡ part_at (values (slots cs vals)) i)
          × ((extract_child le false cs w i).non_poison ≡ part_at (poisons (slots cs vals)) i)))

-- Extracting, not from an integer, a child that has bits from the word of an aggregate gives the value that was put in
-- for it, or its dummy where it is padding, whatever the other children are; the values fit the
-- widths, and a child without bits has no poison bits.
pub extract_child-GivesBack :
    (le : Bool) (cs : List Child) (vals : List Bits) (i : ℕ)
    → i < length (widths cs)
    → i < length (np_widths false cs)
    → 0 < width_at (widths cs) i
    → 0 < width_at (np_widths false cs) i
    → NoStray cs
    → Fit (widths cs) (values (slots cs vals))
    → Fit (np_widths false cs) (poisons (slots cs vals))
    → GivesBack le cs vals i
unfolding GivesBack aggregate_vals extract_child type_bits type_np_bits Result
extract_child-GivesBack le [] vals i p q x y n f g = absurd (omega arith)
extract_child-GivesBack le (c ∷ cs) vals i p q x y n f g =
    let (w, e) = loop_gives (c ∷ cs) vals i x in
    let value : w.value ≡ pack (widths (c ∷ cs)) (values (slots (c ∷ cs) vals)) 0 =
      sym (ap value_of e) ∙ loop-value (c ∷ cs) vals none in
    let poison : w.non_poison ≡ pack (np_widths false (c ∷ cs)) (poisons (slots (c ∷ cs) vals)) 0 =
      sym (ap poison_of e) ∙ loop-poison (c ∷ cs) vals none n in
    (
      w,
      (
        e,
        (
          ap (read_at (widths (c ∷ cs)) i) value
              ∙ extract-part (widths (c ∷ cs)) (values (slots (c ∷ cs) vals)) 0 i p x f,
          ap (read_at (np_widths false (c ∷ cs)) i) poison
              ∙ extract-part (np_widths false (c ∷ cs)) (poisons (slots (c ∷ cs) vals)) 0 i q y g,
        ),
      ),
    )
