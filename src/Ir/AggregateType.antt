-- ===== src/Ir/AggregateType.antt =====
-- ir/type.cpp: AggregateType, the layout of structs, arrays and vectors as one word.
--
-- A child is its widths, whether it is padding, and its dummy value. A value is a pair of words, of
-- the value and of the poison bits, as the child's toBV gives it and its fromBV takes it; both
-- conversions keep the words, and so does fromInt.
pub mod Words
pub mod Layout
use alive_next_deprecated.Prelude.{
  ℕ, zero, suc, ◌+◌, ◌-◌, Bool, true, false, ◌==◌, Option, none, some, List, [], ◌∷◌, length, ◌&&◌,
  if◌then◌else◌,
}
use alive_next_deprecated.Smt.Bv.{concat, extract, to_bv_bool}

pub record Bits : Type 0 where
  pub value : ℕ
  pub non_poison : ℕ

pub record Child : Type 0 where
  pub bits : ℕ
  pub np_bits : Bool → ℕ
  pub is_padding : Bool
  pub dummy : Bits

-- The loop of countPaddings over the children up to `to_idx`.
unfoldable pub count_paddings : List Child → ℕ → ℕ
count_paddings [] to_idx = 0
count_paddings (c ∷ cs) zero = to_bv_bool c.is_padding
count_paddings (c ∷ cs) (suc to_idx) = to_bv_bool c.is_padding + count_paddings cs to_idx

unfoldable pub num_paddings_const : List Child → ℕ
unfolding count_paddings
num_paddings_const [] = 0
num_paddings_const (c ∷ cs) = count_paddings (c ∷ cs) (length cs)

abbrev pub first_val : List Bits → Bits
first_val [] = record { value = 0; non_poison = 0 }
first_val (v ∷ vs) = v

abbrev pub other_vals : List Bits → List Bits
other_vals [] = []
other_vals (v ∷ vs) = vs

-- `first ? vv : v.concat(vv)`.
abbrev pub append_child : Child → Option Bits → Bits → Bits
append_child c none vv = vv
append_child c (some v) vv = record {
  value = concat c.bits v.value vv.value;
  non_poison = concat (c.np_bits false) v.non_poison vv.non_poison;
}

unfoldable pub aggregate_loop : List Child → List Bits → Option Bits → Option Bits
aggregate_loop [] vals v = v
aggregate_loop (c ∷ cs) vals v =
    let skipped = aggregate_loop cs (other_vals vals) v in
    let padded = aggregate_loop cs vals (some (append_child c v c.dummy)) in
    let taken = aggregate_loop cs (other_vals vals) (some (append_child c v (first_val vals))) in
    if c.bits == 0 then skipped else if c.is_padding then padded else taken

-- `none` is the value without terms that is left where no child has bits.
unfoldable pub aggregate_vals : List Child → List Bits → Option Bits
unfolding aggregate_loop
aggregate_vals [] vals = some (record { value = 0; non_poison = 0 })
aggregate_vals (c ∷ cs) vals = aggregate_loop (c ∷ cs) vals none

abbrev pub widths : List Child → List ℕ
widths [] = []
widths (c ∷ cs) = c.bits ∷ widths cs

abbrev pub np_widths : Bool → List Child → List ℕ
np_widths from_int [] = []
np_widths from_int (c ∷ cs) = c.np_bits from_int ∷ np_widths from_int cs

abbrev pub total : List ℕ → ℕ
total [] = 0
total (w ∷ ws) = w + total ws

-- AggregateType::bits and np_bits.
unfoldable pub type_bits : List Child → ℕ
type_bits [] = 1
type_bits (c ∷ cs) = total (widths (c ∷ cs))

unfoldable pub type_np_bits : Bool → List Child → ℕ
type_np_bits from_int [] = 1
type_np_bits from_int (c ∷ cs) = total (np_widths from_int (c ∷ cs))

-- The first loop of extract: what stands above the child.
abbrev pub total_before : List ℕ → ℕ → ℕ
total_before [] index = 0
total_before (w ∷ ws) zero = 0
total_before (w ∷ ws) (suc index) = w + total_before ws index

abbrev pub width_at : List ℕ → ℕ → ℕ
width_at [] index = 0
width_at (w ∷ ws) zero = w
width_at (w ∷ ws) (suc index) = width_at ws index

abbrev pub part_below : List ℕ → ℕ → ℕ → ℕ
part_below ws index word =
    let under = total_before ws index in extract (under + width_at ws index - 1) under word

abbrev pub part_above : ℕ → List ℕ → ℕ → ℕ → ℕ
part_above bits ws index word =
    let high = bits - total_before ws index in extract (high - 1) (high - width_at ws index) word

unfoldable pub extract_child : Bool → Bool → List Child → Bits → ℕ → Bits
unfolding type_bits type_np_bits
extract_child little_endian from_int cs val index =
    let low_first : Bits = record {
      value = part_below (widths cs) index val.value;
      non_poison = part_below (np_widths from_int cs) index val.non_poison;
    } in
    let high_first : Bits = record {
      value = part_above (type_bits cs) (widths cs) index val.value;
      non_poison =
          part_above (type_np_bits from_int cs) (np_widths from_int cs) index val.non_poison;
    } in
    if from_int && little_endian then low_first else high_first
