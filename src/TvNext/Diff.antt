-- ===== src/TvNext/Diff.antt =====
-- tv-next/diff.cpp: computeDiffRegions, and the types of tv-next/diff.h.
--
-- An instruction is what the code reads of an llvm::Instruction: the text that `print` writes,
-- the opcode, the operands, the name (empty without one), and whether it ends its block. A text is
-- the list of its characters' codes. The diagnostics are not kept.
pub mod Text
pub mod Rebuild
pub mod Groups
use alive_next_deprecated.Prelude.{
  ℕ, zero, suc, Bool, true, false, ◌&&◌, ◌||◌, not, ◌==◌, if◌then◌else◌, Option, none, some, List,
  [], ◌∷◌, ◌++◌, length,
}

abbrev pub Text : Type 0
Text = List ℕ

abbrev pub text_eq : Text → Text → Bool
text_eq [] [] = true
text_eq [] (d ∷ t) = false
text_eq (c ∷ s) [] = false
text_eq (c ∷ s) (d ∷ t) = (c == d) && text_eq s t

pub data Operand : Type 0 where
  constant : Text → Operand
  named : Text → Operand

pub record Inst : Type 0 where
  pub printed : Text
  pub opcode : ℕ
  pub operands : List Operand
  pub name : Text
  pub is_terminator : Bool

pub record Fn : Type 0 where
  pub blocks : List (List Inst)

pub record DiffPosition : Type 0 where
  pub inst_idx : ℕ
  pub src_inst : Inst
  pub tgt_inst : Inst

pub record DiffRegion : Type 0 where
  pub positions : List DiffPosition
  pub is_asymmetric : Bool
  pub src_region : List Inst
  pub tgt_region : List Inst
  pub src_start_idx : ℕ
  pub tgt_start_idx : ℕ

pub record DiffResult : Type 0 where
  pub regions : List DiffRegion
  pub identical_count : ℕ

-- The name of a value without one is empty, as the key is.
unfoldable pub operand_key : Operand → Text
operand_key (constant s) = s
operand_key (named s) = s

operand_keys : List Operand → List Text
operand_keys [] = []
operand_keys (o ∷ os) = operand_key o ∷ operand_keys os

unfoldable pub erase_text : Text → List Text → Option (List Text)
erase_text t [] = none
erase_text t (u ∷ us) =
    let rest = erase_text t us in
    if text_eq t u then some us else elim rest [ none ↦ none | some vs ↦ some (u ∷ vs) ]

-- The equality of two multisets.
unfoldable pub same_multiset : List Text → List Text → Bool
unfolding erase_text
same_multiset [] [] = true
same_multiset [] (u ∷ us) = false
same_multiset (t ∷ ts) us = elim (erase_text t us) [ none ↦ false | some vs ↦ same_multiset ts vs ]

unfoldable pub is_likely_commutativity : Inst → Inst → Bool
unfolding operand_keys operand_key same_multiset
is_likely_commutativity src tgt =
    if not (src.opcode == tgt.opcode)
    then false
    else if not (length src.operands == 2) || not (length tgt.operands == 2)
    then false
    else if not (text_eq src.name tgt.name)
    then false
    else same_multiset (operand_keys src.operands) (operand_keys tgt.operands)

-- The text up to the first ", !".
unfoldable pub cut_metadata : Text → Text
cut_metadata [] = []
cut_metadata (c ∷ []) = c ∷ []
cut_metadata (c ∷ d ∷ []) = c ∷ d ∷ []
cut_metadata (c ∷ d ∷ e ∷ s) =
    let rest = cut_metadata (d ∷ e ∷ s) in
    if (c == 44) && ((d == 32) && (e == 33)) then [] else c ∷ rest

-- The text without the blanks and tabs that it starts with.
unfoldable pub strip_lead : Text → Text
strip_lead [] = []
strip_lead (c ∷ s) = if (c == 32) || (c == 9) then strip_lead s else c ∷ s

unfoldable pub inst_as_text : Inst → Text
unfolding cut_metadata strip_lead
inst_as_text i = strip_lead (cut_metadata i.printed)

abbrev pub same_text : Inst → Inst → Bool
same_text s t = text_eq (inst_as_text s) (inst_as_text t)

-- The state of the two loops: the regions pushed, the open group, and the count.
pub record Walk : Type 0 where
  pub regions : List DiffRegion
  pub current : List DiffPosition
  pub identical : ℕ

abbrev pub symmetric : List DiffPosition → DiffRegion
symmetric ps = record {
  positions = ps;
  is_asymmetric = false;
  src_region = [];
  tgt_region = [];
  src_start_idx = 0;
  tgt_start_idx = 0;
}

abbrev pub position : ℕ → Inst → Inst → DiffPosition
position i s t = record { inst_idx = i; src_inst = s; tgt_inst = t }

abbrev pub grouped : List DiffRegion → List DiffPosition → List DiffRegion
grouped rs [] = rs
grouped rs (p ∷ ps) = rs ++ (symmetric (p ∷ ps) ∷ [])

unfoldable pub flush_group : Walk → Walk
flush_group w = record {
  regions = grouped w.regions w.current;
  current = [];
  identical = w.identical;
}

unfoldable pub found_identical : Walk → Walk
unfolding flush_group
found_identical w = flush_group (record w { identical = suc w.identical })

unfoldable pub add_position : Walk → DiffPosition → Walk
add_position w p = record w { current = w.current ++ (p ∷ []) }

unfoldable pub add_isolated : Walk → DiffPosition → Walk
unfolding flush_group add_position
add_isolated w p = flush_group (add_position (flush_group w) p)

-- A pair whose texts differ, in either loop.
unfoldable pub add_pair : Walk → ℕ → Inst → Inst → Walk
unfolding is_likely_commutativity add_isolated add_position
add_pair w i s t =
    if is_likely_commutativity s t
    then add_isolated w (position i s t)
    else add_position w (position i s t)

-- The loop for equally many instructions, from position `i` on.
unfoldable pub pair_loop : List Inst → List Inst → Walk → ℕ → Walk
unfolding flush_group found_identical add_pair
pair_loop [] tgt w i = flush_group w
pair_loop (s ∷ src) [] w i = flush_group w
pair_loop (s ∷ src) (t ∷ tgt) w i =
    pair_loop src tgt (if same_text s t then found_identical w else add_pair w i s t) (suc i)

abbrev pub same_name : Inst → Inst → Bool
same_name s t = not (text_eq s.name []) && (not (text_eq t.name []) && text_eq s.name t.name)

pub record Aligned : Type 0 where
  pub walk : Walk
  pub stop : ℕ
  pub src_rest : List Inst
  pub tgt_rest : List Inst

abbrev pub stopped : Walk → ℕ → List Inst → List Inst → Aligned
stopped w i src tgt = record { walk = flush_group w; stop = i; src_rest = src; tgt_rest = tgt }

-- The loop for different counts; it stops at the first pair that does not align.
unfoldable pub aligned_loop : List Inst → List Inst → Walk → ℕ → Aligned
unfolding flush_group found_identical add_pair
aligned_loop [] tgt w i = stopped w i [] tgt
aligned_loop (s ∷ src) [] w i = stopped w i (s ∷ src) []
aligned_loop (s ∷ src) (t ∷ tgt) w i =
    let next =
      aligned_loop src tgt (if same_text s t then found_identical w else add_pair w i s t)
        (suc i) in
    if same_text s t || same_name s t then next else stopped w i (s ∷ src) (t ∷ tgt)

abbrev pub asymmetric : Aligned → DiffRegion
asymmetric a = record {
  positions = [];
  is_asymmetric = true;
  src_region = a.src_rest;
  tgt_region = a.tgt_rest;
  src_start_idx = a.stop;
  tgt_start_idx = a.stop;
}

abbrev pub is_empty : List Inst → Bool
is_empty [] = true
is_empty (i ∷ is) = false

abbrev pub start : Walk
start = record { regions = []; current = []; identical = 0 }

unfoldable pub diff_equal : List Inst → List Inst → DiffResult
unfolding pair_loop
diff_equal src tgt =
    let w = pair_loop src tgt start 0 in
    record { regions = w.regions; identical_count = w.identical }

unfoldable pub diff_tail : List Inst → List Inst → DiffResult
unfolding aligned_loop
diff_tail src tgt =
    let a = aligned_loop src tgt start 0 in
    record {
      regions =
          if is_empty a.src_rest && is_empty a.tgt_rest
          then a.walk.regions
          else a.walk.regions ++ (asymmetric a ∷ []);
      identical_count = a.walk.identical;
    }

unfoldable pub diff_insts : List Inst → List Inst → DiffResult
unfolding diff_equal diff_tail
diff_insts src tgt = if length src == length tgt then diff_equal src tgt else diff_tail src tgt

unfoldable pub body : List Inst → List Inst
body [] = []
body (i ∷ is) = if i.is_terminator then body is else i ∷ body is

-- The last instruction of a block, if it is a terminator.
unfoldable pub terminator : List Inst → Option Inst
terminator [] = none
terminator (i ∷ []) = if i.is_terminator then some i else none
terminator (i ∷ j ∷ is) = terminator (j ∷ is)

unfoldable pub same_terminator : Option Inst → Option Inst → Bool
same_terminator none t = true
same_terminator (some s) none = true
same_terminator (some s) (some t) = same_text s t

-- A function that has exactly one block.
abbrev pub single : Fn → Option (List Inst)
single f = elim f.blocks [ [] ↦ none | b ∷ [] ↦ some b | b ∷ c ∷ bs ↦ none ]

unfoldable pub diff_blocks : List Inst → List Inst → Option DiffResult
unfolding diff_insts body terminator same_terminator
diff_blocks src tgt =
    if same_terminator (terminator src) (terminator tgt)
    then some (diff_insts (body src) (body tgt))
    else none

unfoldable pub compute_diff_regions : Fn → Fn → Option DiffResult
unfolding diff_blocks
compute_diff_regions src tgt = elim (single src) [
  | none ↦ none
  | some b ↦ elim (single tgt) [ none ↦ none | some c ↦ diff_blocks b c ]
]
