-- ===== src/Tests/Diffs.antt =====
-- Inputs for the tests of the comparison of two functions.
use alive_next_deprecated.Prelude.{ℕ, ◌≡◌, refl, true, false, some, List, [], ◌∷◌, length}
use alive_next_deprecated.TvNext.Diff.{
  diff_blocks, Inst, Operand, Fn, DiffResult, compute_diff_regions, diff_insts, body, terminator,
  same_terminator, inst_as_text, cut_metadata, strip_lead,
}
use alive_next_deprecated.TvNext.Diff.Rebuild.{Rebuilds, compute_diff-Rebuilds}
use alive_next_deprecated.TvNext.Diff.Groups.{Divides, compute_diff-Divides}

abbrev inst : List ℕ → ℕ → List Operand → Inst
inst text op operands = record {
  printed = text;
  opcode = op;
  operands = operands;
  name = 97 ∷ [];
  is_terminator = false;
}

abbrev ret : Inst
ret = record {
  printed = 32 ∷ 114 ∷ 44 ∷ 32 ∷ 33 ∷ 100 ∷ [];
  opcode = 1;
  operands = [];
  name = [];
  is_terminator = true;
}

abbrev x : Operand
x = Operand.named (120 ∷ [])

abbrev y : Operand
y = Operand.named (121 ∷ [])

-- The third pair is a swap of operands, the second differs, the first is the same but for a blank.
abbrev src_block : List Inst
src_block =
    inst (32 ∷ 65 ∷ []) 1 (x ∷ y ∷ [])
    ∷ inst (66 ∷ []) 2 (x ∷ y ∷ [])
    ∷ inst (67 ∷ []) 3 (x ∷ y ∷ [])
    ∷ ret
    ∷ []

abbrev tgt_block : List Inst
tgt_block =
    inst (65 ∷ []) 1 (x ∷ y ∷ [])
    ∷ inst (68 ∷ []) 4 (x ∷ x ∷ [])
    ∷ inst (69 ∷ []) 3 (y ∷ x ∷ [])
    ∷ ret
    ∷ []

abbrev src_fn : Fn
src_fn = record { blocks = src_block ∷ [] }

abbrev tgt_fn : Fn
tgt_fn = record { blocks = tgt_block ∷ [] }

same_length : length (body src_block) ≡ length (body tgt_block)
unfolding body
same_length = refl

same_end : same_terminator (terminator src_block) (terminator tgt_block) ≡ true
unfolding terminator same_terminator inst_as_text cut_metadata strip_lead
same_end = refl

compute_diff-Divides_example :
    (r : DiffResult) × ((compute_diff_regions src_fn tgt_fn ≡ some r)
      × Divides r (body src_block) (body tgt_block))
compute_diff-Divides_example = compute_diff-Divides src_block tgt_block same_length same_end

given : compute_diff_regions src_fn tgt_fn ≡ some (diff_insts (body src_block) (body tgt_block))
unfolding compute_diff_regions diff_blocks
given = rw same_end refl

compute_diff-Rebuilds_example :
    Rebuilds src_fn tgt_fn (diff_insts (body src_block) (body tgt_block))
compute_diff-Rebuilds_example =
    compute_diff-Rebuilds src_fn tgt_fn (diff_insts (body src_block) (body tgt_block)) given
