-- ===== src/TvNext/Diff/Rebuild.antt =====
-- About the regions of tv-next/diff.cpp: what replacing them does to the source.
use alive_next_deprecated.Prelude.{
  none, some, ℕ, zero, suc, Bool, true, false, ◌&&◌, ◌||◌, ◌==◌, ◌≡◌, refl, ap, ◌∙◌, sym, List, [],
  ◌∷◌, ◌++◌, arith, Bool-cases, inl, inr, length, set, if◌then◌else◌,
}
use mathlib.Core.List.{append_assoc, append-nil}
use alive_next_deprecated.TvNext.Diff.{
  Fn, same_terminator, terminator, body, diff_blocks, compute_diff_regions, Inst, DiffPosition,
  DiffRegion, DiffResult, Walk, Aligned, position, symmetric, asymmetric, same_text, same_name,
  flush_group, found_identical, add_position, add_isolated, add_pair, is_likely_commutativity,
  grouped, pair_loop, aligned_loop, diff_equal, diff_tail, diff_insts, start, stopped, is_empty,
  inst_as_text,
}
use alive_next_deprecated.TvNext.Diff.Text.{
  texts, texts-append, same_text_sound, length-snoc, set-append, append-snoc,
}

-- The positions' target instructions, written over a list of instructions.
abbrev pub put : List DiffPosition → List Inst → List Inst
put [] is = is
put (p ∷ ps) is = put ps (set is p.inst_idx p.tgt_inst)

abbrev pub keep : List Inst → ℕ → List Inst
keep [] n = []
keep (i ∷ is) zero = []
keep (i ∷ is) (suc n) = i ∷ keep is n

-- The instructions, with one region replaced by its target side.
abbrev pub apply_region : DiffRegion → List Inst → List Inst
apply_region r is =
    if r.is_asymmetric then keep is r.src_start_idx ++ r.tgt_region else put r.positions is

abbrev pub apply_regions : List DiffRegion → List Inst → List Inst
apply_regions [] is = is
apply_regions (r ∷ rs) is = apply_regions rs (apply_region r is)

apply-snoc :
    (rs : List DiffRegion) (r : DiffRegion) (is : List Inst)
    → apply_regions (rs ++ (r ∷ [])) is ≡ apply_region r (apply_regions rs is)
apply-snoc [] r is = refl
apply-snoc (q ∷ rs) r is = apply-snoc rs r (apply_region q is)

put-snoc :
    (ps : List DiffPosition) (p : DiffPosition) (is : List Inst)
    → put (ps ++ (p ∷ [])) is ≡ set (put ps is) p.inst_idx p.tgt_inst
put-snoc [] p is = refl
put-snoc (q ∷ ps) p is = put-snoc ps p (set is q.inst_idx q.tgt_inst)

-- What the regions pushed and the open group make of the instructions.
abbrev built : Walk → List Inst → List Inst
built w is = put w.current (apply_regions w.regions is)

apply-grouped :
    (rs : List DiffRegion) (ps : List DiffPosition) (is : List Inst)
    → apply_regions (grouped rs ps) is ≡ put ps (apply_regions rs is)
apply-grouped rs [] is = refl
apply-grouped rs (p ∷ ps) is = apply-snoc rs (symmetric (p ∷ ps)) is

built-flush : (w : Walk) (is : List Inst) → built (flush_group w) is ≡ built w is
unfolding flush_group
built-flush w is = apply-grouped w.regions w.current is

built-found : (w : Walk) (is : List Inst) → built (found_identical w) is ≡ built w is
unfolding found_identical
built-found w is = built-flush (record w { identical = suc w.identical }) is

built-add_position :
    (w : Walk) (p : DiffPosition) (is : List Inst)
    → built (add_position w p) is ≡ set (built w is) p.inst_idx p.tgt_inst
unfolding add_position
built-add_position w p is = put-snoc w.current p (apply_regions w.regions is)

built-add_isolated :
    (w : Walk) (p : DiffPosition) (is : List Inst)
    → built (add_isolated w p) is ≡ set (built w is) p.inst_idx p.tgt_inst
unfolding add_isolated
built-add_isolated w p is =
    built-flush (add_position (flush_group w) p) is
    ∙ (built-add_position (flush_group w) p is
        ∙ ap (λ l. set l p.inst_idx p.tgt_inst) (built-flush w is))

built-add_pair :
    (w : Walk) (i : ℕ) (s t : Inst) (is : List Inst)
    → built (add_pair w i s t) is ≡ set (built w is) i t
unfolding add_pair
built-add_pair w i s t is = elim (Bool-cases (is_likely_commutativity s t)) [
  | inl e ↦ rw e (built-add_isolated w (position i s t) is)
  | inr e ↦ rw e (built-add_position w (position i s t) is)
]

abbrev step : Walk → ℕ → Inst → Inst → Walk
step w i s t = if same_text s t then found_identical w else add_pair w i s t

-- After the round the rebuilt list has one more finished instruction, of the target's text.
Stepped : Walk → ℕ → Inst → Inst → List Inst → List Inst → List Inst → Type 0
Stepped w i s t src pre is =
    (r : Inst) × ((built (step w i s t) is ≡ (pre ++ (r ∷ [])) ++ src)
      × (inst_as_text r ≡ inst_as_text t))

built-step :
    (w : Walk) (s t : Inst) (src pre is : List Inst)
    → built w is ≡ pre ++ (s ∷ src)
    → Stepped w (length pre) s t src pre is
unfolding Stepped
built-step w s t src pre is h = elim (Bool-cases (same_text s t)) [
  | inl e ↦ (s, (rw e (built-found w is ∙ (h ∙ append-snoc pre s src)), same_text_sound s t e))
  | inr e ↦ (
    t,
    (
      rw e (
          built-add_pair w (length pre) s t is
          ∙ (ap (λ l. set l (length pre) t) h ∙ set-append pre s t src)),
      refl,
    ),
  )
]

texts-snoc :
    (pre : List Inst) (r t : Inst) (tgt : List Inst)
    → inst_as_text r ≡ inst_as_text t
    → texts (pre ++ (r ∷ [])) ++ texts tgt ≡ texts pre ++ texts (t ∷ tgt)
texts-snoc pre r t tgt h =
    rw (texts-append pre (r ∷ [])) (append_assoc (texts pre) (inst_as_text r ∷ []) (texts tgt) ∙ cc)

built-pair_loop :
    (src tgt : List Inst) (w : Walk) (pre is : List Inst)
    → length src ≡ length tgt
    → built w is ≡ pre ++ src
    → texts (apply_regions (pair_loop src tgt w (length pre)).regions is) ≡ texts pre ++ texts tgt
unfolding pair_loop Stepped
built-pair_loop [] [] w pre is e h =
    ap texts (built-flush w is ∙ (h ∙ append-nil pre)) ∙ sym (append-nil (texts pre))
built-pair_loop [] (t ∷ tgt) w pre is e h = absurd (omega arith)
built-pair_loop (s ∷ src) [] w pre is e h = absurd (omega arith)
built-pair_loop (s ∷ src) (t ∷ tgt) w pre is e h =
    let (r, (b, x)) = built-step w s t src pre is h in
    ap (λ n. texts (apply_regions (pair_loop src tgt (step w (length pre) s t) n).regions is))
      (sym (length-snoc pre r))
    ∙ (built-pair_loop src tgt (step w (length pre) s t) (pre ++ (r ∷ [])) is (omega arith) b
        ∙ texts-snoc pre r t tgt x)

-- Where the aligned walk stops, the rebuilt list is a finished part and the rest of the source,
-- and the finished part has the texts of the target before its rest.
Stopped : Aligned → List Inst → List Inst → List Inst → Type 0
Stopped a pre tgt is =
    (q : List Inst) × ((apply_regions a.walk.regions is ≡ q ++ a.src_rest)
      × ((length q ≡ a.stop) × (texts q ++ texts a.tgt_rest ≡ texts pre ++ texts tgt)))

built-stopped :
    (w : Walk) (src tgt pre is : List Inst)
    → built w is ≡ pre ++ src
    → Stopped (stopped w (length pre) src tgt) pre tgt is
unfolding Stopped flush_group
built-stopped w src tgt pre is h = (pre, (built-flush w is ∙ h, (refl, refl)))

Stopped-step :
    (a : Aligned) (pre : List Inst) (r t : Inst) (tgt is : List Inst)
    → inst_as_text r ≡ inst_as_text t
    → Stopped a (pre ++ (r ∷ [])) tgt is
    → Stopped a pre (t ∷ tgt) is
unfolding Stopped
Stopped-step a pre r t tgt is x (q, (b, (l, e))) = (q, (b, (l, e ∙ texts-snoc pre r t tgt x)))

built-aligned_loop :
    (src tgt : List Inst) (w : Walk) (pre is : List Inst)
    → built w is ≡ pre ++ src
    → Stopped (aligned_loop src tgt w (length pre)) pre tgt is
unfolding aligned_loop Stepped
built-aligned_loop [] tgt w pre is h = built-stopped w [] tgt pre is h
built-aligned_loop (s ∷ src) [] w pre is h = built-stopped w (s ∷ src) [] pre is h
built-aligned_loop (s ∷ src) (t ∷ tgt) w pre is h =
    elim (Bool-cases (same_text s t || same_name s t)) [
      | inl e ↦
          let (r, (b, x)) = built-step w s t src pre is h in
          rw e (
            Stopped-step (aligned_loop src tgt (step w (length pre) s t) (suc (length pre))) pre r t
              tgt is x
              (rw (sym (length-snoc pre r))
                (built-aligned_loop src tgt (step w (length pre) s t) (pre ++ (r ∷ [])) is b)))
      | inr e ↦ rw e (built-stopped w (s ∷ src) (t ∷ tgt) pre is h)
    ]

keep-append : (q rest : List Inst) → keep (q ++ rest) (length q) ≡ q
keep-append [] [] = refl
keep-append [] (i ∷ rest) = refl
keep-append (i ∷ q) rest = ap (◌∷◌ i) (keep-append q rest)

rebuilt_tail :
    (a : Aligned) (q tgt is : List Inst)
    → apply_regions a.walk.regions is ≡ q ++ a.src_rest
    → length q ≡ a.stop
    → texts q ++ texts a.tgt_rest ≡ texts tgt
    → texts (apply_regions (a.walk.regions ++ (asymmetric a ∷ [])) is) ≡ texts tgt
rebuilt_tail a q tgt is b l e =
    ap texts (
      apply-snoc a.walk.regions (asymmetric a) is
      ∙ ap (λ k. k ++ a.tgt_rest)
          (ap (λ k. keep k a.stop) b
            ∙ (ap (keep (q ++ a.src_rest)) (sym l) ∙ keep-append q a.src_rest)))
    ∙ (texts-append q a.tgt_rest ∙ e)

empty_rest : (src tgt : List Inst) → (is_empty src && is_empty tgt) ≡ true → (src ≡ []) × (tgt ≡ [])
empty_rest [] [] h = (refl, refl)
empty_rest [] (t ∷ tgt) h = absurd (ground arith)
empty_rest (s ∷ src) tgt h = absurd (ground arith)

diff_tail-rebuilds :
    (src tgt : List Inst) → texts (apply_regions (diff_tail src tgt).regions src) ≡ texts tgt
unfolding diff_tail Stopped
diff_tail-rebuilds src tgt =
    let a : Aligned = aligned_loop src tgt start 0 in
    let (q, (b, (l, e))) = built-aligned_loop src tgt start [] src refl in
    elim (Bool-cases (is_empty a.src_rest && is_empty a.tgt_rest)) [
      | inl h ↦
          let (es, et) = empty_rest a.src_rest a.tgt_rest h in
          rw h (
            ap texts (b ∙ (ap (λ k. q ++ k) es ∙ append-nil q))
            ∙ (sym (append-nil (texts q)) ∙ (ap (λ k. texts q ++ texts k) (sym et) ∙ e)))
      | inr h ↦ rw h (rebuilt_tail a q tgt src b l e)
    ]

-- Replacing each region of the result by its target side turns the source's instructions into
-- instructions whose texts are the target's, for any two lists of instructions.
pub diff_insts-rebuilds :
    (src tgt : List Inst) → texts (apply_regions (diff_insts src tgt).regions src) ≡ texts tgt
unfolding diff_insts diff_equal
diff_insts-rebuilds src tgt = elim (Bool-cases (length src == length tgt)) [
  | inl e ↦ rw e (built-pair_loop src tgt start [] src (ground arith) refl)
  | inr e ↦ rw e (diff_tail-rebuilds src tgt)
]

-- What a result says of two functions: each is one block, the texts of the terminators agree, and
-- replacing the regions turns the source's other instructions into ones of the target's texts.
pub Rebuilds : Fn → Fn → DiffResult → Type 0
Rebuilds src tgt r =
    (b : List Inst) × ((c : List Inst) × ((src.blocks ≡ b ∷ [])
        × ((tgt.blocks ≡ c ∷ [])
            × ((same_terminator (terminator b) (terminator c) ≡ true)
                × (texts (apply_regions r.regions (body b)) ≡ texts (body c))))))

guarded :
    (t : Bool) (x r : DiffResult) → (if t then some x else none) ≡ some r → (t ≡ true) × (x ≡ r)
guarded true x r h = (refl, cc)
guarded false x r h = absurd (cc)

diff_blocks-rebuilds :
    (b c : List Inst) (r : DiffResult)
    → diff_blocks b c ≡ some r
    → (same_terminator (terminator b) (terminator c) ≡ true)
      × (texts (apply_regions r.regions (body b)) ≡ texts (body c))
unfolding diff_blocks
diff_blocks-rebuilds b c r h =
    let (e, x) =
      guarded (same_terminator (terminator b) (terminator c)) (diff_insts (body b) (body c)) r h in
    (
      e,
      ap (λ (y : DiffResult). texts (apply_regions y.regions (body b))) (sym x)
          ∙ diff_insts-rebuilds (body b) (body c),
    )

singles :
    (bs cs : List (List Inst)) (r : DiffResult)
    → compute_diff_regions (record { blocks = bs }) (record { blocks = cs }) ≡ some r
    → Rebuilds (record { blocks = bs }) (record { blocks = cs }) r
unfolding compute_diff_regions Rebuilds
singles [] cs r h = absurd (cc)
singles (b ∷ d ∷ bs) cs r h = absurd (cc)
singles (b ∷ []) [] r h = absurd (cc)
singles (b ∷ []) (c ∷ d ∷ cs) r h = absurd (cc)
singles (b ∷ []) (c ∷ []) r h = (b, (c, (refl, (refl, diff_blocks-rebuilds b c r h))))

-- When a comparison of two functions gives a result, each function is one block, the texts of
-- their terminators agree where both have one, and replacing each region by its target side turns
-- the source's other instructions into instructions that have the target's texts.
pub compute_diff-Rebuilds :
    (src tgt : Fn) (r : DiffResult) → compute_diff_regions src tgt ≡ some r → Rebuilds src tgt r
compute_diff-Rebuilds src tgt r h = singles src.blocks tgt.blocks r h
