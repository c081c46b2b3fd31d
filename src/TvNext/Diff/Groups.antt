-- ===== src/TvNext/Diff/Groups.antt =====
-- About the regions of tv-next/diff.cpp: which pairs they hold, in what order.
use alive_next_deprecated.Prelude.{
  some, ℕ, suc, ◌+◌, ◌<◌, true, false, ◌==◌, ◌≡◌, refl, ap, ◌∙◌, sym, List, [], ◌∷◌, ◌++◌, ◌⊎◌,
  arith, Bool-cases, inl, inr, length, if◌then◌else◌,
}
use mathlib.Core.List.{append_assoc, append-nil}
use alive_next_deprecated.TvNext.Diff.{
  Inst, DiffPosition, DiffRegion, DiffResult, Walk, position, symmetric, same_text, flush_group,
  found_identical, add_position, add_isolated, add_pair, is_likely_commutativity, grouped,
  pair_loop, diff_equal, diff_insts, start, body, terminator, same_terminator, diff_blocks,
  compute_diff_regions,
}

-- The pairs at the positions `i`, `i + 1` and so on whose texts differ.
abbrev pub differing : ℕ → List Inst → List Inst → List DiffPosition
differing i [] tgt = []
differing i (s ∷ src) [] = []
differing i (s ∷ src) (t ∷ tgt) =
    let rest = differing (suc i) src tgt in if same_text s t then rest else position i s t ∷ rest

abbrev pub all_positions : List DiffRegion → List DiffPosition
all_positions [] = []
all_positions (r ∷ rs) = r.positions ++ all_positions rs

-- The positions are those from `i` up to `j`, one after the other.
abbrev pub Run : ℕ → List DiffPosition → ℕ → Type 0
Run i [] j = i ≡ j
Run i (p ∷ ps) j = (p.inst_idx ≡ i) × Run (suc i) ps j

abbrev pub NoSwap : List DiffPosition → Type 0
NoSwap [] = Unit
NoSwap (p ∷ ps) = (is_likely_commutativity p.src_inst p.tgt_inst ≡ false) × NoSwap ps

-- A region of consecutive pairs, not empty, with no swap of operands unless it is that pair alone.
pub IsGroup : DiffRegion → Type 0
IsGroup r =
    (i : ℕ) × ((j : ℕ) × ((i < j)
        × (Run i r.positions j × (NoSwap r.positions ⊎ (length r.positions ≡ 1)))))

abbrev pub AllGroups : List DiffRegion → Type 0
AllGroups [] = Unit
AllGroups (r ∷ rs) = IsGroup r × AllGroups rs

AllGroups-snoc :
    (rs : List DiffRegion) (r : DiffRegion) → AllGroups rs → IsGroup r → AllGroups (rs ++ (r ∷ []))
AllGroups-snoc [] r a g = (g, a)
AllGroups-snoc (q ∷ rs) r (h, a) g = (h, AllGroups-snoc rs r a g)

Run-snoc :
    (ps : List DiffPosition) (i j : ℕ) (s t : Inst)
    → Run i ps j
    → Run i (ps ++ (position j s t ∷ [])) (suc j)
Run-snoc [] i j s t r = (sym r, ap suc r)
Run-snoc (p ∷ ps) i j s t (e, r) = (e, Run-snoc ps (suc i) j s t r)

NoSwap-snoc :
    (ps : List DiffPosition) (p : DiffPosition)
    → NoSwap ps
    → is_likely_commutativity p.src_inst p.tgt_inst ≡ false
    → NoSwap (ps ++ (p ∷ []))
NoSwap-snoc [] p n h = (h, n)
NoSwap-snoc (q ∷ ps) p (e, n) h = (e, NoSwap-snoc ps p n h)

Run-le : (ps : List DiffPosition) (i j : ℕ) → Run i ps j → i ≡ j ⊎ i < j
Run-le [] i j r = inl r
Run-le (p ∷ ps) i j (e, r) = elim (Run-le ps (suc i) j r) [
  | inl h ↦ inr (omega arith)
  | inr h ↦ inr (omega arith)
]

-- Before position `j`: the pushed regions are groups, the open one may be empty and ends at `j`.
Open : Walk → ℕ → Type 0
Open w j = AllGroups w.regions × ((i : ℕ) × (Run i w.current j × NoSwap w.current))

Run-lt : (p : DiffPosition) (ps : List DiffPosition) (i j : ℕ) → Run i (p ∷ ps) j → i < j
Run-lt p ps i j (e, r) = elim (Run-le ps (suc i) j r) [ inl h ↦ omega arith | inr h ↦ omega arith ]

AllGroups-grouped :
    (rs : List DiffRegion) (ps : List DiffPosition) (i j : ℕ)
    → AllGroups rs
    → Run i ps j
    → NoSwap ps ⊎ (length ps ≡ 1)
    → AllGroups (grouped rs ps)
unfolding IsGroup
AllGroups-grouped rs [] i j a r n = a
AllGroups-grouped rs (p ∷ ps) i j a r n =
    AllGroups-snoc rs (symmetric (p ∷ ps)) a (i, (j, (Run-lt p ps i j r, (r, n))))

Open-flush : (w : Walk) (j k : ℕ) → Open w j → Open (flush_group w) k
unfolding Open flush_group
Open-flush w j k (a, (i, (r, n))) =
    (AllGroups-grouped w.regions w.current i j a r (inl n), (k, (refl, tt)))

Open-found : (w : Walk) (j k : ℕ) → Open w j → Open (found_identical w) k
unfolding found_identical Open
Open-found w j k o = Open-flush (record w { identical = suc w.identical }) j k o

Open-isolated :
    (w : Walk) (j : ℕ) (s t : Inst) → Open w j → Open (add_isolated w (position j s t)) (suc j)
unfolding Open add_isolated add_position flush_group
Open-isolated w j s t (a, (i, (r, n))) = (
  AllGroups-grouped (grouped w.regions w.current) (position j s t ∷ []) j (suc j)
      (AllGroups-grouped w.regions w.current i j a r (inl n)) (refl, refl) (inr refl),
  (suc j, (refl, tt)),
)

Open-add_pair : (w : Walk) (j : ℕ) (s t : Inst) → Open w j → Open (add_pair w j s t) (suc j)
unfolding Open add_pair add_position
Open-add_pair w j s t (a, (i, (r, n))) = elim (Bool-cases (is_likely_commutativity s t)) [
  | inl e ↦ rw e (Open-isolated w j s t (a, (i, (r, n))))
  | inr e ↦
      rw e (a, (i, (Run-snoc w.current i j s t r, NoSwap-snoc w.current (position j s t) n e)))
]

Open-step :
    (w : Walk) (j : ℕ) (s t : Inst)
    → Open w j
    → Open (if same_text s t then found_identical w else add_pair w j s t) (suc j)
Open-step w j s t o = elim (Bool-cases (same_text s t)) [
  | inl e ↦ rw e (Open-found w j (suc j) o)
  | inr e ↦ rw e (Open-add_pair w j s t o)
]

pair_loop-AllGroups :
    (src tgt : List Inst) (w : Walk) (j : ℕ) → Open w j → AllGroups (pair_loop src tgt w j).regions
unfolding pair_loop Open
pair_loop-AllGroups [] tgt w j o = let (a, c) = Open-flush w j j o in a
pair_loop-AllGroups (s ∷ src) [] w j o = let (a, c) = Open-flush w j j o in a
pair_loop-AllGroups (s ∷ src) (t ∷ tgt) w j o =
    pair_loop-AllGroups src tgt (if same_text s t then found_identical w else add_pair w j s t)
      (suc j) (Open-step w j s t o)

-- The positions pushed and open, in order.
held : Walk → List DiffPosition
held w = all_positions w.regions ++ w.current

all-snoc :
    (rs : List DiffRegion) (r : DiffRegion)
    → all_positions (rs ++ (r ∷ [])) ≡ all_positions rs ++ r.positions
all-snoc [] r = append-nil r.positions
all-snoc (q ∷ rs) r =
    ap (λ k. q.positions ++ k) (all-snoc rs r)
    ∙ sym (append_assoc q.positions (all_positions rs) r.positions)

held-grouped :
    (rs : List DiffRegion) (ps : List DiffPosition)
    → all_positions (grouped rs ps) ≡ all_positions rs ++ ps
held-grouped rs [] = sym (append-nil (all_positions rs))
held-grouped rs (p ∷ ps) = all-snoc rs (symmetric (p ∷ ps))

held-flush : (w : Walk) → held (flush_group w) ≡ held w
unfolding held flush_group
held-flush w =
    append-nil (all_positions (grouped w.regions w.current)) ∙ held-grouped w.regions w.current

held-found : (w : Walk) → held (found_identical w) ≡ held w
unfolding held found_identical
held-found w = held-flush (record w { identical = suc w.identical })

held-add_position : (w : Walk) (p : DiffPosition) → held (add_position w p) ≡ held w ++ (p ∷ [])
unfolding held add_position
held-add_position w p = sym (append_assoc (all_positions w.regions) w.current (p ∷ []))

held-add_pair :
    (w : Walk) (i : ℕ) (s t : Inst) → held (add_pair w i s t) ≡ held w ++ (position i s t ∷ [])
unfolding add_pair add_isolated
held-add_pair w i s t = elim (Bool-cases (is_likely_commutativity s t)) [
  | inl e ↦ rw e (
      held-flush (add_position (flush_group w) (position i s t))
      ∙ (held-add_position (flush_group w) (position i s t)
          ∙ ap (λ k. k ++ (position i s t ∷ [])) (held-flush w)))
  | inr e ↦ rw e (held-add_position w (position i s t))
]

identical-add_pair : (w : Walk) (i : ℕ) (s t : Inst) → (add_pair w i s t).identical ≡ w.identical
unfolding add_pair add_isolated flush_group add_position
identical-add_pair w i s t = elim (Bool-cases (is_likely_commutativity s t)) [
  | inl e ↦ rw e refl
  | inr e ↦ rw e refl
]

identical-found : (w : Walk) → (found_identical w).identical ≡ suc w.identical
unfolding found_identical flush_group
identical-found w = refl

-- What the loop has found from `w` on: the differing pairs, and the others counted.
Found : Walk → Walk → ℕ → List Inst → List Inst → Type 0
Found v w i src tgt =
    (all_positions v.regions ≡ held w ++ differing i src tgt)
    × (v.identical + length (differing i src tgt) ≡ w.identical + length src)

Found-flush : (w : Walk) (i : ℕ) → Found (flush_group w) w i [] []
unfolding Found flush_group held
Found-flush w i = (
  held-grouped w.regions w.current ∙ sym (append-nil (all_positions w.regions ++ w.current)),
  refl,
)

Found-identical :
    (v w : Walk) (i : ℕ) (s t : Inst) (src tgt : List Inst)
    → same_text s t ≡ true
    → Found v (found_identical w) (suc i) src tgt
    → Found v w i (s ∷ src) (t ∷ tgt)
unfolding Found
Found-identical v w i s t src tgt h (a, n) =
    rw h (
      a ∙ ap (λ k. k ++ differing (suc i) src tgt) (held-found w),
      omega (arith, identical-found w),
    )

Found-pair :
    (v w : Walk) (i : ℕ) (s t : Inst) (src tgt : List Inst)
    → same_text s t ≡ false
    → Found v (add_pair w i s t) (suc i) src tgt
    → Found v w i (s ∷ src) (t ∷ tgt)
unfolding Found
Found-pair v w i s t src tgt h (a, n) = rw h (
  a
      ∙ (ap (λ k. k ++ differing (suc i) src tgt) (held-add_pair w i s t)
          ∙ append_assoc (held w) (position i s t ∷ []) (differing (suc i) src tgt)),
  omega (arith, identical-add_pair w i s t),
)

pair_loop-Found :
    (src tgt : List Inst) (w : Walk) (i : ℕ)
    → length src ≡ length tgt
    → Found (pair_loop src tgt w i) w i src tgt
unfolding pair_loop
pair_loop-Found [] [] w i e = Found-flush w i
pair_loop-Found [] (t ∷ tgt) w i e = absurd (omega arith)
pair_loop-Found (s ∷ src) [] w i e = absurd (omega arith)
pair_loop-Found (s ∷ src) (t ∷ tgt) w i e = elim (Bool-cases (same_text s t)) [
  | inl h ↦
      Found-identical (pair_loop (s ∷ src) (t ∷ tgt) w i) w i s t src tgt h
        (rw h (pair_loop-Found src tgt (found_identical w) (suc i) (omega arith)))
  | inr h ↦
      Found-pair (pair_loop (s ∷ src) (t ∷ tgt) w i) w i s t src tgt h
        (rw h (pair_loop-Found src tgt (add_pair w i s t) (suc i) (omega arith)))
]

-- What a result for equally many instructions holds: exactly the pairs whose texts differ, in
-- order, in groups; every other pair is counted.
pub Divides : DiffResult → List Inst → List Inst → Type 0
Divides r src tgt =
    (all_positions r.regions ≡ differing 0 src tgt)
    × ((r.identical_count + length (differing 0 src tgt) ≡ length src) × AllGroups r.regions)

Open-start : Open start 0
unfolding Open
Open-start = (tt, (0, (refl, tt)))

found :
    (src tgt : List Inst)
    → length src ≡ length tgt
    → Found (pair_loop src tgt start 0) start 0 src tgt
found src tgt e = pair_loop-Found src tgt start 0 e

diff_insts-Divides :
    (src tgt : List Inst) → length src ≡ length tgt → Divides (diff_insts src tgt) src tgt
unfolding Divides diff_insts diff_equal Found held
diff_insts-Divides src tgt e =
    let same : (length src == length tgt) ≡ true = ground arith in
    let (a, n) = found src tgt e in
    rw same (a, (omega (arith, n), pair_loop-AllGroups src tgt start 0 Open-start))

-- For two functions of one block each, with as many instructions and terminators of one text, the
-- comparison gives a result. Its regions hold exactly the pairs of instructions whose texts
-- differ, in the order of the block; the other pairs are counted; and each region is a run of
-- consecutive positions, not empty, that holds a swap of operands only as its one pair.
pub compute_diff-Divides :
    (b c : List Inst)
    → length (body b) ≡ length (body c)
    → same_terminator (terminator b) (terminator c) ≡ true
    → (r : DiffResult) × ((compute_diff_regions
            (record { blocks = b ∷ [] })
            (record { blocks = c ∷ [] })
          ≡ some r)
        × Divides r (body b) (body c))
unfolding compute_diff_regions diff_blocks
compute_diff-Divides b c e t =
    (diff_insts (body b) (body c), (rw t refl, diff_insts-Divides (body b) (body c) e))
