-- ===== src/Tests/Structures.antt =====
-- Inputs for the tests of the union of classes, of disjoint expressions and of blocks.
use alive_next_deprecated.Prelude.{
  ℕ, ◌%◌, ◌^◌, sym, ◌∙◌, ◌<◌, ◌≡◌, refl, arith, Bool, true, false, not, ◌&&◌, ◌||◌, ltb, none, some,
  List, [], ◌∷◌, ◌↔◌, if◌then◌else◌,
}
use mathlib.Core.Path.{subst}
use mathlib.Core.Option.{some-injective}
use alive_next_deprecated.Util.UnionFind.{init}
use alive_next_deprecated.Util.UnionFind.Init.{init-Represents}
use alive_next_deprecated.Util.UnionFind.Merge.{Finds, Merges, find-Finds, merge-Merges}
use alive_next_deprecated.Util.Sort.{top_sort, visit}
use alive_next_deprecated.Util.Sort.Once.{Once, top_sort-Once}
use alive_next_deprecated.Smt.Exprs.{Terms, call, add_all}
use alive_next_deprecated.Smt.Exprs.Denotes.{Meaning, call-Denotes}
use alive_next_deprecated.Ir.AggregateType.{
  Bits, Child, aggregate_vals, aggregate_loop, num_paddings_const, count_paddings,
}
use alive_next_deprecated.Ir.AggregateType.Layout.{GivesBack, extract_child-GivesBack}
use alive_next_deprecated.Ir.Blocks.{SeenBlocks, disjoint}
use alive_next_deprecated.Ir.Blocks.Laws.{Apart, IsSeen, disjoint_iff}

find-Finds_example : Finds (init 3) (λ x. x) 2
unfolding init
find-Finds_example = find-Finds (init 3) (λ x. x) 2 (init-Represents 3) (omega arith)

merge-Merges_example : Merges (init 3) (λ x. x) 0 2
unfolding init
merge-Merges_example =
    merge-Merges (init 3) (λ x. x) 0 2 (init-Represents 3) (omega arith) (omega arith)

-- Numbers and Booleans as terms that are their own values.
abbrev numbers : Terms ℕ Bool
numbers = record {
  before = ltb;
  is_true = λ b. b;
  is_false = not;
  either = ◌||◌;
  both = ◌&&◌;
  never = false;
  mk_if = λ b x y. if b then x else y;
}

numbers-Meaning : Meaning numbers ℕ
numbers-Meaning = record {
  value = λ x. x;
  holds = λ b. b;
  equal_keys = λ a b h k. ground arith;
  is_true_holds = λ x h. h;
  is_false_fails = λ x h. ground arith;
  either_holds = λ x y. refl;
  mk_if_value = λ x a b. refl;
}

abbrev added : List (ℕ × Bool)
added = (5, false) ∷ (3, true) ∷ (4, false) ∷ (3, true) ∷ []

call-Denotes_example :
    (u : ℕ) × ((call numbers (add_all numbers [] added) none ≡ some u)
      × (numbers-Meaning.value u ≡ 3))
unfolding numbers-Meaning
call-Denotes_example =
    call-Denotes numbers numbers-Meaning 3 added none
      (
        λ h. absurd (ground (arith, h)),
        (λ h. refl, (λ h. absurd (ground (arith, h)), (λ h. refl, tt))),
      )
      refl

abbrev seen : SeenBlocks
seen = record { same_align = true; align1 = some 3; align2 = some 3; len1 = some 8; len2 = some 6 }

seen-IsSeen : IsSeen seen 16 8 24 6
seen-IsSeen = record {
  same = λ j k h p q. sym (some-injective 3 j p) ∙ some-injective 3 k q;
  small1 = λ k h. subst (λ i. i < 64) (some-injective 3 k h) (omega arith);
  aligned1 = λ k h. subst (λ i. 16 % 2 ^ i ≡ 0) (some-injective 3 k h) refl;
  aligned2 = λ k h. subst (λ i. 24 % 2 ^ i ≡ 0) (some-injective 3 k h) refl;
  size1 = λ n h. sym (some-injective 8 n h);
  size2 = λ n h. sym (some-injective 6 n h);
}

disjoint_iff_example : (disjoint 32 seen 16 8 24 6 ≡ true) ↔ Apart 16 8 24 6
disjoint_iff_example =
    disjoint_iff 32 seen 16 8 24 6 (omega arith) (omega arith) (omega arith) (omega arith)
      seen-IsSeen

abbrev child_of : ℕ → Bool → Child
child_of bits padding = record {
  bits = bits;
  np_bits = λ from_int. bits;
  is_padding = padding;
  dummy = record { value = 0; non_poison = 0 };
}

-- Eight bits, a padding of four, nothing, and four bits.
abbrev children : List Child
children = child_of 8 false ∷ child_of 4 true ∷ child_of 0 false ∷ child_of 4 false ∷ []

abbrev child_values : List Bits
child_values =
    record { value = 171; non_poison = 255 }
    ∷ record { value = 0; non_poison = 0 }
    ∷ record { value = 12; non_poison = 15 }
    ∷ []

children-aggregate_vals :
    aggregate_vals children child_values ≡ some (record { value = 43788; non_poison = 65295 })
unfolding aggregate_vals aggregate_loop
children-aggregate_vals = refl

children-num_paddings_const : num_paddings_const children ≡ 1
unfolding num_paddings_const count_paddings
children-num_paddings_const = refl

extract_child-GivesBack_example : GivesBack true children child_values 3
extract_child-GivesBack_example =
    extract_child-GivesBack true children child_values 3 (omega arith) (omega arith) (omega arith)
      (omega arith) ((λ e. e), ((λ e. e), ((λ e. e), ((λ e. e), tt))))
      ((omega arith), ((omega arith), ((omega arith), ((omega arith), tt))))
      ((omega arith), ((omega arith), ((omega arith), ((omega arith), tt))))

-- A diamond with an edge back from its end.
abbrev diamond : List (List ℕ)
diamond = (1 ∷ 2 ∷ []) ∷ (3 ∷ []) ∷ (3 ∷ []) ∷ (1 ∷ []) ∷ []

diamond-top_sort : top_sort diamond ≡ some (0 ∷ 2 ∷ 1 ∷ 3 ∷ [])
unfolding top_sort visit
diamond-top_sort = refl

top_sort-Once_example : Once diamond
top_sort-Once_example = top_sort-Once diamond (
  (omega arith, (omega arith, tt)),
  ((omega arith, tt), ((omega arith, tt), ((omega arith, tt), tt))),
)
