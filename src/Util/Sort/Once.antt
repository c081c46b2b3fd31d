-- ===== src/Util/Sort/Once.antt =====
-- About top_sort (util/sort.cpp): that it ends, and puts every node in its result once.
use alive_next_deprecated.Prelude.{
  ℕ, zero, suc, ◌+◌, ◌≤◌, ◌<◌, ◌≡◌, refl, ap, ◌∙◌, arith, false, ◌==◌, ltb, some, List, [], ◌∷◌,
  length, ◌⊎◌, if◌then◌else◌, Bool-cases, inl, inr,
}
use alive_next_deprecated.Util.Sort.{
  Visited, unset, reversed, visit, entry_last, roots, sorted_of, top_sort,
}
use alive_next_deprecated.Util.Sort.Marks.{
  flag, count, count-reversed, flag-unset, length-unset, unmarked-unset, flag_beyond,
}
use alive_next_deprecated.Util.Sort.Visit.{Below, AllBelow, all-Goes, visit-Goes}

entry_last-Below : (i k n : ℕ) → 0 < n → i + k ≤ n → Below n (entry_last i k)
entry_last-Below i zero n p q = (p, tt)
entry_last-Below i (suc k) n p q = (omega arith, entry_last-Below (suc i) k n p (omega arith))

roots-Below : (edges : List (List ℕ)) → Below (length edges) (roots edges)
roots-Below [] = tt
roots-Below (e ∷ es) = entry_last-Below 1 (length es) (suc (length es)) (omega arith) (omega arith)

-- A number from `i` on, or 0, is in the list.
entry_last_has : (i k x : ℕ) → x < i + k → x ≡ 0 ⊎ i ≤ x → 0 < count x (entry_last i k)
entry_last_has i zero x p q = elim q [ inl z ↦ ground arith | inr z ↦ absurd (omega arith) ]
entry_last_has i (suc k) x p q = elim (Bool-cases (x == i)) [
  | inl e ↦ ground arith
  | inr e ↦ omega (arith, entry_last_has (suc i) k x (omega arith) (later q e))
]
  where
    later : x ≡ 0 ⊎ i ≤ x → (x == i) ≡ false → x ≡ 0 ⊎ suc i ≤ x
    later (inl z) e = inl z
    later (inr z) e = inr (ground arith)

roots_has : (edges : List (List ℕ)) (x : ℕ) → x < length edges → 0 < count x (roots edges)
roots_has [] x p = absurd (omega arith)
roots_has (e ∷ es) zero p = entry_last_has 1 (length es) zero (omega arith) (inl refl)
roots_has (e ∷ es) (suc x) p =
    entry_last_has 1 (length es) (suc x) (omega arith) (inr (omega arith))

-- There is a result, and it holds every node once and nothing else.
pub Once : List (List ℕ) → Type 0
Once edges =
    (r : List ℕ) × ((top_sort edges ≡ some r)
      × ((x : ℕ) → count x r ≡ (if ltb x (length edges) then 1 else 0)))

-- On a graph whose edges lead to its nodes, also with cycles, top_sort ends, and its result is a
-- permutation of the nodes.
pub top_sort-Once : (edges : List (List ℕ)) → AllBelow (length edges) edges → Once edges
unfolding Once top_sort
top_sort-Once edges c =
    let start : Visited = record { marked = unset edges; sorted = [] } in
    let (t, (d, (st, g))) =
      all-Goes (visit edges (suc (length edges))) (length edges) (suc (length edges))
        (visit-Goes edges (suc (length edges)) c) (roots edges) start (roots-Below edges)
        (length-unset edges) (omega (arith, unmarked-unset edges)) in
    let added : (x : ℕ) → count x (reversed t.sorted) ≡ flag t.marked x =
      λ x. omega (arith, st.balance x, flag-unset edges x, count-reversed x t.sorted) in
    (
      reversed t.sorted,
      (
        ap sorted_of d,
        λ x. added x ∙ elim (Bool-cases (ltb x (length edges))) [
          | inl e ↦ rw e (g x (roots_has edges x (ground arith)))
          | inr e ↦ rw e (flag_beyond t.marked x (ground (arith, st.nodes, length-unset edges)))
        ],
      ),
    )
