-- ===== src/Util/Sort/Visit.antt =====
-- About visit in top_sort (util/sort.cpp): that it ends, and what it marks and sorts.
use alive_next_deprecated.Prelude.{
  ℕ, zero, suc, ◌+◌, ◌≤◌, ◌<◌, ◌≡◌, refl, ap, ◌∙◌, arith, Bool, false, ◌==◌, Option, some, List, [],
  ◌∷◌, length, Bool-cases, inl, inr,
}
use mathlib.Core.Path.{subst}
use alive_next_deprecated.Util.Sort.{
  Visited, is_marked, mark, successors, emplace_back, finish_node, then_visit, visit_all, visit,
}
use alive_next_deprecated.Util.Sort.Marks.{
  flag, unmarked, count, count-emplace_back, length-mark, unmarked-mark, flag-mark,
}

-- What a visit does: it marks more nodes, and sorts each of the nodes that it marks once.
pub record Steps (s t : Visited) : Type 0 where
  pub nodes : length t.marked ≡ length s.marked
  pub fewer : unmarked t.marked ≤ unmarked s.marked
  pub grows : (x : ℕ) → flag s.marked x ≤ flag t.marked x
  pub balance : (x : ℕ) → count x t.sorted + flag s.marked x ≡ count x s.sorted + flag t.marked x

pub Steps-self : (s : Visited) → Steps s s
Steps-self s = record {
  nodes = refl;
  fewer = omega arith;
  grows = λ x. omega arith;
  balance = λ x. refl;
}

pub Steps-trans : (s t u : Visited) → Steps s t → Steps t u → Steps s u
Steps-trans s t u f g = record {
  nodes = g.nodes ∙ f.nodes;
  fewer = omega (arith, f.fewer, g.fewer);
  grows = λ x. omega (arith, f.grows x, g.grows x);
  balance = λ x. omega (arith, f.balance x, g.balance x);
}

-- Every node is below `n`.
abbrev pub Below : ℕ → List ℕ → Type 0
Below n [] = Unit
Below n (v ∷ vs) = (v < n) × Below n vs

abbrev pub AllBelow : ℕ → List (List ℕ) → Type 0
AllBelow n [] = Unit
AllBelow n (e ∷ es) = Below n e × AllBelow n es

pub successors-Below :
    (n : ℕ) (es : List (List ℕ)) (v : ℕ) → AllBelow n es → Below n (successors es v)
successors-Below n [] v c = tt
successors-Below n (e ∷ es) zero (b, c) = b
successors-Below n (e ∷ es) (suc v) (b, c) = successors-Below n es v c

abbrev pub Goes : Option Visited → ℕ → Visited → Type 0
Goes r v s = (t : Visited) × ((r ≡ some t) × (Steps s t × (flag t.marked v ≡ 1)))

abbrev pub GoesAll : Option Visited → List ℕ → Visited → Type 0
GoesAll r vs s =
    (t : Visited) × ((r ≡ some t) × (Steps s t × ((x : ℕ) → 0 < count x vs → flag t.marked x ≡ 1)))

pub flag_one : (bs : List Bool) (v n : ℕ) → n ≡ 1 → n ≤ flag bs v → flag bs v ≡ 1
flag_one bs v n h p = ground arith

pub just_marked :
    (bs : List Bool) (v : ℕ) → v < length bs → is_marked bs v ≡ false → flag (mark bs v) v ≡ 1
just_marked bs v p h = flag-mark bs v v p h ∙ rw h (ground arith)

module _ (f : ℕ → Visited → Option Visited) (size n : ℕ) where
  abbrev pub Going : Type 0
  Going =
      (v : ℕ) (s : Visited)
      → v < size
      → length s.marked ≡ size
      → unmarked s.marked < n
      → Goes (f v s) v s

  pub all-Goes :
      Going
      → (vs : List ℕ) (s : Visited) → Below size vs
      → length s.marked ≡ size
      → unmarked s.marked < n
      → GoesAll (visit_all f vs s) vs s
  all-Goes h [] s b l m = (s, (refl, (Steps-self s, λ x p. absurd (omega arith))))
  all-Goes h (v ∷ vs) s (p, b) l m =
      let (t, (e, (st, fv))) = h v s p l m in
      let (u, (d, (tu, g))) = all-Goes h vs t b (st.nodes ∙ l) (omega (arith, st.fewer, m)) in
      let at_v : flag u.marked v ≡ 1 = flag_one u.marked v (flag t.marked v) fv (tu.grows v) in
      (
        u,
        (
          ap (λ r. then_visit r (visit_all f vs)) e ∙ d,
          (
            Steps-trans s t u st tu,
            λ x q. elim (Bool-cases (x == v)) [
              | inl k ↦ subst (λ y. flag u.marked y ≡ 1) {x = v} {y = x} (ground arith) at_v
              | inr k ↦ g x (ground arith)
            ],
          ),
        ),
      )

-- A node that is not marked: it is marked, its successors are visited, and it is sorted.
pub finished-Steps :
    (s t : Visited) (v : ℕ)
    → v < length s.marked
    → is_marked s.marked v ≡ false
    → Steps (record s { marked = mark s.marked v }) t
    → Steps s (record t { sorted = emplace_back t.sorted v })
finished-Steps s t v p h st = record {
  nodes = st.nodes ∙ length-mark s.marked v;
  fewer = omega (arith, st.fewer, unmarked-mark s.marked v p h);
  grows = λ x. omega (arith, st.grows x, flag-mark s.marked v x p h);
  balance =
      λ x. omega (arith, st.balance x, flag-mark s.marked v x p h, count-emplace_back x v t.sorted);
}

pub visit-Goes :
    (edges : List (List ℕ)) (n : ℕ)
    → AllBelow (length edges) edges
    → Going (visit edges n) (length edges) n
unfolding visit
visit-Goes edges zero c v s p l m = absurd (omega arith)
visit-Goes edges (suc n) c v s p l m = elim (Bool-cases (is_marked s.marked v)) [
  | inl e ↦ rw e (s, (refl, (Steps-self s, rw e refl)))
  | inr e ↦ rw e (
      let q : v < length s.marked = omega (arith, p, l) in
      let (t, (d, (st, g))) =
        all-Goes (visit edges n) (length edges) n (visit-Goes edges n c) (successors edges v)
          (record s { marked = mark s.marked v }) (successors-Below (length edges) edges v c)
          (length-mark s.marked v ∙ l) (omega (arith, m, unmarked-mark s.marked v q e)) in
      (
        record t { sorted = emplace_back t.sorted v },
        (
          ap (finish_node v) d,
          (
            finished-Steps s t v q e st,
            flag_one t.marked v (flag (mark s.marked v) v) (just_marked s.marked v q e)
                (st.grows v),
          ),
        ),
      ))
]
