-- ===== src/Util/Sort.antt =====
-- util/sort.cpp: top_sort, the visit of a graph depth first.
--
-- The successors of a node are given as a list; `marked` is as long as there are nodes. Each round
-- of `visit` inside another marks a node, so one round more than there are nodes is enough;
-- `none` is a visit that runs out of them.
pub mod Marks
pub mod Visit
pub mod Once
use alive_next_deprecated.Prelude.{
  ℕ, zero, suc, Bool, true, false, Option, none, some, List, [], ◌∷◌, length, if◌then◌else◌,
}

pub record Visited : Type 0 where
  pub marked : List Bool
  pub sorted : List ℕ

abbrev pub unset : {A : Type 0} → List A → List Bool
unset [] = []
unset (e ∷ es) = false ∷ unset es

abbrev pub is_marked : List Bool → ℕ → Bool
is_marked [] v = false
is_marked (b ∷ bs) zero = b
is_marked (b ∷ bs) (suc v) = is_marked bs v

abbrev pub mark : List Bool → ℕ → List Bool
mark [] v = []
mark (b ∷ bs) zero = true ∷ bs
mark (b ∷ bs) (suc v) = b ∷ mark bs v

abbrev pub successors : List (List ℕ) → ℕ → List ℕ
successors [] v = []
successors (e ∷ es) zero = e
successors (e ∷ es) (suc v) = successors es v

abbrev pub emplace_back : List ℕ → ℕ → List ℕ
emplace_back [] v = v ∷ []
emplace_back (x ∷ xs) v = x ∷ emplace_back xs v

abbrev pub reversed : List ℕ → List ℕ
reversed [] = []
reversed (x ∷ xs) = emplace_back (reversed xs) x

abbrev pub finish_node : ℕ → Option Visited → Option Visited
finish_node v none = none
finish_node v (some s) = some (record s { sorted = emplace_back s.sorted v })

abbrev pub then_visit : Option Visited → (Visited → Option Visited) → Option Visited
then_visit none next = none
then_visit (some s) next = next s

-- One visit after the other.
abbrev pub visit_all : (ℕ → Visited → Option Visited) → List ℕ → Visited → Option Visited
visit_all visit [] s = some s
visit_all visit (v ∷ vs) s = then_visit (visit v s) (visit_all visit vs)

unfoldable pub visit : List (List ℕ) → ℕ → ℕ → Visited → Option Visited
visit edges zero v s = none
visit edges (suc n) v s =
    let children =
      visit_all (visit edges n) (successors edges v) (record s { marked = mark s.marked v }) in
    if is_marked s.marked v then some s else finish_node v children

-- The nodes from `i` on, and the entry, which is visited last.
abbrev pub entry_last : ℕ → ℕ → List ℕ
entry_last i zero = 0 ∷ []
entry_last i (suc k) = i ∷ entry_last (suc i) k

abbrev pub roots : List (List ℕ) → List ℕ
roots [] = []
roots (e ∷ es) = entry_last 1 (length es)

abbrev pub sorted_of : Option Visited → Option (List ℕ)
sorted_of none = none
sorted_of (some s) = some (reversed s.sorted)

unfoldable pub top_sort : List (List ℕ) → Option (List ℕ)
unfolding visit
top_sort edges = sorted_of (
    visit_all (visit edges (suc (length edges))) (roots edges)
      (record { marked = unset edges; sorted = [] }))
