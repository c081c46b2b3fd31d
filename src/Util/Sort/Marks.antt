-- ===== src/Util/Sort/Marks.antt =====
-- About the marks and the list that top_sort (util/sort.cpp) keeps.
use alive_next_deprecated.Prelude.{
  ℕ, zero, suc, ◌+◌, ◌≤◌, ◌<◌, ◌≡◌, refl, ap, ◌∙◌, arith, Bool, false, ◌==◌, List, [], ◌∷◌, length,
  if◌then◌else◌,
}
use alive_next_deprecated.Util.Sort.{unset, is_marked, mark, emplace_back, reversed}

abbrev pub hit : ℕ → ℕ → ℕ
hit x v = if x == v then 1 else 0

abbrev pub flag : List Bool → ℕ → ℕ
flag bs x = if is_marked bs x then 1 else 0

abbrev pub unmarked : List Bool → ℕ
unmarked [] = 0
unmarked (b ∷ bs) = (if b then 0 else 1) + unmarked bs

-- How often a node stands in a list.
abbrev pub count : ℕ → List ℕ → ℕ
count x [] = 0
count x (v ∷ vs) = hit x v + count x vs

pub count-emplace_back :
    (x v : ℕ) (vs : List ℕ) → count x (emplace_back vs v) ≡ count x vs + hit x v
count-emplace_back x v [] = omega arith
count-emplace_back x v (y ∷ vs) = omega (arith, count-emplace_back x v vs)

pub count-reversed : (x : ℕ) (vs : List ℕ) → count x (reversed vs) ≡ count x vs
count-reversed x [] = refl
count-reversed x (v ∷ vs) = omega (arith, count-emplace_back x v (reversed vs), count-reversed x vs)

pub length-mark : (bs : List Bool) (v : ℕ) → length (mark bs v) ≡ length bs
length-mark [] v = refl
length-mark (b ∷ bs) zero = refl
length-mark (b ∷ bs) (suc v) = ap suc (length-mark bs v)

pub unmarked-mark :
    (bs : List Bool) (v : ℕ)
    → v < length bs
    → is_marked bs v ≡ false
    → unmarked bs ≡ suc (unmarked (mark bs v))
unmarked-mark [] v p h = absurd (omega arith)
unmarked-mark (b ∷ bs) zero p h = rw h (omega arith)
unmarked-mark (b ∷ bs) (suc v) p h = omega (arith, unmarked-mark bs v (omega arith) h)

pub flag-mark :
    (bs : List Bool) (v x : ℕ)
    → v < length bs
    → is_marked bs v ≡ false
    → flag (mark bs v) x ≡ flag bs x + hit x v
flag-mark [] v x p h = absurd (omega arith)
flag-mark (b ∷ bs) zero zero p h = rw h refl
flag-mark (b ∷ bs) zero (suc x) p h = ground arith
flag-mark (b ∷ bs) (suc v) zero p h = ground arith
flag-mark (b ∷ bs) (suc v) (suc x) p h = flag-mark bs v x (omega arith) h ∙ ground arith

pub flag-unset : {A : Type 0} (es : List A) (x : ℕ) → flag (unset es) x ≡ 0
flag-unset [] x = refl
flag-unset (e ∷ es) zero = refl
flag-unset (e ∷ es) (suc x) = flag-unset es x

pub length-unset : {A : Type 0} (es : List A) → length (unset es) ≡ length es
length-unset [] = refl
length-unset (e ∷ es) = ap suc (length-unset es)

pub unmarked-unset : {A : Type 0} (es : List A) → unmarked (unset es) ≡ length es
unmarked-unset [] = refl
unmarked-unset (e ∷ es) = omega (arith, unmarked-unset es)

pub flag_beyond : (bs : List Bool) (x : ℕ) → length bs ≤ x → flag bs x ≡ 0
flag_beyond [] x p = refl
flag_beyond (b ∷ bs) zero p = absurd (omega arith)
flag_beyond (b ∷ bs) (suc x) p = flag_beyond bs x (omega arith)
