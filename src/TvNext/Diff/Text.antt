-- ===== src/TvNext/Diff/Text.antt =====
-- About the comparison of texts (tv-next/diff.cpp: instAsText).
use alive_next_deprecated.Prelude.{
  true, ◌≡◌, refl, ap, sym, List, [], ◌∷◌, ◌++◌, arith, length, suc, set,
}
use mathlib.Core.List.{append_assoc}
use alive_next_deprecated.TvNext.Diff.{Text, text_eq, Inst, inst_as_text, same_text}

text_eq_sound : (s t : Text) → text_eq s t ≡ true → s ≡ t
text_eq_sound [] [] h = refl
text_eq_sound [] (d ∷ t) h = absurd (ground arith)
text_eq_sound (c ∷ s) [] h = absurd (ground arith)
text_eq_sound (c ∷ s) (d ∷ t) h =
    let tail : s ≡ t = text_eq_sound s t (ground arith) in let head : c ≡ d = ground arith in cc

-- The texts of a list of instructions.
abbrev pub texts : List Inst → List Text
texts [] = []
texts (i ∷ is) = inst_as_text i ∷ texts is

pub texts-append : (p q : List Inst) → texts (p ++ q) ≡ texts p ++ texts q
texts-append [] q = refl
texts-append (i ∷ p) q = rw (texts-append p q) refl

pub same_text_sound : (s t : Inst) → same_text s t ≡ true → inst_as_text s ≡ inst_as_text t
same_text_sound s t h = text_eq_sound (inst_as_text s) (inst_as_text t) h

pub length-snoc : (p : List Inst) (i : Inst) → length (p ++ (i ∷ [])) ≡ suc (length p)
length-snoc [] i = refl
length-snoc (j ∷ p) i = ap suc (length-snoc p i)

-- Writing at the end of a prefix replaces what follows it.
pub set-append :
    (p : List Inst) (s t : Inst) (q : List Inst)
    → set (p ++ (s ∷ q)) (length p) t ≡ (p ++ (t ∷ [])) ++ q
set-append [] s t q = refl
set-append (i ∷ p) s t q = ap (◌∷◌ i) (set-append p s t q)

pub append-snoc : (p : List Inst) (s : Inst) (q : List Inst) → p ++ (s ∷ q) ≡ (p ++ (s ∷ [])) ++ q
append-snoc p s q = sym (append_assoc p (s ∷ []) q)
