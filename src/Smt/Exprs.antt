-- ===== src/Smt/Exprs.antt =====
-- smt/exprs.h, smt/exprs.cpp: DisjointExpr and FunctionExpr.
--
-- The terms of the solver are an interface: the values `t` of a DisjointExpr and their domains `d`,
-- the order of std::map, and the builders that the code calls. A std::map is the list of its
-- entries in the order of the keys.
pub mod Denotes
use alive_next_deprecated.Prelude.{
  ℕ, Bool, true, false, ◌&&◌, ◌||◌, not, Option, none, some, List, [], ◌∷◌, if◌then◌else◌,
}

pub record Terms {ℓ} (t d : Type ℓ) : Type ℓ where
  pub before : t → t → Bool
  pub is_true : d → Bool
  pub is_false : d → Bool
  pub either : d → d → d
  pub both : d → d → d
  pub never : d
  pub mk_if : d → t → t → t

module _ {ℓ} {t d : Type ℓ} (s : Terms t d) where
  -- try_emplace, and the `|=` on the domain of an entry that is there.
  abbrev pub insert : t → d → List (t × d) → List (t × d)
  insert v dom [] = (v, dom) ∷ []
  insert v dom (e ∷ es) =
      let rest = e ∷ insert v dom es in
      if s.before v e.0
      then (v, dom) ∷ e ∷ es
      else if s.before e.0 v
      then rest
      else (e.0, s.either e.1 dom) ∷ es

  unfoldable pub add : List (t × d) → t → d → List (t × d)
  add vals val domain =
      if s.is_false domain then vals else insert val domain (if s.is_true domain then [] else vals)

  unfoldable pub add_disj : List (t × d) → List (t × d) → d → List (t × d)
  unfolding add
  add_disj vals [] domain = vals
  add_disj vals (e ∷ es) domain = add_disj (add vals e.0 (s.both e.1 domain)) es domain

  -- The loop of `mk`, `ret` being the value so far.
  unfoldable pub mk_loop : List (t × d) → Option t → Option t
  mk_loop [] ret = ret
  mk_loop (e ∷ es) none =
      let rest = mk_loop es (some e.0) in if s.is_true e.1 then some e.0 else rest
  mk_loop (e ∷ es) (some r) =
      let rest = mk_loop es (some (s.mk_if e.1 e.0 r)) in if s.is_true e.1 then some e.0 else rest

  unfoldable pub mk : List (t × d) → Option t → Option t → Option t
  unfolding mk_loop
  mk vals default_val ret = elim (mk_loop vals ret) [ none ↦ default_val | some r ↦ some r ]

  unfoldable pub call : List (t × d) → Option t → Option t
  unfolding mk
  call vals default_val = mk vals default_val none

  unfoldable pub domain : List (t × d) → d
  domain [] = s.never
  domain (e ∷ es) = s.either e.1 (domain es)

  -- Calls of `add`, one after the other.
  abbrev pub add_all : List (t × d) → List (t × d) → List (t × d)
  unfolding add
  add_all vals [] = vals
  add_all vals (e ∷ es) = add_all (add vals e.0 e.1) es

  -- The calls of `add` that FunctionExpr::operator() makes, with `same` for the comparison with
  -- the key.
  abbrev pub matches : (t → d) → List (t × t) → List (t × d)
  matches same [] = []
  matches same (e ∷ es) = (e.1, same e.0) ∷ matches same es

  unfoldable pub apply_function : (t → d) → List (t × t) → Option t
  unfolding add call
  apply_function same fn = call (add_all [] (matches same fn)) none
