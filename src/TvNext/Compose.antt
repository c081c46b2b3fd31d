-- ===== src/TvNext/Compose.antt =====
-- tv-next/compose.cpp: composeVerdicts; tv-next/verify.h: UnitVerdict.
--
-- The text that a stream collects is the list of the pieces written to it, in order.
use Prim.Native.String.{String}
use alive_next_deprecated.Prelude.{
  ℕ, ◌≡◌, refl, arith, Bool, true, false, ◌&&◌, List, [], ◌∷◌, ◌++◌, if◌then◌else◌, Bool-cases, inl,
  inr, ◌∙◌, sym, ap,
}
use mathlib.Core.List.{append_assoc, append-nil}

pub data Status : Type 0 where
  correct unsound failed_to_prove type_checker_failed error syntactically_equal : Status

pub record UnitVerdict : Type 0 where
  pub name : String
  pub passed : Bool
  pub error_message : String
  pub proposer_name : String
  pub status : Status

pub record ComposeResult : Type 0 where
  pub passed : Bool
  pub identical_positions : ℕ
  pub verdicts : List UnitVerdict
  pub error_message : List String

unfoldable pub status_text : Status → String
status_text unsound = "UNSOUND"
status_text failed_to_prove = "failed-to-prove"
status_text type_checker_failed = "type-checker-failed"
status_text error = "error"
status_text correct = "unexpected status"
status_text syntactically_equal = "unexpected status"

abbrev message_pieces : String → List String
message_pieces String.[] = []
message_pieces (String.◌∷◌ c s) = ": " ∷ String.◌∷◌ c s ∷ []

-- What a verdict that did not pass writes.
unfoldable pub failure_text : UnitVerdict → List String
unfolding status_text
failure_text v =
    "  " ∷ v.name ∷ ": " ∷ status_text v.status ∷ (message_pieces v.error_message ++ ("\n" ∷ []))

-- The loop, with the flag and the text before the round.
unfoldable pub compose_loop : List UnitVerdict → Bool → List String → Bool × List String
compose_loop [] all_passed err_summary = (all_passed, err_summary)
compose_loop (v ∷ vs) all_passed err_summary =
    if v.passed
    then compose_loop vs all_passed err_summary
    else compose_loop vs false (err_summary ++ failure_text v)

unfoldable pub compose_verdicts : List UnitVerdict → ℕ → ComposeResult
unfolding compose_loop
compose_verdicts verdicts identical =
    let (all_passed, err_summary) = compose_loop verdicts true [] in
    record {
      passed = all_passed;
      identical_positions = identical;
      verdicts = verdicts;
      error_message = if all_passed then [] else err_summary;
    }

abbrev pub every_passed : List UnitVerdict → Bool
every_passed [] = true
every_passed (v ∷ vs) = v.passed && every_passed vs

-- The texts of the verdicts that did not pass, in their order.
abbrev pub report : List UnitVerdict → List String
report [] = []
report (v ∷ vs) = if v.passed then report vs else failure_text v ++ report vs

compose_step :
    (b ok : Bool) (vs : List UnitVerdict) (err t : List String)
    → compose_loop vs ok err ≡ (ok && every_passed vs, err ++ report vs)
    → compose_loop vs false (err ++ t) ≡ (false, (err ++ t) ++ report vs)
    → (if b then compose_loop vs ok err else compose_loop vs false (err ++ t))
      ≡ (ok && (b && every_passed vs), err ++ (if b then report vs else t ++ report vs))
compose_step true ok vs err t passing failing = passing
compose_step false true vs err t passing failing =
    failing ∙ ap (λ (m : List String). (false, m)) (append_assoc err t (report vs))
compose_step false false vs err t passing failing =
    failing ∙ ap (λ (m : List String). (false, m)) (append_assoc err t (report vs))

compose_loop_lem :
    (vs : List UnitVerdict) (ok : Bool) (err : List String)
    → compose_loop vs ok err ≡ (ok && every_passed vs, err ++ report vs)
unfolding compose_loop
compose_loop_lem [] true err = ap (λ (m : List String). (true, m)) (sym (append-nil err))
compose_loop_lem [] false err = ap (λ (m : List String). (false, m)) (sym (append-nil err))
compose_loop_lem (v ∷ vs) ok err =
    compose_step v.passed ok vs err (failure_text v) (compose_loop_lem vs ok err)
      (compose_loop_lem vs false (err ++ failure_text v))

report-passed : (vs : List UnitVerdict) → every_passed vs ≡ true → report vs ≡ []
report-passed [] h = refl
report-passed (v ∷ vs) h = elim (Bool-cases v.passed) [
  | inl p ↦ simp p (report-passed vs (ground (arith, p, h)))
  | inr p ↦ absurd (ground (arith, p, h))
]

-- The composed result has passed exactly where every verdict has, keeps the verdicts and the count
-- of identical positions, and its message holds the texts of the failed verdicts in their order.
pub compose_verdicts_lem :
    (vs : List UnitVerdict) (identical : ℕ)
    → compose_verdicts vs identical ≡ record {
      passed = every_passed vs;
      identical_positions = identical;
      verdicts = vs;
      error_message = report vs;
    }
unfolding compose_verdicts
compose_verdicts_lem vs identical =
    rw (compose_loop_lem vs true []) (elim (Bool-cases (every_passed vs)) [
      | inl p ↦ rw (p, report-passed vs p) refl
      | inr p ↦ rw p refl
    ])
