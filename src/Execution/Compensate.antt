-- ===== src/Execution/Compensate.antt =====
-- execution/compensate.go: undoing the completed steps of a run that is abandoned.
pub mod Report
use cee.Prelude.{
  String, Bool, true, false, none, some, List, [], ◌∷◌, ◌++◌, ◌⊎◌, inl, inr, reverse, concat, quote,
}
use cee.Maps.{lookup}
use cee.Value.{Context}
use cee.Execution.Errors.{Err, circuit_breaker_tripped, cause, CompensationFailure}
use cee.Execution.Texts.{error_text}
use cee.Execution.Exec.{Exec, pure, attempt, ◌>>=◌}
use cee.Execution.Types.{LeafStep, leaf, composite, parallel, Workflow, Machine, Host, outside}
use cee.Execution.Failure.{merge}

pub record Completed : Type 0 where
  pub step_id : String
  pub compensate_step : String

-- What an unwind has undone, and what it could not.
pub record Unwound : Type 0 where
  pub undone : List String
  pub failures : List CompensationFailure

abbrev pub failure : Completed → String → CompensationFailure
failure entry reason = record {
  step_id = entry.step_id;
  compensate_step = entry.compensate_step;
  reason = reason;
}

abbrev undo : String → Unwound → Unwound
undo id u = record u { undone = u.undone ++ id ∷ [] }

abbrev could_not : CompensationFailure → Unwound → Unwound
could_not f u = record u { failures = u.failures ++ f ∷ [] }

-- a breaker trip with the report of the unwind in it; other errors have no place for it
abbrev pub report : Err → Unwound → Err
report (circuit_breaker_tripped id reason c f) u =
    circuit_breaker_tripped id reason u.undone u.failures
report e u = e

abbrev pub is_trip : Err → Bool
is_trip (circuit_breaker_tripped id reason c f) = true
is_trip e = false

module _ {W : Type 0} (host : Host W) (workflow : Workflow W) where
  -- the leaf that undoes an entry, or the reason why there is none
  unfoldable pub compensation : Completed → LeafStep W ⊎ String
  compensation entry = elim (lookup entry.compensate_step workflow.steps) [
    | none ↦ inr (
        concat (
          "workflow "
          ∷ quote workflow.workflow_id
          ∷ " has no step "
          ∷ quote entry.compensate_step
          ∷ []))
    | some (leaf s) ↦ inl s
    | some (composite s) ↦ inr "a compensation must be a leaf step"
    | some (parallel s) ↦ inr "a compensation must be a leaf step"
  ]

  -- the context and the report after one compensation has run
  unfoldable pub record_result : Completed → Context → Unwound → Context ⊎ Err → Context × Unwound
  record_result entry ctx u (inl output) = (merge ctx output, undo entry.step_id u)
  record_result entry ctx u (inr e) = (ctx, could_not (failure entry (error_text host.show e)) u)

  -- running the compensation, if there is one
  unfoldable pub compensate_with :
      Completed → Context → Unwound → LeafStep W ⊎ String → Exec (Machine W) (Context × Unwound)
  unfolding record_result
  compensate_with entry ctx u (inr reason) = pure (ctx, could_not (failure entry reason) u)
  compensate_with entry ctx u (inl s) =
      attempt (outside (s.run ctx)) >>= λ r. pure (record_result entry ctx u r)

  -- one round of the loop
  unfoldable pub compensate_one :
      Completed → Context → Unwound → Exec (Machine W) (Context × Unwound)
  unfolding compensation compensate_with
  compensate_one entry ctx u = compensate_with entry ctx u (compensation entry)

  -- the loop over the entries, the last completed first
  unfoldable pub unwind_loop : List Completed → Context → Unwound → Exec (Machine W) Unwound
  unwind_loop [] ctx u = pure u
  unwind_loop (entry ∷ rest) ctx u = compensate_one entry ctx u >>= λ r. unwind_loop rest r.0 r.1

  -- `Engine.unwind`
  unfoldable pub unwind : List Completed → Context → Exec (Machine W) Unwound
  unwind done ctx = unwind_loop (reverse done) ctx (record { undone = []; failures = [] })

  -- `Engine.abandon`: the error with which the run ends
  unfoldable pub abandon : List Completed → Context → Err → Exec (Machine W) Err
  unfolding cause
  abandon [] ctx e = pure e
  abandon (entry ∷ done) ctx e = elim (is_trip (cause e)) [
    | false ↦ pure e
    | true ↦ unwind (entry ∷ done) ctx >>= λ u. pure (report (cause e) u)
  ]
