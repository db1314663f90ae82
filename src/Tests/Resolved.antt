-- ===== src/Tests/Resolved.antt =====
-- A workflow whose references resolve.
use cee.Prelude.{String, ◌≡◌, refl, some, [], ◌∷◌, inl, inr, ◌==◌, true, Bool-cases, subst, sym}
use cee.Maps.{lookup, insert, insert_all}
use cee.Value.{bool}
use cee.Execution.Exec.{◌>>=◌}
use cee.Execution.Types.{Step, Workflow, leaf, circuit_breaker_policy_ref, outside, step_id}
use cee.Execution.Failure.{fallback_of, observe, merge}
use cee.Execution.Engine.{goto, turn, take_step, leaf_step, run_action, after_action}
use cee.Execution.Engine.Stays.{Stays, on_success}
use cee.Execution.Engine.Resolved.{Resolves, IsResolved, turn-Stays}
use cee.Tests.Data.{World, host, pay, step_of, workflow_of, engine_of, start, at}
use cee.Tests.Waiting.{no_sub}

abbrev payment : Step World
payment = leaf (step_of "pay" pay "" "" "" "")

abbrev till : Workflow World
till = workflow_of "pay" (("pay", payment) ∷ [])

only_payment : (id : String) (step : Step World) → lookup id till.steps ≡ some step → payment ≡ step
unfolding lookup
only_payment id step h = elim (Bool-cases ("pay" == id)) [
  | inl e ↦ let found : some payment ≡ some step = rw e at h in cc found
  | inr e ↦ absurd (cc (rw e at h))
]

till-IsResolved : IsResolved (engine_of till) till
unfolding fallback_of circuit_breaker_policy_ref
till-IsResolved = record {
  success =
      λ id step h. subst (λ s. Resolves till (on_success s)) (only_payment id step h) (inl refl);
  fallback = λ id fallback step h f. absurd (
      cc (
        subst (λ s. fallback_of (engine_of till) (circuit_breaker_policy_ref s) ≡ some fallback)
          (sym (only_payment id step h)) f));
}

turn-Stays_example :
    Stays till
      (Resolves till)
      (goto
        (record { step_id = ""; ctx = ("paid", bool true) ∷ []; done = []; trace = "pay" ∷ [] }))
      (turn host (engine_of till) "w" till no_sub 0 (at "pay" []) start).1
unfolding turn take_step leaf_step run_action after_action observe merge outside ◌>>=◌ lookup
    step_id insert_all insert
turn-Stays_example =
    turn-Stays host (engine_of till) till no_sub 0 "w" till-IsResolved (at "pay" []) start
      (goto
        (record { step_id = ""; ctx = ("paid", bool true) ∷ []; done = []; trace = "pay" ∷ [] }))
      refl
