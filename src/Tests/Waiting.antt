-- ===== src/Tests/Waiting.antt =====
-- Runs that wait, and what becomes of them.
use cee.Prelude.{sym, subst, ◌==◌, String, ◌≡◌, refl, true, none, some, [], ◌∷◌}
use cee.Maps.{lookup, insert, insert_all, remove}
use cee.Value.{str, bool}
use cee.Execution.Failure.{fallback_of, observe, merge}
use cee.Execution.Suspend.{suspend}
use cee.Value.{bool, str, Context}
use cee.Entities.{WorkflowResult}
use cee.Execution.Errors.{as_suspended}
use cee.Execution.Exec.{ok, err, Exec, ◌>>=◌, attempt}
use cee.Execution.Types.{
  step_id, outside, circuit_breaker_policy_ref, observe_step, leaf, Machine, State, Workflow,
  Engine, Step,
}
use cee.Execution.MemoryStore.{as_store, save, load, consume, no_such_pointer}
use cee.Execution.Suspend.Parks.{Parked}
use cee.Execution.Engine.{
  loop, turn, take_step, leaf_step, run_action, after_action, run_at_top, run_from, enter,
}
use cee.Execution.Engine.Stays.{IsClosed, on_success}
use cee.Execution.Engine.Cycle.{loop-Parked}
use cee.Execution.Resume.{resume_as, claim, suspended_leaf, authorize}
use cee.Execution.Resume.Authorized.{claim-Consented, Consented}
use cee.Execution.Resume.Continue.{resume_as-continues, resume_as-restarts}
use cee.Tests.Data.{World, host, pay, wait, step_of, workflow_of, engine_of, start, at}

abbrev pub saved : State
saved = record {
  pointer = "p";
  workflow_id = "w";
  step_id = "approve";
  reason = "manager";
  audience = "";
  ctx = [];
  trace = "approve" ∷ [];
}

abbrev pub for_finance : State
for_finance = record saved { audience = "finance" }

abbrev pub waiting_with : State → Machine World
waiting_with s = record { world = (("p", s) ∷ [], 0); events = [] }

-- an approval, and the payment behind it
abbrev pub approval : Workflow World
approval = workflow_of "pay" (
    ("pay", leaf (step_of "pay" pay "" "" "approve" ""))
    ∷ ("approve", leaf (step_of "approve" wait "" "" "ship" ""))
    ∷ ("ship", leaf (step_of "ship" pay "" "" "" ""))
    ∷ [])

abbrev spinning : Workflow World
spinning = workflow_of "spin" (("spin", leaf (step_of "spin" wait "" "" "spin" "")) ∷ [])

abbrev OnlySpin : String → Type 0
OnlySpin id = id ≡ "spin"

abbrev pub no_sub : String → Context → Exec (Machine World) WorkflowResult
no_sub ref ctx m = (err (no_such_pointer ref), m)

-- the only step that is found
spin_step :
    (id : String) (step : Step World)
    → OnlySpin id
    → lookup id spinning.steps ≡ some step
    → leaf (step_of "spin" wait "" "" "spin" "") ≡ step
unfolding lookup
spin_step id step p h =
    let found : some (leaf (step_of "spin" wait "" "" "spin" "")) ≡ some step =
      subst (λ i. lookup i spinning.steps ≡ some step) p h in
    cc found

spin-IsClosed : IsClosed (engine_of spinning) spinning OnlySpin
unfolding fallback_of circuit_breaker_policy_ref
spin-IsClosed = record {
  not_the_end = λ id p. rw p refl;
  success = λ id step p h. subst (λ s. on_success s ≡ "spin") (spin_step id step p h) refl;
  fallback = λ id fallback step p h f. absurd (
      cc (
        subst (λ s. fallback_of (engine_of spinning) (circuit_breaker_policy_ref s) ≡ some fallback)
          (sym (spin_step id step p h)) f));
}

loop-Parked_example :
    Parked spinning (loop host (engine_of spinning) "w" spinning no_sub 0 3 (at "spin" []) start).1
unfolding loop ◌>>=◌ turn lookup take_step leaf_step run_action observe outside after_action step_id
    as_suspended suspend as_store save
loop-Parked_example =
    loop-Parked host (engine_of spinning) spinning OnlySpin no_sub 0 "w" spin-IsClosed 3
      (at "spin" []) start (record { output = []; state_pointer = "pointer"; trace = "spin" ∷ [] })
      refl refl

resume_as-continues_example :
    resume_as host (engine_of approval) "p" "ann" [] (waiting_with saved) ≡ (
      ok (
        record {
          output = ("cee.resumed_by", str "ann") ∷ ("paid", bool true) ∷ [];
          state_pointer = "";
          trace = "approve" ∷ "ship" ∷ [];
        },
        none,
      ),
      record { world = ([], 1); events = observe_step "w" "ship" ∷ [] },
    )
unfolding suspended_leaf run_at_top run_from enter loop ◌>>=◌ turn lookup take_step leaf_step
    run_action observe outside after_action step_id merge remove insert_all insert
resume_as-continues_example =
    resume_as-continues host (engine_of approval) "p" "ann" [] saved
      (step_of "approve" wait "" "" "ship" "") (waiting_with saved)
      (record {
        output = ("cee.resumed_by", str "ann") ∷ ("paid", bool true) ∷ [];
        state_pointer = "";
        trace = "ship" ∷ [];
      })
      (record { world = ([], 1); events = observe_step "w" "ship" ∷ [] }) refl refl refl refl refl

-- the approval stands last
abbrev sign_off : Workflow World
sign_off = workflow_of "pay" (
    ("pay", leaf (step_of "pay" pay "" "" "" ""))
    ∷ ("approve", leaf (step_of "approve" wait "" "" "" ""))
    ∷ [])

abbrev paid_again : Context
paid_again = ("paid", bool true) ∷ []

resume_as-restarts_example : resume_as host (engine_of sign_off) "p" "" [] (waiting_with saved) ≡ (
  ok (record { output = paid_again; state_pointer = ""; trace = "approve" ∷ "pay" ∷ [] }, none),
  record { world = ([], 1); events = observe_step "w" "pay" ∷ [] },
)
unfolding suspended_leaf run_at_top run_from enter loop ◌>>=◌ turn lookup take_step leaf_step
    run_action observe outside after_action step_id merge remove insert_all insert
resume_as-restarts_example =
    resume_as-restarts host (engine_of sign_off) "p" "" [] saved
      (step_of "approve" wait "" "" "" "") (waiting_with saved) sign_off
      (record { output = paid_again; state_pointer = ""; trace = "pay" ∷ [] })
      (record { world = ([], 1); events = observe_step "w" "pay" ∷ [] }) refl refl refl refl refl
      refl refl refl

-- an engine that knows who may speak for finance
abbrev pub guarded : Engine World
guarded = record (engine_of approval) {
  authorizer = some (λ a w. (ok (a.identity == "ann", "not on the list"), w));
}

claim-Consented_example :
    (state : State) × ((as_store.load "p" (waiting_with for_finance).world).0 ≡ ok state)
    × Consented host guarded state "ann"
        (as_store.load "p" (waiting_with for_finance).world).1
        guarded.authorizer
unfolding claim suspended_leaf authorize outside ◌>>=◌ as_store load consume lookup attempt remove
claim-Consented_example =
    claim-Consented host guarded as_store "p" "ann" (waiting_with for_finance)
      {claimed = (for_finance, step_of "approve" wait "" "" "ship" "")} refl
