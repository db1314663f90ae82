-- ===== src/Execution/Suspend/Parks.antt =====
-- A suspension that returns has told the observer last.
use cee.Prelude.{ltb, ℕ, String, ◌≡◌, refl, Option, none, some, List, ◌∷◌, ◌⊎◌, inl, inr}
use cee.Value.{Context}
use cee.Entities.{WorkflowResult}
use cee.Execution.Errors.{Err}
use cee.Execution.Exec.{◌>>=◌, pure, Exec}
use cee.Execution.Exec.Laws.{Ensures-bind, Ensures-raise, Ensures-if, Ensures}
use cee.Execution.Types.{
  Workflow, Engine, Machine, Host, outside, Store, State, Event, observe_suspension,
}
use cee.Execution.Failure.{observe}
use cee.Execution.Suspend.{parked_state, after_save, suspend_to, suspend, park}

-- The last thing that the observer was told is that the run suspended.
abbrev pub Parked : {W : Type 0} → Workflow W → Machine W → Type 0
Parked workflow m =
    (id : String) × (events : List Event) × (m.events
      ≡ observe_suspension workflow.workflow_id id ∷ events)

module _ {W : Type 0} (host : Host W) (e : Engine W) (workflow : Workflow W) where
  abbrev pub Parks : Exec (Machine W) WorkflowResult → Type 0
  Parks = Ensures (λ r m. Parked workflow m)

  Parks-after_save :
      (state : State) (r : (Unit {0}) ⊎ Err) → Parks (after_save host e workflow state r)
  unfolding after_save observe pure ◌>>=◌
  Parks-after_save state (inl u) m r p = (state.step_id, m.events, refl)
  Parks-after_save state (inr failed) m r p = Ensures-raise (λ r m. Parked workflow m) _ m r p

  Parks-suspend_to :
      (id : String) (waiting : String × String) (ctx : Context) (trace : List String)
      (store : Option (Store W))
      → Parks (suspend_to host e workflow id waiting ctx trace store)
  unfolding suspend_to park
  Parks-suspend_to id waiting ctx trace none = Ensures-raise (λ r m. Parked workflow m) _
  Parks-suspend_to id (reason, audience) ctx trace (some store) =
      Ensures-bind (λ r m. Parked workflow m) (outside host.new_pointer) _
        λ pointer.
          Ensures-bind (λ r m. Parked workflow m) _ _
            λ r.
              Parks-after_save (parked_state host e workflow pointer id reason audience ctx trace) r

  pub Parks-suspend :
      (id : String) (waiting : String × String) (ctx : Context) (trace : List String) (depth : ℕ)
      → Parks (suspend host e workflow id waiting ctx trace depth)
  unfolding suspend
  Parks-suspend id waiting ctx trace depth =
      Ensures-if (λ r m. Parked workflow m) (ltb 0 depth) _ _
        (Ensures-raise (λ r m. Parked workflow m) _) (Parks-suspend_to id waiting ctx trace e.store)
