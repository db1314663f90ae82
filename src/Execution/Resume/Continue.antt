-- ===== src/Execution/Resume/Continue.antt =====
-- Resuming a run that is saved in memory: where it goes on, and with what.
use cee.Prelude.{sym, subst, String, ◌≡◌, refl, true, none, some, ◌++◌, ◌==◌, ap, ◌∙◌}
use cee.Maps.{lookup, remove}
use cee.Value.{Context}
use cee.Entities.{WorkflowResult}
use cee.Execution.Exec.{ok, ◌>>=◌, pure, Exec, attempt}
use cee.Execution.Exec.Laws.{bind_ok, attempt_ok}
use cee.Execution.Types.{LeafStep, State, Engine, Machine, Host, outside, Workflow}
use cee.Execution.Failure.{merge}
use cee.Execution.MemoryStore.Laws.{load_found, consume_found}
use cee.Execution.Resume.{Option, false, claimed_or_error}
use cee.Execution.MemoryStore.{MemoryStore, release, as_store}
use cee.Execution.Engine.{run_at_top, run_from, enter, first_frame, first_step, loop}
use cee.Execution.Resume.{
  authorize, claim, claim_leaf, resume_as, resume_from, suspended_leaf, go_on, signed,
}

module _ {R : Type 0} (host : Host (MemoryStore × R)) (e : Engine (MemoryStore × R))
    (pointer identity : String) (resolution : Context) (state : State)
    (s : LeafStep (MemoryStore × R)) (m : Machine (MemoryStore × R)) where
  -- the machine once the run is claimed
  abbrev pub claimed : Machine (MemoryStore × R)
  claimed = record m { world = (remove pointer m.world.0, m.world.1) }

  loaded : lookup pointer m.world.0 ≡ some state → outside (as_store.load pointer) m ≡ (ok state, m)
  unfolding outside as_store
  loaded saved = rw (load_found pointer m.world.0 saved)

  consumed :
      lookup pointer m.world.0 ≡ some state
      → outside (as_store.consume pointer) m ≡ (ok state, claimed)
  unfolding outside as_store
  consumed saved = rw (consume_found pointer m.world.0 saved)

  claim_lem :
      lookup pointer m.world.0 ≡ some state
      → suspended_leaf host e state ≡ ok s
      → (state.audience == "") ≡ true
      → claim host e as_store pointer identity m ≡ (ok (state, s), claimed)
  unfolding claim claim_leaf authorize pure
  claim_lem saved found open_to_all =
      bind_ok (outside (as_store.load pointer)) _ m m (loaded saved)
      ∙ bind_ok (λ m'. (suspended_leaf host e state, m')) _ m m (ap (λ r. (r, m)) found)
      ∙ bind_ok (authorize host e state identity) _ m m (rw open_to_all)
      ∙ bind_ok (attempt (outside (as_store.consume pointer)) >>= claimed_or_error host e) _ m
          claimed
          (bind_ok (attempt (outside (as_store.consume pointer))) (claimed_or_error host e) m
            claimed (attempt_ok (outside (as_store.consume pointer)) m claimed (consumed saved)))

  released : (m' : Machine (MemoryStore × R)) → outside (as_store.release pointer) m' ≡ (ok tt, m')
  unfolding outside as_store release
  released m' = refl

  go_on_lem :
      (result : WorkflowResult) (m' : Machine (MemoryStore × R))
      → run_at_top host e state.workflow_id s.on_success
          (signed host e identity (merge state.ctx resolution))
          claimed
        ≡ (ok result, m')
      → go_on host e as_store pointer identity resolution (state, s) claimed
        ≡ (ok (record result { trace = state.trace ++ result.trace }, none), m')
  unfolding go_on pure
  go_on_lem result m' ran =
      bind_ok
        (attempt (
          run_at_top host e state.workflow_id s.on_success
            (signed host e identity (merge state.ctx resolution))))
        _ claimed m' (attempt_ok _ claimed m' ran)
      ∙ bind_ok (attempt (outside (as_store.release pointer))) _ m' m'
          (attempt_ok (outside (as_store.release pointer)) m' m' (released m'))

  -- A run that waits in memory, open to all, goes on where `runFrom` starts at the id in `on_success`
  -- of the step that waited, with the resolution merged over the saved context and the caller's
  -- identity in it, and with the pointer gone from the store. The trace that is returned is the saved
  -- one and then that of the rest of the run.
  pub resume_as-continues :
      (result : WorkflowResult) (m' : Machine (MemoryStore × R))
      → e.store ≡ some as_store
      → lookup pointer m.world.0 ≡ some state
      → suspended_leaf host e state ≡ ok s
      → (state.audience == "") ≡ true
      → run_at_top host e state.workflow_id s.on_success
          (signed host e identity (merge state.ctx resolution))
          claimed
        ≡ (ok result, m')
      → resume_as host e pointer identity resolution m
        ≡ (ok (record result { trace = state.trace ++ result.trace }, none), m')
  unfolding resume_as resume_from
  resume_as-continues result m' configured saved found open_to_all ran =
      ap (λ o. resume_from host e pointer identity resolution o m) configured
      ∙ bind_ok (attempt (claim host e as_store pointer identity)) _ m claimed (
          attempt_ok (claim host e as_store pointer identity) m claimed
            (claim_lem saved found open_to_all))
      ∙ go_on_lem result m' ran

enter-entry :
    {W : Type 0} (host : Host W) (e : Engine W)
    (sub : String → Context → Exec (Machine W) WorkflowResult) (ref : String)
    (workflow : Workflow W) (ctx : Context) (o : Option (Workflow W))
    → o ≡ some workflow
    → (workflow.entry_step_id == "") ≡ false
    → enter host e sub 0 ref "" ctx o ≡ enter host e sub 0 ref workflow.entry_step_id ctx o
unfolding enter
enter-entry host e sub ref workflow ctx none registered entry = absurd (cc registered)
enter-entry host e sub ref workflow ctx (some w) registered entry =
    let same : w ≡ workflow = cc registered in
    subst
      (λ v.
        loop host e ref w sub 0 e.max_steps (first_frame host e (first_step host e "" w) ctx)
        ≡ loop host e ref w sub 0 e.max_steps
            (first_frame host e (first_step host e v.entry_step_id w) ctx))
      same (rw (subst (λ v. (v.entry_step_id == "") ≡ false) (sym same) entry))

-- A run at the top of a workflow from no step is a run from its entry step.
run_at_top-entry :
    {W : Type 0} (host : Host W) (e : Engine W) (ref : String) (workflow : Workflow W)
    (ctx : Context)
    → lookup ref e.workflows ≡ some workflow
    → (workflow.entry_step_id == "") ≡ false
    → run_at_top host e ref "" ctx ≡ run_at_top host e ref workflow.entry_step_id ctx
unfolding run_at_top run_from enter
run_at_top-entry host e ref workflow ctx registered entry =
    enter-entry host e _ ref workflow ctx (lookup ref e.workflows) registered entry

module _ {R : Type 0} (host : Host (MemoryStore × R)) (e : Engine (MemoryStore × R))
    (pointer identity : String) (resolution : Context) (state : State)
    (s : LeafStep (MemoryStore × R)) (m : Machine (MemoryStore × R)) where
  -- A run that waited at the last step of its workflow, one with an empty `on_success`, does not end
  -- when it is resumed: it starts again at the entry step of the workflow.
  pub resume_as-restarts :
      (workflow : Workflow (MemoryStore × R)) (result : WorkflowResult)
      (m' : Machine (MemoryStore × R))
      → e.store ≡ some as_store
      → lookup pointer m.world.0 ≡ some state
      → suspended_leaf host e state ≡ ok s
      → (state.audience == "") ≡ true
      → s.on_success ≡ ""
      → lookup state.workflow_id e.workflows ≡ some workflow
      → (workflow.entry_step_id == "") ≡ false
      → run_at_top host e state.workflow_id workflow.entry_step_id
          (signed host e identity (merge state.ctx resolution))
          (claimed host e pointer identity resolution state s m)
        ≡ (ok result, m')
      → resume_as host e pointer identity resolution m
        ≡ (ok (record result { trace = state.trace ++ result.trace }, none), m')
  resume_as-restarts workflow result m' configured saved found open_to_all last registered entry
        ran =
      resume_as-continues host e pointer identity resolution state s m result m' configured saved
        found open_to_all
        (ap
            (λ id.
              run_at_top host e state.workflow_id id
                (signed host e identity (merge state.ctx resolution))
                (claimed host e pointer identity resolution state s m))
            last
          ∙ ap (λ c. c (claimed host e pointer identity resolution state s m))
              (run_at_top-entry host e state.workflow_id workflow _ registered entry)
          ∙ ran)
