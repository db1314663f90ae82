-- ===== src/Execution/Compensate/Report.antt =====
-- The report of an unwind, against what the compensations did.
use cee.Prelude.{
  String, ◌≡◌, refl, sym, ap, ◌∙◌, none, some, Option, List, [], ◌∷◌, ◌++◌, ◌⊎◌, inl, inr, reverse,
  concat, quote,
}
use mathlib.Core.List.{append_assoc, append-nil}
use cee.Maps.{lookup}
use cee.Value.{Value, Context}
use cee.Execution.Errors.{Err, CompensationFailure}
use cee.Execution.Texts.{error_text}
use cee.Execution.Exec.{Outcome, ok, err, panic, pure, attempt}
use cee.Execution.Exec.Laws.{bind_ok, bind_panic, attempt_ok, attempt_err, attempt_panic}
use cee.Execution.Types.{
  Step, LeafStep, leaf, composite, parallel, Workflow, Machine, Host, outside,
}
use cee.Execution.Failure.{merge}
use cee.Execution.Compensate.{
  Completed, Unwound, failure, compensate_one, compensate_with, compensation, record_result,
  unwind_loop, unwind,
}

module _ {W : Type 0} (host : Host W) (workflow : Workflow W) where
  -- Entries that are undone one after another, from a context and a machine: the steps whose
  -- compensations ran and returned, the failures of the others, and the machine that is left.
  pub data Unwinds
      : List Completed
        → Context
        → Machine W
        → List String
        → List CompensationFailure
        → Machine W
        → Type 0 where
    nothing : {ctx : Context} {m : Machine W} → Unwinds [] ctx m [] [] m
    undone :
        {e : Completed} {es : List Completed} {ctx output : Context} {m m' : Machine W} {w : W}
        {us : List String} {fs : List CompensationFailure} {s : LeafStep W}
        → lookup e.compensate_step workflow.steps ≡ some (leaf s)
        → s.run ctx m.world ≡ (ok output, w)
        → Unwinds es (merge ctx output) (record m { world = w }) us fs m'
        → Unwinds (e ∷ es) ctx m (e.step_id ∷ us) fs m'
    failed :
        {e : Completed} {es : List Completed} {ctx : Context} {m m' : Machine W} {w : W}
        {us : List String} {fs : List CompensationFailure} {s : LeafStep W} {f : Err}
        → lookup e.compensate_step workflow.steps ≡ some (leaf s)
        → s.run ctx m.world ≡ (err f, w)
        → Unwinds es ctx (record m { world = w }) us fs m'
        → Unwinds (e ∷ es) ctx m us (failure e (error_text host.show f) ∷ fs) m'
    missing :
        {e : Completed} {es : List Completed} {ctx : Context} {m m' : Machine W} {us : List String}
        {fs : List CompensationFailure}
        → lookup e.compensate_step workflow.steps ≡ none
        → Unwinds es ctx m us fs m'
        → Unwinds
            (e ∷ es)
            ctx
            m
            us
            (failure e (
                concat (
                  "workflow "
                  ∷ quote workflow.workflow_id
                  ∷ " has no step "
                  ∷ quote e.compensate_step
                  ∷ []))
              ∷ fs)
            m'
    no_leaf :
        {e : Completed} {es : List Completed} {ctx : Context} {m m' : Machine W} {us : List String}
        {fs : List CompensationFailure} {step : Step W}
        → lookup e.compensate_step workflow.steps ≡ some step
        → ((s : LeafStep W) → ¬ (step ≡ leaf s))
        → Unwinds es ctx m us fs m'
        → Unwinds (e ∷ es) ctx m us (failure e "a compensation must be a leaf step" ∷ fs) m'

  -- A compensation of one of the entries that panics, and the machine that it leaves.
  pub data Panics : List Completed → Value → Machine W → Type 0 where
    panics_first :
        {e : Completed} {es : List Completed} {ctx : Context} {m : Machine W} {w : W}
        {s : LeafStep W} {v : Value}
        → lookup e.compensate_step workflow.steps ≡ some (leaf s)
        → s.run ctx m.world ≡ (panic v, w)
        → Panics (e ∷ es) v (record m { world = w })
    panics_later :
        {e : Completed} {es : List Completed} {v : Value} {m' : Machine W}
        → Panics es v m'
        → Panics (e ∷ es) v m'

  abbrev added : Unwound → List String → List CompensationFailure → Unwound
  added u us fs = record { undone = u.undone ++ us; failures = u.failures ++ fs }

  added_nil : (u : Unwound) → u ≡ added u [] []
  added_nil u =
      ap (λ x. record { undone = x; failures = u.failures }) (sym (append-nil u.undone))
      ∙ ap (λ x. record { undone = u.undone ++ []; failures = x }) (sym (append-nil u.failures))

  -- a loop that goes on from a report, or panics
  abbrev Goes : List Completed → Context → Unwound → Machine W → Type 0
  Goes es ctx u m =
      ((us : List String) × (fs : List CompensationFailure) × (m' : Machine W) × (unwind_loop host
            workflow es ctx u m
          ≡ (ok (added u us fs), m'))
        × Unwinds es ctx m us fs m')
      ⊎ ((v : Value) × (m' : Machine W) × (unwind_loop host workflow es ctx u m ≡ (panic v, m'))
          × Panics es v m')

  abbrev with_undone : Completed → Unwound → Unwound
  with_undone e u = record u { undone = u.undone ++ e.step_id ∷ [] }

  abbrev with_failure : Completed → String → Unwound → Unwound
  with_failure e reason u = record u { failures = u.failures ++ failure e reason ∷ [] }

  -- the first round is done, and the rest goes on after an undone step
  go_undone :
      (e : Completed) (es : List Completed) (ctx output : Context) (u : Unwound) (m m1 : Machine W)
      → compensate_one host workflow e ctx u m ≡ (ok (output, with_undone e u), m1)
      → ((us : List String) (fs : List CompensationFailure) (m' : Machine W)
          → Unwinds es output m1 us fs m'
          → Unwinds (e ∷ es) ctx m (e.step_id ∷ us) fs m')
      → Goes es output (with_undone e u) m1
      → Goes (e ∷ es) ctx u m
  unfolding unwind_loop
  go_undone e es ctx output u m m1 round step (inl (us, fs, m', runs, h)) = inl (
    e.step_id ∷ us,
    fs,
    m',
    bind_ok (compensate_one host workflow e ctx u) _ m m1 round
        ∙ runs
        ∙ ap (λ x. (ok (record { undone = x; failures = u.failures ++ fs }), m'))
            (append_assoc u.undone (e.step_id ∷ []) us),
    step us fs m' h,
  )
  go_undone e es ctx output u m m1 round step (inr (v, m', runs, h)) =
      inr
        (v, m', bind_ok (compensate_one host workflow e ctx u) _ m m1 round ∙ runs, panics_later h)

  go_failed :
      (e : Completed) (es : List Completed) (ctx : Context) (reason : String) (u : Unwound)
      (m m1 : Machine W)
      → compensate_one host workflow e ctx u m ≡ (ok (ctx, with_failure e reason u), m1)
      → ((us : List String) (fs : List CompensationFailure) (m' : Machine W)
          → Unwinds es ctx m1 us fs m'
          → Unwinds (e ∷ es) ctx m us (failure e reason ∷ fs) m')
      → Goes es ctx (with_failure e reason u) m1
      → Goes (e ∷ es) ctx u m
  unfolding unwind_loop
  go_failed e es ctx reason u m m1 round step (inl (us, fs, m', runs, h)) = inl (
    us,
    failure e reason ∷ fs,
    m',
    bind_ok (compensate_one host workflow e ctx u) _ m m1 round
        ∙ runs
        ∙ ap (λ x. (ok (record { undone = u.undone ++ us; failures = x }), m'))
            (append_assoc u.failures (failure e reason ∷ []) fs),
    step us fs m' h,
  )
  go_failed e es ctx reason u m m1 round step (inr (v, m', runs, h)) =
      inr
        (v, m', bind_ok (compensate_one host workflow e ctx u) _ m m1 round ∙ runs, panics_later h)

  compensation_lem :
      (e : Completed) (ctx : Context) (u : Unwound) (m : Machine W) (c : LeafStep W ⊎ String)
      → compensation host workflow e ≡ c
      → compensate_one host workflow e ctx u m ≡ compensate_with host workflow e ctx u c m
  unfolding compensate_one
  compensation_lem e ctx u m c h = ap (λ x. compensate_with host workflow e ctx u x m) h

  -- the round of an entry whose compensation is a leaf step, by what its action did
  go_leaf :
      (e : Completed) (es : List Completed) (ctx : Context) (u : Unwound) (m : Machine W)
      (s : LeafStep W) (r : Outcome Context) (w : W)
      → lookup e.compensate_step workflow.steps ≡ some (leaf s)
      → s.run ctx m.world ≡ (r, w)
      → ((ctx' : Context) (u' : Unwound) (m' : Machine W) → Goes es ctx' u' m')
      → Goes (e ∷ es) ctx u m
  unfolding compensation compensate_with record_result outside pure unwind_loop
  go_leaf e es ctx u m s (ok output) w found ran rest =
      let m1 : Machine W = record m { world = w } in
      let leaf_found : compensation host workflow e ≡ inl s = rw (found, compensation) refl in
      let called : outside (s.run ctx) m ≡ (ok output, m1) =
        ap (λ (x : Outcome Context × W). (x.0, record m { world = x.1 })) ran in
      go_undone e es ctx (merge ctx output) u m m1
        (compensation_lem e ctx u m (inl s) leaf_found
          ∙ bind_ok (attempt (outside (s.run ctx))) _ m m1
              (attempt_ok (outside (s.run ctx)) m m1 called))
        (λ us fs m' h. undone found ran h) (rest _ _ _)
  go_leaf e es ctx u m s (err f) w found ran rest =
      let m1 : Machine W = record m { world = w } in
      let leaf_found : compensation host workflow e ≡ inl s = rw (found, compensation) refl in
      let called : outside (s.run ctx) m ≡ (err f, m1) =
        ap (λ (x : Outcome Context × W). (x.0, record m { world = x.1 })) ran in
      go_failed e es ctx (error_text host.show f) u m m1
        (compensation_lem e ctx u m (inl s) leaf_found
          ∙ bind_ok (attempt (outside (s.run ctx))) _ m m1
              (attempt_err (outside (s.run ctx)) m m1 called))
        (λ us fs m' h. failed found ran h) (rest _ _ _)
  go_leaf e es ctx u m s (panic v) w found ran rest =
      let m1 : Machine W = record m { world = w } in
      let leaf_found : compensation host workflow e ≡ inl s = rw (found, compensation) refl in
      let called : outside (s.run ctx) m ≡ (panic v, m1) =
        ap (λ (x : Outcome Context × W). (x.0, record m { world = x.1 })) ran in
      inr (
        v,
        m1,
        bind_panic (compensate_one host workflow e ctx u) _ m m1 (
            compensation_lem e ctx u m (inl s) leaf_found
            ∙ bind_panic (attempt (outside (s.run ctx))) _ m m1
                (attempt_panic (outside (s.run ctx)) m m1 called)),
        panics_first found ran,
      )

  -- the round of an entry, by the step that it names
  go_entry :
      (e : Completed) (es : List Completed) (ctx : Context) (u : Unwound) (m : Machine W)
      (o : Option (Step W))
      → lookup e.compensate_step workflow.steps ≡ o
      → ((ctx' : Context) (u' : Unwound) (m' : Machine W) → Goes es ctx' u' m')
      → Goes (e ∷ es) ctx u m
  unfolding compensation compensate_with pure
  go_entry e es ctx u m none found rest =
      let none_found : compensation host workflow e ≡ inr _ = rw (found, compensation) refl in
      go_failed e es ctx _ u m m (compensation_lem e ctx u m (inr _) none_found)
        (λ us fs m' h. missing found h) (rest _ _ _)
  go_entry e es ctx u m (some (leaf s)) found rest =
      go_leaf e es ctx u m s (s.run ctx m.world).0 (s.run ctx m.world).1 found refl rest
  go_entry e es ctx u m (some (composite s)) found rest =
      let other : compensation host workflow e ≡ inr "a compensation must be a leaf step" =
        rw (found, compensation) refl in
      go_failed e es ctx "a compensation must be a leaf step" u m m
        (compensation_lem e ctx u m (inr _) other) (λ us fs m' h. no_leaf found (λ s' e. cc e) h)
        (rest _ _ _)
  go_entry e es ctx u m (some (parallel s)) found rest =
      let other : compensation host workflow e ≡ inr "a compensation must be a leaf step" =
        rw (found, compensation) refl in
      go_failed e es ctx "a compensation must be a leaf step" u m m
        (compensation_lem e ctx u m (inr _) other) (λ us fs m' h. no_leaf found (λ s' e. cc e) h)
        (rest _ _ _)

  unwind_loop-Goes :
      (es : List Completed) (ctx : Context) (u : Unwound) (m : Machine W) → Goes es ctx u m
  unfolding unwind_loop pure
  unwind_loop-Goes [] ctx u m =
      inl ([], [], m, ap (λ (x : Unwound). (ok x, m)) (added_nil u), nothing)
  unwind_loop-Goes (e ∷ es) ctx u m =
      go_entry e es ctx u m (lookup e.compensate_step workflow.steps) refl
        (λ ctx' u' m'. unwind_loop-Goes es ctx' u' m')

  -- Unless a compensation panics, with which the unwind ends, it returns, and its report is what was done: from the last
  -- completed step to the first, a step is listed as undone exactly if the leaf step that it names was
  -- run, on the context that the compensations before it have left, and returned; otherwise it is a
  -- failure, with the error of that run or with the reason why nothing could be run. No failure stops it.
  pub unwind_reports :
      (done : List Completed) (ctx : Context) (m : Machine W)
      → ((u : Unwound) × (m' : Machine W) × (unwind host workflow done ctx m ≡ (ok u, m'))
          × Unwinds (reverse done) ctx m u.undone u.failures m')
        ⊎ ((v : Value) × (m' : Machine W) × (unwind host workflow done ctx m ≡ (panic v, m'))
            × Panics (reverse done) v m')
  unfolding unwind
  unwind_reports done ctx m =
      elim (unwind_loop-Goes (reverse done) ctx (record { undone = []; failures = [] }) m) [
        | inl (us, fs, m', runs, h) ↦ inl (record { undone = us; failures = fs }, m', runs, h)
        | inr (v, m', runs, h) ↦ inr (v, m', runs, h)
      ]
