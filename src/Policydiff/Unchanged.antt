-- ===== src/Policydiff/Unchanged.antt =====
-- A manifest that is compared with itself.
use cee.Prelude.{ℕ, ◌+◌, String, ◌≡◌, refl, ap, ◌∙◌, Option, List, [], ◌∷◌, ◌⊎◌, inl, inr, length}
use cee.Value.{Value}
use cee.Maps.{lookup}
use cee.Entities.{WorkflowResult}
use cee.Execution.Errors.{Err}
use cee.Execution.Exec.{Exec, ok, attempt, ◌>>=◌, pure}
use cee.Execution.Exec.Laws.{bind_ok}
use cee.Execution.Types.{Engine, Host, Machine}
use cee.Execution.Engine.{run}
use cee.Manifest.Specs.{File}
use cee.Stdlib.Actions.{Library}
use cee.Replay.Records.{clone_map}
use cee.Replay.Compare.Agrees.{SameEnd, agree_refl, compare_lem}
use cee.Policydiff.{
  Report, result_of, error_of, recording_of, weigh, compare_events, build, compare_built, compare,
  new_report,
}
use cee.Bench.{SuiteEvent, count_error}

-- Nothing changed, and both runs failed equally often.
abbrev pub IsUnchanged : Report → Type 0
IsUnchanged r = (r.outcomes ≡ []) × (r.explanations ≡ []) × (r.before_errors ≡ r.after_errors)

answer_at : {S A : Type 0} (m : Exec S A) (s : S) {a : A} → (m s).0 ≡ ok a → m s ≡ (ok a, (m s).1)
answer_at m s h = ap (λ x. (x, (m s).1)) h

module _ (marshal : Value → Option String) (show : Value → String) {W : Type 0}
    (host : Host W) where
  -- The run of the event gives one answer, a result or an error, in every state.
  abbrev pub Settled : Engine W → SuiteEvent → Type 0
  Settled e ev =
      (r : WorkflowResult ⊎ Err) × ((s : Machine W)
        → (attempt (run host e ev.workflow_ref (clone_map ev.context)) s).0 ≡ ok r)

  abbrev pub AllSettled : Engine W → List SuiteEvent → Type 0
  AllSettled e [] = Unit
  AllSettled e (ev ∷ events) = Settled e ev × AllSettled e events

  abbrev pub BuiltSettled : Engine W ⊎ Err → List SuiteEvent → Type 0
  BuiltSettled (inl e) events = AllSettled e events
  BuiltSettled (inr failure) events = ⊥

  own_end :
      (ev : SuiteEvent) (r : WorkflowResult ⊎ Err)
      → SameEnd marshal show (recording_of marshal show ev r) (error_of r)
  own_end ev (inl result) = refl
  own_end ev (inr e) = (refl, refl)

  weigh_same :
      (i : ℕ) (ev : SuiteEvent) (r : WorkflowResult ⊎ Err) (report : Report)
      → IsUnchanged report
      → IsUnchanged (weigh marshal show i ev r r report)
        × ((weigh marshal show i ev r r report).events ≡ report.events)
  unfolding weigh
  weigh_same i ev r report h =
      let none_differ =
        (compare_lem marshal show (recording_of marshal show ev r) (result_of r) (error_of r)).1 (
          refl,
          refl,
          own_end ev r,
          λ key. agree_refl marshal show (lookup key (result_of r).output),
        ) in
      rw (none_differ) ((h.0, h.1, ap (λ n. n + count_error r) h.2), refl)

  compare_events_same :
      (e : Engine W) (i : ℕ) (events : List SuiteEvent) (report : Report) (s : Machine W)
      → AllSettled e events
      → IsUnchanged report
      → (rep : Report) × ((compare_events marshal show host e e i events report s).0 ≡ ok rep)
        × IsUnchanged rep
        × (rep.events ≡ report.events)
  unfolding compare_events pure
  compare_events_same e i [] report s settled h = (report, refl, h, refl)
  compare_events_same e i (ev ∷ events) report s ((r, same), settled) h =
      let m = attempt (run host e ev.workflow_ref (clone_map ev.context)) in
      let s1 = (m s).1 in
      let s2 = (m s1).1 in
      let noted = weigh_same i ev r report h in
      let (rep, e1, u, n) =
        compare_events_same e (i + 1) events (weigh marshal show i ev r r report) s2 settled
          noted.0 in
      let first =
        bind_ok m
          (λ b. m >>= λ a.
            compare_events marshal show host e e (i + 1) events
              (weigh marshal show i ev b a report))
          s s1 (answer_at m s (same s)) in
      let second =
        bind_ok m
          (λ a.
            compare_events marshal show host e e (i + 1) events
              (weigh marshal show i ev r a report))
          s1 s2 (answer_at m s1 (same s1)) in
      (rep, ap (λ x. x.0) (first ∙ second) ∙ e1, u, n ∙ noted.1)

  compare_built_same :
      (built : Engine W ⊎ Err) (events : List SuiteEvent) (s : Machine W)
      → BuiltSettled built events
      → (rep : Report) × ((compare_built marshal show host built built events s).0 ≡ ok rep)
        × IsUnchanged rep
        × (rep.events ≡ length events)
  compare_built_same (inl e) events s settled =
      compare_events_same e 0 events (new_report events) s settled (refl, refl, refl)
  compare_built_same (inr failure) events s settled = absurd settled

  -- A manifest loads, and the run of each event gives the same answer in every state. Then the comparison
  -- of the manifest with itself returns a report of all events without a change, in which both sides
  -- failed equally often.
  pub compare-same :
      {Bytes : Type 0} (unmarshal : Bytes → File ⊎ Err) (std : Library W) (text : Bytes)
      (events : List SuiteEvent) (s : Machine W)
      → BuiltSettled (build unmarshal std text) events
      → (rep : Report) × ((compare marshal show host unmarshal std text text events s).0 ≡ ok rep)
        × IsUnchanged rep
        × (rep.events ≡ length events)
  unfolding compare
  compare-same unmarshal std text events s settled =
      compare_built_same (build unmarshal std text) events s settled
