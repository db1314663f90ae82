-- ===== src/Policydiff.antt =====
-- policydiff/policydiff.go: a list of past inputs is run through two versions of a manifest, and the
-- decisions that come out differently are reported. The engines are those of Execution.Engine, loaded by
-- Manifest.Load; both run over one world. They have no observer, so that nothing reads the events.
pub mod Classes
pub mod Unchanged
use cee.Prelude.{
  ℕ, ◌+◌, String, Bool, true, false, Option, none, some, List, [], ◌∷◌, ◌++◌, ◌⊎◌, inl, inr, ◌==◌,
  if◌then◌else◌, has_prefix, length, eqb,
}
use cee.Maps.{Map, insert_all}
use cee.Value.{Value, Context}
use cee.Bench.{SuiteEvent, count_error}
use cee.Entities.{WorkflowResult}
use cee.Execution.Errors.{Err, wrap}
use cee.Execution.Exec.{Exec, pure, raise, attempt, ◌>>=◌}
use cee.Execution.Types.{Engine, Host, Machine, new_engine}
use cee.Execution.Engine.{run}
use cee.Manifest.Specs.{File}
use cee.Manifest.Load.{load}
use cee.Registry.{Domain, register_domain, new_registry}
use cee.Replay.Records.{Recording, is_error, text_of, has_pointer, clone_map}
use cee.Replay.Compare.{Difference}
use cee.Replay.Compare
use cee.Stdlib.Actions.{Library}

pub data Classification : Type 0 where
  same : Classification
  explanation_changed : Classification
  outcome_changed : Classification

pub record Change : Type 0 where
  pub index : ℕ
  pub workflow_ref : String
  pub context : Context
  pub class : Classification
  pub differences : List Difference

pub record Report : Type 0 where
  pub events : ℕ
  pub outcomes : List Change
  pub explanations : List Change
  pub before_errors : ℕ
  pub after_errors : ℕ

unfoldable pub flipped : Report → ℕ
flipped r = length r.outcomes

unfoldable pub clean : Report → Bool
clean r = if eqb (length r.outcomes) 0 then eqb (length r.explanations) 0 else false

-- the fields that `classify` passes over
unfoldable pub is_bookkeeping : String → Bool
is_bookkeeping field = if field == "trace" then true else has_prefix field "output.cee."

unfoldable pub classify : List Difference → Classification
classify [] = explanation_changed
classify (d ∷ diffs) =
    let rest = classify diffs in if is_bookkeeping d.field then rest else outcome_changed

-- the result and the error of a run; a run that fails gives an empty result
abbrev pub result_of : WorkflowResult ⊎ Err → WorkflowResult
result_of (inl result) = result
result_of (inr e) = record { output = []; state_pointer = ""; trace = [] }

abbrev pub error_of : WorkflowResult ⊎ Err → Option Err
error_of (inl result) = none
error_of (inr e) = some e

-- the change goes to the list of its class
abbrev pub file_change : Classification → Change → Report → Report
file_change outcome_changed change report = record report {
  outcomes = report.outcomes ++ change ∷ [];
}
file_change _ change report = record report { explanations = report.explanations ++ change ∷ [] }

abbrev pub note_change : ℕ → SuiteEvent → List Difference → Report → Report
note_change i ev [] report = report
note_change i ev (d ∷ diffs) report =
    file_change (classify (d ∷ diffs))
      (record {
        index = i;
        workflow_ref = ev.workflow_ref;
        context = ev.context;
        class = classify (d ∷ diffs);
        differences = d ∷ diffs;
      })
      report

abbrev pub engine_with : {W : Type 0} → Domain W ⊎ Err → Engine W ⊎ Err
engine_with (inl domain) = inl ((register_domain domain (new_registry [] (new_engine none))).engine)
engine_with (inr e) = inr e

unfoldable pub build :
    {W Bytes : Type 0} → (Bytes → File ⊎ Err) → Library W → Bytes → Engine W ⊎ Err
build unmarshal std text = engine_with (load [] std unmarshal text)

abbrev pub new_report : List SuiteEvent → Report
new_report events = record {
  events = length events;
  outcomes = [];
  explanations = [];
  before_errors = 0;
  after_errors = 0;
}

module _ (marshal : Value → Option String) (show : Value → String) where
  abbrev pub recording_of : SuiteEvent → WorkflowResult ⊎ Err → Recording
  recording_of ev before = record {
    workflow_id = ev.workflow_ref;
    input = ev.context;
    probes = [];
    extractions = [];
    trace = (result_of before).trace;
    output = (result_of before).output;
    is_suspended = has_pointer (result_of before);
    has_failed = is_error (error_of before);
    failure = text_of show (error_of before);
    recorded_at = 0;
  }

  -- one round of the loop, once both runs have ended
  unfoldable pub weigh :
      ℕ → SuiteEvent → WorkflowResult ⊎ Err → WorkflowResult ⊎ Err → Report → Report
  weigh i ev before after report =
      note_change i ev
        (Compare.compare marshal show (recording_of ev before) (result_of after) (error_of after))
        (record report {
          before_errors = report.before_errors + count_error before;
          after_errors = report.after_errors + count_error after;
        })

  module _ {W : Type 0} (host : Host W) where
    unfoldable pub compare_events :
        Engine W → Engine W → ℕ → List SuiteEvent → Report → Exec (Machine W) Report
    unfolding weigh
    compare_events before after i [] report = pure report
    compare_events before after i (ev ∷ events) report =
        attempt (run host before ev.workflow_ref (clone_map ev.context)) >>= λ b.
        attempt (run host after ev.workflow_ref (clone_map ev.context)) >>= λ a.
        compare_events before after (i + 1) events (weigh i ev b a report)

    abbrev pub compare_built :
        Engine W ⊎ Err → Engine W ⊎ Err → List SuiteEvent → Exec (Machine W) Report
    compare_built (inr e) after events = raise (wrap "before: " e)
    compare_built (inl before) (inr e) events = raise (wrap "after: " e)
    compare_built (inl before) (inl after) events =
        compare_events before after 0 events (new_report events)

    -- `Compare`
    unfoldable pub compare :
        {Bytes : Type 0}
        → (Bytes → File ⊎ Err)
        → Library W
        → Bytes
        → Bytes
        → List SuiteEvent
        → Exec (Machine W) Report
    unfolding build compare_events
    compare unmarshal std before after events =
        compare_built (build unmarshal std before) (build unmarshal std after) events
