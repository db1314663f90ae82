-- ===== src/Tests/Serving.antt =====
-- Requests to the handlers of the HTTP interface.
use cee.Prelude.{String, ◌≡◌, refl, none, some, [], inl, if◌then◌else◌, ◌==◌}
use cee.Maps.{lookup}
use cee.Execution.Errors.{as_denied, plain}
use cee.Execution.Texts.{error_text}
use cee.Execution.Exec.{pure, Exec, ok, err, raise, attempt, ◌>>=◌}
use cee.Execution.Types.{outside}
use cee.Execution.MemoryStore.{as_store, load}
use cee.Execution.Resume.{resume_as, claim, suspended_leaf, authorize, refused}
use cee.Httpapi.{
  error_body, handle_resume, identify, Api, post_resume, get_pending, Decoders, write_error, serve,
  memory_pending,
}
use cee.Httpapi.Refused.{serve-unidentified, serve-denied}
use cee.Httpapi.Disclosed.{serve-Discloses, Discloses}
use cee.Httpapi.Pending.{serve-relabelled, relabelled}
use cee.Tests.Data.{World, host, step_of, wait}
use cee.Tests.Waiting.{guarded, for_finance, waiting_with}

-- a request is the name of its caller
abbrev decoders : Decoders String
decoders = record {
  decode_run = λ limit req. inl (record { workflow = "w"; context = [] });
  decode_resume = λ limit req. inl (record { pointer = "p"; resolution = [] });
}

abbrev who : String → Exec World String
who caller w = if caller == "" then (err (plain "no credentials"), w) else (ok caller, w)

abbrev api : Api World String
api = record {
  engine = guarded;
  identify = some who;
  pending = some memory_pending;
  max_body_bytes = 100;
  logger = none;
}

serve-unidentified_example :
    serve host decoders api post_resume "" (waiting_with for_finance)
    ≡ (ok (write_error 401 "authentication failed"), waiting_with for_finance)
serve-unidentified_example =
    serve-unidentified host decoders api post_resume "" (waiting_with for_finance) who
      (waiting_with for_finance).world (plain "no credentials") refl refl

serve-denied_example : serve host decoders api post_resume "bob" (waiting_with for_finance) ≡ (
  ok (
      write_error 403
        (error_text host.show (refused host guarded for_finance "bob" "not on the list"))),
  waiting_with for_finance,
)
unfolding suspended_leaf authorize outside ◌>>=◌ as_store load lookup attempt raise
serve-denied_example =
    serve-denied host decoders api "bob" (waiting_with for_finance) (waiting_with for_finance)
      (waiting_with for_finance) (waiting_with for_finance) who "bob"
      (record { pointer = "p"; resolution = [] }) as_store for_finance
      (step_of "approve" wait "" "" "ship" "")
      (refused host guarded for_finance "bob" "not on the list") refl refl refl refl refl refl refl
      refl

abbrev denied_text : String
denied_text = error_text host.show (refused host guarded for_finance "bob" "not on the list")

serve-Discloses_example : Discloses host.show 403 (error_body denied_text)
unfolding serve handle_resume identify resume_as claim as_denied pure suspended_leaf authorize
    outside ◌>>=◌ as_store load lookup attempt raise
serve-Discloses_example =
    serve-Discloses host decoders api post_resume "bob" (waiting_with for_finance)
      (write_error 403 denied_text) refl

serve-relabelled_example :
    serve host decoders
      (record api { pending = some (relabelled (λ s. "hidden") memory_pending) })
      get_pending
      "ann"
      (waiting_with for_finance)
    ≡ serve host decoders
        (record api { pending = some memory_pending })
        get_pending
        "ann"
        (waiting_with for_finance)
serve-relabelled_example =
    serve-relabelled host decoders api (λ s. "hidden") memory_pending "ann"
      (waiting_with for_finance)
