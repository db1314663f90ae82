-- ===== src/Httpapi.antt =====
-- httpapi/httpapi.go: the engine behind three routes. `net/http` and `encoding/json` are parameters: a
-- request is a value of the type `Req`, and `Decoders` reads its body. A response is what the handler
-- writes. The mux, which calls the handler of a route, is the function `serve`.
pub mod Refused
pub mod Disclosed
pub mod Pending
use cee.Prelude.{
  ℕ, String, Bool, true, false, Option, none, some, List, [], ◌∷◌, ◌⊎◌, inl, inr, ◌==◌,
  if◌then◌else◌, map,
}
use cee.Value.{Value, Context, ℤ, pos, negsuc}
use cee.Entities.{WorkflowResult}
use cee.Execution.Errors.{Err, plain, as_tripped, as_denied}
use cee.Execution.Texts.{error_text}
use cee.Execution.Exec.{Exec, ok, pure, attempt, ◌>>=◌, ◌>>◌}
use cee.Execution.Types.{Engine, Host, Machine, State, outside}
use cee.Execution.Engine.{run}
use cee.Execution.Resume.{Reply, resume_as, empty_result}
use cee.Execution.MemoryStore.{MemoryStore}
use cee.Execution.MemoryStore

abbrev pub default_max_body_bytes : ℕ
default_max_body_bytes = 1_048_576

pub record Config (W Req : Type 0) : Type 0 where
  pub engine : Option (Engine W)
  pub identify : Option (Req → Exec W String)
  pub allow_anonymous : Bool
  pub pending : Option (Exec W (List State))
  pub max_body_bytes : ℤ
  pub logger : Option (Err → Exec W (Unit {0}))

-- What `New` makes of a configuration that it accepts.
pub record Api (W Req : Type 0) : Type 0 where
  pub engine : Engine W
  pub identify : Option (Req → Exec W String)
  pub pending : Option (Exec W (List State))
  pub max_body_bytes : ℕ
  pub logger : Option (Err → Exec W (Unit {0}))

abbrev positive_or_default : ℤ → ℕ
positive_or_default (pos ℕ.zero) = default_max_body_bytes
positive_or_default (pos (ℕ.suc n)) = ℕ.suc n
positive_or_default (negsuc n) = default_max_body_bytes

module _ {W Req : Type 0} where
  abbrev api_of : Config W Req → Engine W → Api W Req
  api_of cfg engine = record {
    engine = engine;
    identify = cfg.identify;
    pending = cfg.pending;
    max_body_bytes = positive_or_default cfg.max_body_bytes;
    logger = cfg.logger;
  }

  abbrev new_with :
      Config W Req → Option (Engine W) → Option (Req → Exec W String) → Api W Req ⊎ Err
  new_with cfg none identify = inr (plain "httpapi: an Engine is required")
  new_with cfg (some engine) (some f) = inl (api_of cfg engine)
  new_with cfg (some engine) none =
      if cfg.allow_anonymous
      then inl (api_of cfg engine)
      else inr (
          plain
            "httpapi: set Identify, or set AllowAnonymous to serve without authentication on purpose")

  -- `New`
  unfoldable pub new : Config W Req → Api W Req ⊎ Err
  new cfg = new_with cfg cfg.engine cfg.identify

pub record RunRequest : Type 0 where
  pub workflow : String
  pub context : Context

pub record ResumeRequest : Type 0 where
  pub pointer : String
  pub resolution : Context

pub record RunResponse : Type 0 where
  pub status : String
  pub output : Context
  pub trace : List String
  pub state_pointer : String
  pub reason : String

pub record PendingEntry : Type 0 where
  pub workflow : String
  pub step : String
  pub reason : String
  pub audience : String

pub data Body : Type 0 where
  run_body : RunResponse → Body
  pending_body : List PendingEntry → Body
  error_body : String → Body

pub record Response : Type 0 where
  pub status : ℕ
  pub body : Body

pub data Route : Type 0 where
  post_run : Route
  post_resume : Route
  get_pending : Route

-- The decoding of a body of at most so many bytes, without unknown fields.
pub record Decoders (Req : Type 0) : Type 0 where
  pub decode_run : ℕ → Req → RunRequest ⊎ Err
  pub decode_resume : ℕ → Req → ResumeRequest ⊎ Err

abbrev pub write_error : ℕ → String → Response
write_error status message = record { status = status; body = error_body message }

abbrev pub write_json : Body → Response
write_json body = record { status = 200; body = body }

abbrev pub pending_entry : State → PendingEntry
pending_entry s = record {
  workflow = s.workflow_id;
  step = s.step_id;
  reason = s.reason;
  audience = s.audience;
}

abbrev pub ended : WorkflowResult → Response
ended result =
    if result.state_pointer == ""
    then write_json (
        run_body (record {
          status = "completed";
          output = result.output;
          trace = result.trace;
          state_pointer = "";
          reason = "";
        }))
    else write_json (
        run_body (record {
          status = "suspended";
          output = result.output;
          trace = result.trace;
          state_pointer = result.state_pointer;
          reason = "";
        }))

abbrev pub failed : WorkflowResult → String → Response
failed result reason = write_json (
    run_body (record {
      status = "failed";
      output = result.output;
      trace = result.trace;
      state_pointer = "";
      reason = reason;
    }))

module _ {W Req : Type 0} (host : Host W) (decoders : Decoders Req) (api : Api W Req) where
  abbrev pub log_to : Option (Err → Exec W (Unit {0})) → Err → Exec (Machine W) (Unit {0})
  log_to none e = pure tt
  log_to (some logger) e = outside (logger e)

  abbrev pub write_failure : WorkflowResult → Err → Option Err → Exec (Machine W) Response
  write_failure result e (some tripped) = pure (failed result (error_text host.show tripped))
  write_failure result e none =
      log_to api.logger e >> pure (write_error 422 "the workflow could not be run")

  unfoldable pub write_run : Reply → Exec (Machine W) Response
  write_run (result, none) = pure (ended result)
  write_run (result, some e) = write_failure result e (as_tripped e)

  -- what `Engine.Run` returns
  abbrev pub run_reply : WorkflowResult ⊎ Err → Reply
  run_reply (inl result) = (result, none)
  run_reply (inr e) = (empty_result, some e)

  abbrev pub run_decoded : RunRequest ⊎ Err → Exec (Machine W) Response
  run_decoded (inr e) = pure (write_error 400 "malformed request body")
  run_decoded (inl req) =
      if req.workflow == ""
      then pure (write_error 400 "workflow is required")
      else attempt (run host api.engine req.workflow req.context) >>= λ r. write_run (run_reply r)

  -- the denial of a resume, if it is one
  abbrev pub write_resume : Reply → Option Err → Exec (Machine W) Response
  write_resume reply (some denied) = pure (write_error 403 (error_text host.show denied))
  write_resume reply none = write_run reply

  abbrev pub denial : Reply → Option Err
  denial (result, none) = none
  denial (result, some e) = as_denied e

  abbrev pub resume_decoded : String → ResumeRequest ⊎ Err → Exec (Machine W) Response
  resume_decoded identity (inr e) = pure (write_error 400 "malformed request body")
  resume_decoded identity (inl req) =
      if req.pointer == ""
      then pure (write_error 400 "pointer is required")
      else resume_as host api.engine req.pointer identity req.resolution >>= λ reply.
          write_resume reply (denial reply)

  abbrev pub listed : List State ⊎ Err → Response
  listed (inl states) = write_json (pending_body (map pending_entry states))
  listed (inr e) = write_error 500 "could not list pending runs"

  unfoldable pub list_pending : Option (Exec W (List State)) → Exec (Machine W) Response
  list_pending none = pure (write_error 404 "no pending listing is configured")
  list_pending (some lister) = attempt (outside lister) >>= λ r. pure (listed r)

  -- `api.identify`: who the caller is, or the answer to a caller that cannot be identified
  abbrev pub answered : String ⊎ Err → String ⊎ Response
  answered (inl identity) = inl identity
  answered (inr e) = inr (write_error 401 "authentication failed")

  abbrev pub identify_with :
      Option (Req → Exec W String) → Req → Exec (Machine W) (String ⊎ Response)
  identify_with none req = pure (inl "")
  identify_with (some f) req = attempt (outside (f req)) >>= λ r. pure (answered r)

  unfoldable pub identify : Req → Exec (Machine W) (String ⊎ Response)
  identify req = identify_with api.identify req

  abbrev pub run_known : Req → String ⊎ Response → Exec (Machine W) Response
  run_known req (inl identity) = run_decoded (decoders.decode_run api.max_body_bytes req)
  run_known req (inr answer) = pure answer

  abbrev pub resume_known : Req → String ⊎ Response → Exec (Machine W) Response
  resume_known req (inl identity) =
      resume_decoded identity (decoders.decode_resume api.max_body_bytes req)
  resume_known req (inr answer) = pure answer

  abbrev pub pending_known : String ⊎ Response → Exec (Machine W) Response
  pending_known (inl identity) = list_pending api.pending
  pending_known (inr answer) = pure answer

  -- `api.run`
  unfoldable pub handle_run : Req → Exec (Machine W) Response
  unfolding identify write_run
  handle_run req = identify req >>= run_known req

  -- `api.resume`
  unfoldable pub handle_resume : Req → Exec (Machine W) Response
  unfolding identify write_run
  handle_resume req = identify req >>= resume_known req

  -- `api.pending`
  unfoldable pub handle_pending : Req → Exec (Machine W) Response
  unfolding identify list_pending
  handle_pending req = identify req >>= pending_known

  -- the mux that `New` returns
  unfoldable pub serve : Route → Req → Exec (Machine W) Response
  unfolding handle_run handle_resume handle_pending
  serve post_run req = handle_run req
  serve post_resume req = handle_resume req
  serve get_pending req = handle_pending req

-- `MemoryPending.Pending`
unfoldable pub memory_pending : {R : Type 0} → Exec (MemoryStore × R) (List State)
memory_pending s = (ok (MemoryStore.pending s.0), s)
