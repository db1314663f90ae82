-- ===== src/Httpapi/Disclosed.antt =====
-- What a client gets to read of an error.
use cee.Prelude.{
  ℕ, String, ◌≡◌, refl, ap, sym, subst, ◌∙◌, Option, none, some, List, ◌⊎◌, inl, inr, ◌==◌,
  Bool-cases,
}
use cee.Value.{Value}
use cee.Entities.{WorkflowResult}
use cee.Execution.Errors.{
  Err, as_denied, as_tripped, not_authorized, circuit_breaker_tripped, tripped_of, denied_of,
  CompensationFailure, cause,
}
use cee.Execution.Texts.{error_text}
use cee.Execution.Exec.{Exec, ok, attempt, pure, ◌>>=◌}
use cee.Execution.Exec.Laws.{
  Ensures, Ensures-bind_of, ok-injective, Ensures-pure, Ensures-bind, Ensures-if,
}
use cee.Execution.Types.{Host, Machine, State, outside}
use cee.Execution.Engine.{run}
use cee.Execution.Resume.{Reply, resume_as}
use cee.Httpapi.{
  Api, Decoders, Route, post_run, post_resume, get_pending, RunRequest, ResumeRequest, Response,
  Body, run_body, pending_body, error_body, ended, log_to, write_failure, write_run, run_reply,
  run_decoded, write_resume, denial, resume_decoded, listed, list_pending, answered, identify_with,
  identify, run_known, resume_known, pending_known, handle_run, handle_resume, handle_pending,
  serve,
}

-- The errors whose texts are the same whatever went wrong.
pub data Fixed : ℕ → String → Type 0 where
  unauthenticated : Fixed 401 "authentication failed"
  malformed : Fixed 400 "malformed request body"
  no_workflow : Fixed 400 "workflow is required"
  no_pointer : Fixed 400 "pointer is required"
  no_listing : Fixed 404 "no pending listing is configured"
  listing_failed : Fixed 500 "could not list pending runs"
  not_run : Fixed 422 "the workflow could not be run"

module _ (show : Value → String) where
  -- a text that a tripped circuit breaker gives
  abbrev pub OfTripped : String → Type 0
  OfTripped text =
      (step_id : String) × (reason : String) × (compensated : List String) × (failures : List
        CompensationFailure)
      × (text ≡ error_text show (circuit_breaker_tripped step_id reason compensated failures))

  -- a text that a denied caller gets
  abbrev pub OfDenied : String → Type 0
  OfDenied text =
      (audience : String) × (identity : String) × (workflow_id : String) × (reason : String) × (text
        ≡ error_text show (not_authorized audience identity workflow_id reason))

  -- what a status and a body tell of an error
  abbrev pub Discloses : ℕ → Body → Type 0
  Discloses status (run_body r) = (status ≡ 200) × ((r.reason ≡ "") ⊎ OfTripped r.reason)
  Discloses status (pending_body entries) = status ≡ 200
  Discloses status (error_body message) = Fixed status message ⊎ ((status ≡ 403) × OfDenied message)

  abbrev pub Disclosed : {S : Type 0} → Response → S → Type 0
  Disclosed response s = Discloses response.status response.body

  tripped_of-OfTripped :
      (c tripped : Err) → tripped_of c ≡ some tripped → OfTripped (error_text show tripped)
  tripped_of-OfTripped (circuit_breaker_tripped id reason compensated failures) tripped h =
      let same : circuit_breaker_tripped id reason compensated failures ≡ tripped = cc h in
      (id, reason, compensated, failures, ap (error_text show) (sym same))
  tripped_of-OfTripped c tripped h = absurd (cc h)

  denied_of-OfDenied :
      (c denied : Err) → denied_of c ≡ some denied → OfDenied (error_text show denied)
  denied_of-OfDenied (not_authorized audience identity workflow_id reason) denied h =
      let same : not_authorized audience identity workflow_id reason ≡ denied = cc h in
      (audience, identity, workflow_id, reason, ap (error_text show) (sym same))
  denied_of-OfDenied c denied h = absurd (cc h)

module _ {W Req : Type 0} (host : Host W) (decoders : Decoders Req) (api : Api W Req) where
  abbrev Tells : Response → Machine W → Type 0
  Tells = Disclosed host.show

  ended-Discloses :
      (result : WorkflowResult) → Discloses host.show (ended result).status (ended result).body
  ended-Discloses result = elim (Bool-cases (result.state_pointer == "")) [
    | inl b ↦ rw (b) (refl, inl refl)
    | inr b ↦ rw (b) (refl, inl refl)
  ]

  write_failure-Discloses :
      (result : WorkflowResult) (e : Err) (o : Option Err)
      → as_tripped e ≡ o
      → Ensures Tells (write_failure host decoders api result e o)
  unfolding as_tripped
  write_failure-Discloses result e (some tripped) h =
      Ensures-pure Tells _ (λ m. (refl, inr (tripped_of-OfTripped host.show (cause e) tripped h)))
  write_failure-Discloses result e none h =
      Ensures-bind Tells (log_to host decoders api api.logger e) _
        (λ u. Ensures-pure Tells _ (λ m. inl not_run))

  write_run-Discloses : (reply : Reply) → Ensures Tells (write_run host decoders api reply)
  unfolding write_run
  write_run-Discloses (result, none) = Ensures-pure Tells _ (λ m. ended-Discloses result)
  write_run-Discloses (result, some e) = write_failure-Discloses result e (as_tripped e) refl

  run_decoded-Discloses :
      (asked : RunRequest ⊎ Err) → Ensures Tells (run_decoded host decoders api asked)
  run_decoded-Discloses (inr e) = Ensures-pure Tells _ (λ m. inl malformed)
  run_decoded-Discloses (inl asked) =
      Ensures-if Tells (asked.workflow == "") _ _ (Ensures-pure Tells _ (λ m. inl no_workflow)) (
        Ensures-bind Tells (attempt (run host api.engine asked.workflow asked.context)) _
          (λ r. write_run-Discloses (run_reply host decoders api r)))

  write_resume-Discloses :
      (reply : Reply) (o : Option Err)
      → denial host decoders api reply ≡ o
      → Ensures Tells (write_resume host decoders api reply o)
  unfolding as_denied
  write_resume-Discloses (result, none) (some denied) h = absurd (cc h)
  write_resume-Discloses (result, some e) (some denied) h =
      Ensures-pure Tells _ (λ m. inr (refl, denied_of-OfDenied host.show (cause e) denied h))
  write_resume-Discloses reply none h = write_run-Discloses reply

  resume_decoded-Discloses :
      (identity : String) (asked : ResumeRequest ⊎ Err)
      → Ensures Tells (resume_decoded host decoders api identity asked)
  resume_decoded-Discloses identity (inr e) = Ensures-pure Tells _ (λ m. inl malformed)
  resume_decoded-Discloses identity (inl asked) =
      Ensures-if Tells (asked.pointer == "") _ _ (Ensures-pure Tells _ (λ m. inl no_pointer)) (
        Ensures-bind Tells (resume_as host api.engine asked.pointer identity asked.resolution) _
          (λ reply. write_resume-Discloses reply (denial host decoders api reply) refl))

  list_pending-Discloses :
      (lister : Option (Exec W (List State)))
      → Ensures Tells (list_pending host decoders api lister)
  unfolding list_pending
  list_pending-Discloses none = Ensures-pure Tells _ (λ m. inl no_listing)
  list_pending-Discloses (some lister) =
      Ensures-bind Tells (attempt (outside lister)) _
        (λ r. Ensures-pure Tells (listed host decoders api r) (λ m. listing r))
    where
      listing : (r : List State ⊎ Err) → Disclosed host.show (listed host decoders api r) tt
      listing (inl states) = refl
      listing (inr e) = inl listing_failed

  -- a caller is known, or there is an answer to tell
  abbrev Identified : String ⊎ Response → Machine W → Type 0
  Identified (inl identity) m = Unit
  Identified (inr answer) m = Tells answer m

  answered-Identified :
      (r : String ⊎ Err) (m : Machine W) → Identified (answered host decoders api r) m
  answered-Identified (inl identity) m = tt
  answered-Identified (inr e) m = inl unauthenticated

  identify-Identified : (req : Req) → Ensures Identified (identify host decoders api req)
  unfolding identify
  identify-Identified req = by api.identify
    where
      by :
          (o : Option (Req → Exec W String))
          → Ensures Identified (identify_with host decoders api o req)
      by none = Ensures-pure Identified _ (λ m. tt)
      by (some f) =
          Ensures-bind Identified (attempt (outside (f req))) _
            (λ r. Ensures-pure Identified _ (answered-Identified r))

  -- what follows an identification tells what may be told
  after-Discloses :
      (req : Req) (known : String ⊎ Response → Exec (Machine W) Response)
      → ((identity : String) → Ensures Tells (known (inl identity)))
      → ((answer : Response) → known (inr answer) ≡ pure answer)
      → Ensures Tells (identify host decoders api req >>= known)
  unfolding pure
  after-Discloses req known served turned =
      Ensures-bind_of Identified Tells (identify host decoders api req) known
        (identify-Identified req) (λ r m h. continues r m h)
    where
      continues :
          (r : String ⊎ Response) (m : Machine W)
          → Identified r m
          → (b : Response) → (known r m).0 ≡ ok b
          → Tells b (known r m).1
      continues (inl identity) m h b e = served identity m b e
      continues (inr answer) m h b e =
          let same : answer ≡ b =
            ok-injective
              (sym (ap (λ (c : Exec (Machine W) Response). (c m).0) (turned answer)) ∙ e) in
          subst (λ x. Tells x (known (inr answer) m).1) same h

  route-Discloses : (route : Route) (req : Req) → Ensures Tells (serve host decoders api route req)
  unfolding serve handle_run handle_resume handle_pending
  route-Discloses post_run req =
      after-Discloses req (run_known host decoders api req)
        (λ identity. run_decoded-Discloses (decoders.decode_run api.max_body_bytes req))
        (λ answer. refl)
  route-Discloses post_resume req =
      after-Discloses req (resume_known host decoders api req)
        (λ identity.
          resume_decoded-Discloses identity (decoders.decode_resume api.max_body_bytes req))
        (λ answer. refl)
  route-Discloses get_pending req =
      after-Discloses req (pending_known host decoders api)
        (λ identity. list_pending-Discloses api.pending) (λ answer. refl)

  -- Whatever is asked, and whatever goes wrong, the answer tells of an error one of seven texts that do
  -- not depend on it, each with its status, or, with the status 200, the text of a circuit breaker that
  -- tripped or, with 403, that of a denied caller.
  pub serve-Discloses :
      (route : Route) (req : Req) (m : Machine W) (response : Response)
      → (serve host decoders api route req m).0 ≡ ok response
      → Discloses host.show response.status response.body
  serve-Discloses route req m response h = route-Discloses route req m response h
