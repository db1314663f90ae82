-- ===== src/Httpapi/Refused.antt =====
-- Callers that are turned away, before the engine is asked or by its authorizer.
use cee.Prelude.{
  subst, String, ◌≡◌, refl, ap, ◌∙◌, Bool, true, false, Option, none, some, ◌⊎◌, inl, inr, ◌==◌,
  if◌then◌else◌, Bool-cases,
}
use cee.Execution.Errors.{Err, as_denied}
use cee.Execution.Texts.{error_text}
use cee.Execution.Exec.{
  Exec, Outcome, ok, err, panic, pure, raise, attempt, caught, ◌>>=◌, continue,
}
use cee.Execution.Exec.Laws.{bind_ok, attempt_err, attempt_ok}
use cee.Execution.Types.{Engine, Host, Machine, State, Store, LeafStep, Authorizer, outside}
use cee.Execution.Resume.{
  suspended_leaf, authorize, authorize_with, judged, attempt_of, refused, resume_as, empty_result,
}
use cee.Execution.Resume.Authorized.{resume_as-refused}
use cee.Httpapi.{
  Api, Decoders, Route, post_resume, ResumeRequest, write_error, write_resume, denial,
  resume_decoded, answered, identify_with, identify, run_known, resume_known, pending_known,
  handle_run, handle_resume, handle_pending, post_run, get_pending, serve,
}

module _ {W Req : Type 0} (host : Host W) (decoders : Decoders Req) (api : Api W Req) where
  identify_lem :
      (req : Req) (m m' : Machine W) (f : Req → Exec W String) (r : String ⊎ Err)
      → api.identify ≡ some f
      → attempt (outside (f req)) m ≡ (ok r, m')
      → identify host decoders api req m ≡ (ok (answered host decoders api r), m')
  unfolding identify pure
  identify_lem req m m' f r configured asked =
      ap (λ o. identify_with host decoders api o req m) configured
      ∙ bind_ok (attempt (outside (f req))) _ m m' asked

  -- Where a caller is to be identified and cannot be, each of the three handlers answers 401, and the
  -- world is as the identification left it: neither the engine nor the listing is asked, and nothing is
  -- logged.
  pub serve-unidentified :
      (route : Route) (req : Req) (m : Machine W) (f : Req → Exec W String) (w : W) (e : Err)
      → api.identify ≡ some f
      → f req m.world ≡ (err e, w)
      → serve host decoders api route req m
        ≡ (ok (write_error 401 "authentication failed"), record m { world = w })
  unfolding serve handle_run handle_resume handle_pending outside pure
  serve-unidentified route req m f w e configured fails = by route
    where
      turned :
          identify host decoders api req m
          ≡ (ok (inr (write_error 401 "authentication failed")), record m { world = w })
      turned =
          identify_lem req m (record m { world = w }) f (inr e) configured
            (attempt_err (outside (f req)) m (record m { world = w })
              (ap (λ (x : Outcome String × W). (x.0, record m { world = x.1 })) fails))

      by :
          (route : Route)
          → serve host decoders api route req m
            ≡ (ok (write_error 401 "authentication failed"), record m { world = w })
      by post_run =
          bind_ok (identify host decoders api req) (run_known host decoders api req) m _ turned
      by post_resume =
          bind_ok (identify host decoders api req) (resume_known host decoders api req) m _ turned
      by get_pending =
          bind_ok (identify host decoders api req) (pending_known host decoders api) m _ turned

module _ {W : Type 0} (host : Host W) (e : Engine W) where
  -- the outcome is no error but a denial
  abbrev DeniedOnly : {A : Type 0} → Outcome A → Type 0
  DeniedOnly (ok a) = Unit
  DeniedOnly (err failure) = as_denied failure ≡ some failure
  DeniedOnly (panic v) = Unit

  judged-DeniedOnly :
      (state : State) (identity : String) (answer : (Bool × String) ⊎ Err) (m : Machine W)
      → DeniedOnly (judged host e state identity answer m).0
  unfolding pure raise as_denied
  judged-DeniedOnly state identity (inl (true, reason)) m = tt
  judged-DeniedOnly state identity (inl (false, reason)) m = refl
  judged-DeniedOnly state identity (inr failed) m = refl

  asked-DeniedOnly :
      (state : State) (identity : String) (r : Outcome (Bool × String)) (m : Machine W)
      → DeniedOnly (continue (caught r) (judged host e state identity) m).0
  asked-DeniedOnly state identity (ok answer) m = judged-DeniedOnly state identity (inl answer) m
  asked-DeniedOnly state identity (err failed) m = judged-DeniedOnly state identity (inr failed) m
  asked-DeniedOnly state identity (panic v) m = tt

  authorize_with-DeniedOnly :
      (state : State) (identity : String) (o : Option (Authorizer W)) (m : Machine W)
      → DeniedOnly (authorize_with host e state identity o m).0
  unfolding authorize_with ◌>>=◌ attempt raise as_denied
  authorize_with-DeniedOnly state identity none m = refl
  authorize_with-DeniedOnly state identity (some authorizer) m =
      asked-DeniedOnly state identity (outside (authorizer (attempt_of host e state identity)) m).0
        (outside (authorizer (attempt_of host e state identity)) m).1

  authorize-DeniedOnly :
      (state : State) (identity : String) (m : Machine W)
      → DeniedOnly (authorize host e state identity m).0
  unfolding authorize pure
  authorize-DeniedOnly state identity m = elim (Bool-cases (state.audience == "")) [
    | inl b ↦ rw (b) tt
    | inr b ↦ rw (b) (authorize_with-DeniedOnly state identity e.authorizer m)
  ]

module _ {W Req : Type 0} (host : Host W) (decoders : Decoders Req) (api : Api W Req) where
  -- A caller is identified and asks to resume a saved run, and the authorization of the engine refuses
  -- the caller under that identity. Then the answer is 403 with the text of the denial, and the world is
  -- as the authorizer left it.
  pub serve-denied :
      (req : Req) (m m₀ m₁ m₂ : Machine W) (f : Req → Exec W String) (identity : String)
      (asked : ResumeRequest) (store : Store W) (state : State) (s : LeafStep W) (failure : Err)
      → api.identify ≡ some f
      → outside (f req) m ≡ (ok identity, m₀)
      → decoders.decode_resume api.max_body_bytes req ≡ inl asked
      → (asked.pointer == "") ≡ false
      → api.engine.store ≡ some store
      → outside (store.load asked.pointer) m₀ ≡ (ok state, m₁)
      → suspended_leaf host api.engine state ≡ ok s
      → authorize host api.engine state identity m₁ ≡ (err failure, m₂)
      → serve host decoders api post_resume req m
        ≡ (ok (write_error 403 (error_text host.show failure)), m₂)
  unfolding serve handle_resume pure
  serve-denied req m m₀ m₁ m₂ f identity asked store state s failure configured known decoded named
        stored loaded found refused =
      bind_ok (identify host decoders api req) (resume_known host decoders api req) m m₀ (
        identify_lem host decoders api req m m₀ f (inl identity) configured
          (attempt_ok (outside (f req)) m m₀ known))
      ∙ ap (λ d. resume_decoded host decoders api identity d m₀) decoded
      ∙ ap
          (λ (b : Bool).
            (if b
                then pure (write_error 400 "pointer is required")
                else resume_as host api.engine asked.pointer identity asked.resolution >>= λ reply.
                    write_resume host decoders api reply (denial host decoders api reply))
              m₀)
          named
      ∙ bind_ok (resume_as host api.engine asked.pointer identity asked.resolution)
          (λ reply. write_resume host decoders api reply (denial host decoders api reply)) m₀ m₂
          (resume_as-refused host api.engine store asked.pointer identity asked.resolution state s
            m₀ m₁ m₂ failure stored loaded found refused)
      ∙ ap (λ o. write_resume host decoders api (empty_result, some failure) o m₂) denied
    where
      denied : as_denied failure ≡ some failure
      denied =
          subst (λ (x : Outcome (Unit {0}) × Machine W). DeniedOnly host api.engine x.0) refused
            (authorize-DeniedOnly host api.engine state identity m₁)
