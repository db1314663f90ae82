-- ===== src/Execution/Resume/Authorized.antt =====
-- Who may resume: a run that declares an audience goes on only with the authorizer's consent.
use cee.Prelude.{
  ◌∙◌, ap, String, ◌≡◌, refl, Bool, true, false, Option, none, some, ◌⊎◌, inl, inr, ◌==◌, eq_iff,
  Bool-cases,
}
use cee.Execution.Errors.{Err}
use cee.Execution.Exec.{ok, err, raise, pure, attempt}
use cee.Execution.Exec.Laws.{caught-ok, >>=-eq-ok, bind_ok, bind_err, attempt_err}
use cee.Execution.Types.{LeafStep, State, Store, Engine, Machine, Host, outside, Authorizer}
use cee.Execution.Resume.{
  attempt_of, judged, authorize, authorize_with, claim, claim_leaf, resume_as, resume_from,
  suspended_leaf, empty_result,
}
use cee.Value.{Context}

module _ {W : Type 0} (host : Host W) (e : Engine W) where
  -- the state declares no audience, or the authorizer, asked in the world `w`, agreed
  abbrev pub Consented : State → String → W → Option (Authorizer W) → Type 0
  Consented state identity w none = state.audience ≡ ""
  Consented state identity w (some authorizer) =
      (state.audience ≡ "")
      ⊎ ((reason : String) × ((authorizer (attempt_of host e state identity) w).0
            ≡ ok (true, reason)))

  judged-true :
      (state : State) (identity : String) (a : (Bool × String) ⊎ Err) (m : Machine W) {u : Unit {0}}
      → (judged host e state identity a m).0 ≡ ok u
      → (reason : String) × (a ≡ inl (true, reason))
  unfolding raise
  judged-true state identity (inl (true, reason)) m h = (reason, refl)
  judged-true state identity (inl (false, reason)) m h = absurd (cc h)
  judged-true state identity (inr f) m h = absurd (cc h)

  authorize_with-Consented :
      (state : State) (identity : String) (m : Machine W) (o : Option (Authorizer W)) {u : Unit {0}}
      → (authorize_with host e state identity o m).0 ≡ ok u
      → Consented state identity m.world o
  unfolding authorize_with raise
  authorize_with-Consented state identity m none h = absurd (cc h)
  authorize_with-Consented state identity m (some authorizer) h =
      let (a, p, q) =
        >>=-eq-ok (attempt (outside (authorizer (attempt_of host e state identity)))) _ m h in
      let (reason, r) = judged-true state identity a _ q in
      inr (reason, unfold attempt outside in caught-ok _ (rw r at p))

  authorize-Consented :
      (state : State) (identity : String) (m : Machine W) {u : Unit {0}}
      → (authorize host e state identity m).0 ≡ ok u
      → Consented state identity m.world e.authorizer
  unfolding authorize
  authorize-Consented state identity m h = elim (Bool-cases (state.audience == "")) [
    | inl b ↦ nobody (state.audience) ((eq_iff state.audience "").0 b) e.authorizer
    | inr b ↦ authorize_with-Consented state identity m e.authorizer (rw b at h)
  ]
    where
      nobody :
          (a : String)
          → state.audience ≡ ""
          → (o : Option (Authorizer W)) → Consented state identity m.world o
      nobody a p none = p
      nobody a p (some authorizer) = inl p

  -- A saved run is claimed only after it was loaded, and only if it declares no audience or the
  -- authorizer, asked about that saved run and the caller's identity, agreed. With no authorizer
  -- configured nobody may claim a run that declares an audience.
  pub claim-Consented :
      (store : Store W) (pointer identity : String) (m : Machine W) {claimed : State × LeafStep W}
      → (claim host e store pointer identity m).0 ≡ ok claimed
      → (state : State) × ((store.load pointer m.world).0 ≡ ok state)
        × Consented state identity (store.load pointer m.world).1 e.authorizer
  unfolding claim claim_leaf
  claim-Consented store pointer identity m h =
      let (state, p, q) = >>=-eq-ok (outside (store.load pointer)) _ m h in
      let (s, p', q') = >>=-eq-ok (λ m'. (suspended_leaf host e state, m')) _ _ q in
      let (u, p'', q'') = >>=-eq-ok (authorize host e state identity) _ _ q' in
      (state, unfold outside in p, unfold outside in authorize-Consented state identity _ p'')

  -- A resume that the authorization refuses answers with that error and goes no further: the world is
  -- as the authorizer left it, so that the saved run is still there to be claimed.
  pub resume_as-refused :
      (store : Store W) (pointer identity : String) (resolution : Context) (state : State)
      (s : LeafStep W) (m m₁ m₂ : Machine W) (failure : Err)
      → e.store ≡ some store
      → outside (store.load pointer) m ≡ (ok state, m₁)
      → suspended_leaf host e state ≡ ok s
      → authorize host e state identity m₁ ≡ (err failure, m₂)
      → resume_as host e pointer identity resolution m ≡ (ok (empty_result, some failure), m₂)
  unfolding resume_as resume_from claim claim_leaf pure
  resume_as-refused store pointer identity resolution state s m m₁ m₂ failure configured loaded
        found refused =
      ap (λ o. resume_from host e pointer identity resolution o m) configured
      ∙ bind_ok (attempt (claim host e store pointer identity)) _ m m₂ (
          attempt_err (claim host e store pointer identity) m m₂ (
            bind_ok (outside (store.load pointer)) _ m m₁ loaded
            ∙ bind_ok (λ m'. (suspended_leaf host e state, m')) _ m₁ m₁ (ap (λ r. (r, m₁)) found)
            ∙ bind_err (authorize host e state identity) _ m₁ m₂ refused))
