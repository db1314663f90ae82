-- ===== src/Sandbox/Closed.antt =====
-- The sandbox fails closed.
use cee.Prelude.{◌∙◌, ap, String, ◌≡◌, refl, Bool, true, false, some, none, ◌⊎◌, inl, inr, Option}
use mathlib.Core.Bool.{false≢true}
use cee.Maps.{lookup}
use cee.Value.{Value}
use cee.Entities.{ProbeRequest, ProbeResult}
use cee.Execution.Errors.{Err}
use cee.Execution.Exec.{ok, attempt, pure}
use cee.Execution.Exec.Laws.{caught-ok, ok-injective, NoErr, >>=-eq-ok, attempt-NoErr, bind-NoErr}
use cee.Sandbox.{Sandbox, Probe, prober, verdict_of, answered}

-- the answer that a healthy verdict stands for
healthy_answer :
    (show : Value → String) (r : (Bool × String) ⊎ Err)
    → (verdict_of show r).healthy ≡ true
    → (mode : String) × (r ≡ inl (true, mode))
unfolding verdict_of
healthy_answer show (inl (true, mode)) h = (mode, refl)
healthy_answer show (inl (false, mode)) h = absurd (cc h)
healthy_answer show (inr failure) h = absurd (cc h)

module _ {W : Type 0} (show : Value → String) (req : ProbeRequest) where
  -- the probe that was looked up is there and answered that all is well
  abbrev pub Agreed : Option (Probe W) → W → Type 0
  Agreed none w = ⊥
  Agreed (some probe) w = (mode : String) × ((probe req.step_context w).0 ≡ ok (true, mode))

  answered-Agreed :
      (o : Option (Probe W)) (w : W) {r : ProbeResult}
      → (answered show req o w).0 ≡ ok r
      → r.healthy ≡ true
      → Agreed o w
  unfolding answered pure
  answered-Agreed none w p h =
      absurd (false≢true (ap (λ (x : ProbeResult). x.healthy) (ok-injective p) ∙ h))
  answered-Agreed (some probe) w p h =
      let (a, q, t) = >>=-eq-ok (attempt (probe req.step_context)) _ w p in
      let well : (verdict_of show a).healthy ≡ true =
        ap (λ (x : ProbeResult). x.healthy) (ok-injective t) ∙ h in
      let (mode, e) = healthy_answer show a well in
      (mode, unfold attempt in caught-ok _ (rw e at q))

  answered-NoErr : (o : Option (Probe W)) (w : W) → NoErr (answered show req o w).0
  unfolding answered pure
  answered-NoErr none w = tt
  answered-NoErr (some probe) w =
      bind-NoErr (attempt (probe req.step_context)) _ w (attempt-NoErr _ w) (λ a w'. tt)

  -- The sandbox never returns an error: a probe that fails is a verdict.
  pub prober-NoErr : (s : Sandbox W) (w : W) → NoErr (prober show s req w).0
  unfolding prober
  prober-NoErr s w = answered-NoErr (lookup req.probe_ref s) w

  -- The sandbox calls a step healthy only if the probe that the step names is registered and, asked
  -- about the context of the step, answered that it is.
  pub prober-Agreed :
      (s : Sandbox W) (w : W) (r : ProbeResult)
      → (prober show s req w).0 ≡ ok r
      → r.healthy ≡ true
      → Agreed (lookup req.probe_ref s) w
  unfolding prober
  prober-Agreed s w r p h = answered-Agreed (lookup req.probe_ref s) w p h
