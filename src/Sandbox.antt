-- ===== src/Sandbox.antt =====
-- sandbox/sandbox.go: the registered probes, and the `Probe` method that the engine calls. A probe is
-- a function over the world `W`; a probe that fails counts as one that refuses.
pub mod Closed
use cee.Prelude.{
  Option, String, Bool, true, false, none, some, [], ◌∷◌, ◌⊎◌, inl, inr, ◌==◌, if◌then◌else◌,
  concat, quote,
}
use cee.Maps.{Map, lookup, insert}
use cee.Value.{Value, Context}
use cee.Entities.{ProbeRequest, ProbeResult}
use cee.Execution.Errors.{Err}
use cee.Execution.Texts.{error_text}
use cee.Execution.Exec.{Exec, pure, attempt, ◌>>=◌}
use cee.Execution.Types.{Prober}

abbrev pub Probe : Type 0 → Type 0
Probe W = Context → Exec W (Bool × String)

abbrev pub Sandbox : Type 0 → Type 0
Sandbox W = Map (Probe W)

unfoldable pub register_probe : {W : Type 0} → String → Probe W → Sandbox W → Sandbox W
register_probe probe_ref probe s = insert probe_ref probe s

abbrev pub unhealthy : String → ProbeResult
unhealthy mode = record { healthy = false; detected_failure_mode = mode }

-- the verdict that a probe's answer stands for
unfoldable pub verdict_of : (Value → String) → (Bool × String) ⊎ Err → ProbeResult
verdict_of show (inl (true, mode)) = record { healthy = true; detected_failure_mode = mode }
verdict_of show (inl (false, mode)) =
    unhealthy (if mode == "" then "probe reported unhealthy" else mode)
verdict_of show (inr failure) = unhealthy (error_text show failure)

-- what the probe that was looked up answers
unfoldable pub answered :
    {W : Type 0} → (Value → String) → ProbeRequest → Option (Probe W) → Exec W ProbeResult
unfolding verdict_of
answered show req none =
    pure (unhealthy (concat ("no probe registered for " ∷ quote req.probe_ref ∷ [])))
answered show req (some probe) = attempt (probe req.step_context) >>= λ r. pure (verdict_of show r)

-- `Sandbox.Probe`
unfoldable pub prober : {W : Type 0} → (Value → String) → Sandbox W → Prober W
unfolding answered
prober show s req = answered show req (lookup req.probe_ref s)
