-- ===== src/Replay/Probes.antt =====
-- `Recorder.Probe` and `Player.Probe` of replay/replay.go.
pub mod Ready
pub mod RoundTrip
use cee.Prelude.{
  String, Bool, true, false, Option, none, some, List, [], ◌∷◌, ◌++◌, ◌⊎◌, inl, inr, ◌==◌,
  if◌then◌else◌, concat, quote,
}
use cee.Value.{Value}
use cee.Entities.{ProbeRequest, ProbeResult}
use cee.Execution.Errors.{Err, plain}
use cee.Execution.Texts.{error_text}
use cee.Execution.Exec.{Exec, Outcome, ok, err, pure, ◌>>=◌, ◌>>◌}
use cee.Replay.Records.{ProbeVerdict, Recorder, Player, queue, advance}

-- What a probe returns: a result, and an error beside it if there is one. A probe that does not return
-- panics, so that the error outcome of `Exec` is not used.
abbrev pub Answer : Type 0
Answer = ProbeResult × Option Err

abbrev pub Probing : Type 0 → Type 0
Probing W = ProbeRequest → Exec W Answer

module _ (show : Value → String) where
  abbrev pub failure_text : Option Err → String
  failure_text none = ""
  failure_text (some e) = error_text show e

  abbrev pub verdict : ProbeRequest → Answer → ProbeVerdict
  verdict req (result, failure) = record {
    probe_ref = req.probe_ref;
    domain_id = req.domain_id;
    healthy = result.healthy;
    detected_failure_mode = result.detected_failure_mode;
    failure = failure_text failure;
  }

  abbrev pub inner_call : {W A : Type 0} → Exec W A → Exec (Recorder W) A
  inner_call m s = let (r, w) = m s.world in (r, record s { world = w })

  abbrev pub append_verdict : {W : Type 0} → ProbeVerdict → Exec (Recorder W) (Unit {0})
  append_verdict v s = (ok tt, record s { verdicts = s.verdicts ++ v ∷ [] })

  abbrev pub no_probe_result : ProbeResult
  no_probe_result = record { healthy = false; detected_failure_mode = "" }

  -- `Recorder.Probe`
  unfoldable pub record_probe :
      {W : Type 0} → Option (Probing W) → ProbeRequest → Exec (Recorder W) Answer
  record_probe none req = pure (
    no_probe_result,
    some (
        plain (
          concat
            ("replay: no sandbox configured, but " ∷ quote req.probe_ref ∷ " was probed" ∷ []))),
  )
  record_probe (some inner) req =
      inner_call (inner req) >>= λ answer. append_verdict (verdict req answer) >> pure answer

abbrev pub played : ProbeVerdict → Answer
played v = (
  record { healthy = v.healthy; detected_failure_mode = v.detected_failure_mode },
  if v.failure == "" then none else some (plain v.failure),
)

unfoldable pub play_queued :
    {W : Type 0} → Option (Probing W) → ProbeRequest → List ProbeVerdict → Exec (Player W) Answer
play_queued fallback req (v ∷ rest) s =
    (ok (played v), record s { by_ref = advance req.probe_ref rest s.by_ref })
play_queued none req [] s = (
  ok (
    record {
      healthy = false;
      detected_failure_mode =
          concat ("replay: the recording holds no verdict for probe " ∷ quote req.probe_ref ∷ []);
    },
    none,
  ),
  record s { unmatched = s.unmatched ++ req.probe_ref ∷ [] },
)
play_queued (some fallback) req [] s =
    let (r, w) = fallback req s.world in
    (r, record s { world = w; unmatched = s.unmatched ++ req.probe_ref ∷ [] })

-- `Player.Probe`
unfoldable pub play_probe :
    {W : Type 0} → Option (Probing W) → ProbeRequest → Exec (Player W) Answer
unfolding play_queued queue
play_probe fallback req s = play_queued fallback req (queue req.probe_ref s.by_ref) s
