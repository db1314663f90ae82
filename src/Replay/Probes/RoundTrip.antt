-- ===== src/Replay/Probes/RoundTrip.antt =====
-- A recorded run is played back: the same probes get the same answers.
use cee.Prelude.{
  ℕ, String, ◌≡◌, refl, sym, ap, ◌∙◌, subst, false, Option, none, some, List, [], ◌∷◌, ◌++◌, ◌==◌,
  map,
}
use mathlib.Core.List.{append_assoc, append-nil}
use cee.Value.{Value, Context}
use cee.Entities.{ProbeRequest, WorkflowResult}
use cee.Execution.Errors.{Err, plain}
use cee.Execution.Texts.{error_text}
use cee.Execution.Exec.{
  continue, raise, panic, Exec, Outcome, ok, err, pure, ◌>>=◌, ◌>>◌, continue, raise,
}
use cee.Replay.Records.{
  ProbeVerdict, Recorder, new_recorder, finish, queue, enqueue_all, Player, new_player, advance,
}
use cee.Replay.Probes.{
  Answer, Probing, record_probe, append_verdict, verdict, played, play_queued, play_probe,
}
use cee.Replay.Probes.Ready.{verdicts_for, Ready, Ready-head, Ready-advance, Ready-new_player}

-- A list of probes, one after the other, with what each answered.
unfoldable pub probe_all :
    {S : Type 0}
    → (ProbeRequest → Exec S Answer)
    → List ProbeRequest
    → S
    → List (Outcome Answer) × S
probe_all probe [] s = ([], s)
probe_all probe (req ∷ reqs) s =
    let (r, s1) = probe req s in let (rest, s2) = probe_all probe reqs s1 in (r ∷ rest, s2)

module _ (show : Value → String) where
  -- the recording keeps the text of an error, and takes an empty text for no error
  abbrev pub as_text : Outcome Answer → Outcome Answer
  as_text (ok (r, none)) = ok (r, none)
  as_text (ok (r, some e)) = ok (r, some (plain (error_text show e)))
  as_text (err e) = err e
  as_text (panic v) = panic v

  abbrev pub Recorded : Outcome Answer → Type 0
  Recorded (ok (r, none)) = Unit
  Recorded (ok (r, some e)) = (error_text show e == "") ≡ false
  Recorded (err e) = ⊥
  Recorded (panic v) = ⊥

  abbrev pub AllRecorded : List (Outcome Answer) → Type 0
  AllRecorded [] = Unit
  AllRecorded (o ∷ os) = Recorded o × AllRecorded os

  -- The verdicts played back, as answers to the requests.
  abbrev Replays :
      {W : Type 0}
      → Option (Probing W)
      → List ProbeRequest
      → List (Outcome Answer)
      → List ProbeVerdict
      → Type 0
  Replays {W} fallback reqs os vs =
      (p : Player W)
      → Ready p.by_ref vs
      → ((probe_all (play_probe fallback) reqs p).0 ≡ map as_text os)
        × ((probe_all (play_probe fallback) reqs p).1.unmatched ≡ p.unmatched)
        × ((probe_all (play_probe fallback) reqs p).1.world ≡ p.world)

  -- what a recorder does once the probe has answered
  record_answer :
      {W : Type 0} (req : ProbeRequest) (r : Outcome Answer) (s : Recorder W)
      → let step =
          continue r (λ answer. append_verdict show (verdict show req answer) >> pure answer) s in
        Recorded step.0
        → (v : ProbeVerdict) × (v.probe_ref ≡ req.probe_ref)
          × (ok (played v) ≡ as_text step.0)
          × (step.1.verdicts ≡ s.verdicts ++ v ∷ [])
  unfolding ◌>>=◌ pure raise
  record_answer req (ok (r, none)) s h = (verdict show req (r, none), refl, refl, refl)
  record_answer req (ok (r, some e)) s h = (verdict show req (r, some e), refl, rw (h) refl, refl)
  record_answer req (err e) s h = absurd h
  record_answer req (panic v) s h = absurd h

  record_probe_lem :
      {W : Type 0} (inner : Probing W) (req : ProbeRequest) (s : Recorder W)
      → let step = record_probe show (some inner) req s in
        Recorded step.0
        → (v : ProbeVerdict) × (v.probe_ref ≡ req.probe_ref)
          × (ok (played v) ≡ as_text step.0)
          × (step.1.verdicts ≡ s.verdicts ++ v ∷ [])
  unfolding record_probe ◌>>=◌
  record_probe_lem inner req s h =
      record_answer req (inner req s.world).0 (record s { world = (inner req s.world).1 }) h

  play_probe_lem :
      {W : Type 0} (fallback : Option (Probing W)) (req : ProbeRequest) (v : ProbeVerdict)
      (rest : List ProbeVerdict) (p : Player W)
      → queue req.probe_ref p.by_ref ≡ v ∷ rest
      → play_probe fallback req p
        ≡ (ok (played v), record p { by_ref = advance req.probe_ref rest p.by_ref })
  unfolding play_probe play_queued
  play_probe_lem fallback req v rest p h = rw (h) refl

  Replays-cons :
      {W : Type 0} (fallback : Option (Probing W)) (req : ProbeRequest) (reqs : List ProbeRequest)
      (o : Outcome Answer) (os : List (Outcome Answer)) (v : ProbeVerdict) (vs : List ProbeVerdict)
      → v.probe_ref ≡ req.probe_ref
      → ok (played v) ≡ as_text o
      → Replays fallback reqs os vs
      → Replays fallback (req ∷ reqs) (o ∷ os) (v ∷ vs)
  unfolding probe_all
  Replays-cons fallback req reqs o os v vs same answer ih p ready =
      let rest = verdicts_for v.probe_ref vs in
      let step =
        play_probe_lem fallback req v rest p
          (ap (λ r. queue r p.by_ref) (sym same) ∙ Ready-head p.by_ref v vs ready) in
      let later =
        ih (record p { by_ref = advance req.probe_ref rest p.by_ref })
          (subst (λ r. Ready (advance r rest p.by_ref) vs) same
            (Ready-advance p.by_ref v vs ready)) in
      (rw (step) (cc (answer, later.0)), rw (step) later.1, rw (step) later.2)

  recorded_lem :
      {W : Type 0} (inner : Probing W) (fallback : Option (Probing W)) (reqs : List ProbeRequest)
      (s : Recorder W)
      → let run = probe_all (record_probe show (some inner)) reqs s in
        AllRecorded run.0
        → (vs : List ProbeVerdict) × (run.1.verdicts ≡ s.verdicts ++ vs)
          × Replays fallback reqs run.0 vs
  unfolding probe_all
  recorded_lem inner fallback [] s h =
      ([], sym (append-nil s.verdicts), λ p ready. (refl, refl, refl))
  recorded_lem inner fallback (req ∷ reqs) s h =
      let here = record_probe show (some inner) req s in
      let (v, same, answer, kept) = record_probe_lem inner req s h.0 in
      let (vs, more, rest) = recorded_lem inner fallback reqs here.1 h.1 in
      (
        v ∷ vs,
        more ∙ ap (λ x. x ++ vs) kept ∙ append_assoc s.verdicts (v ∷ []) vs,
        Replays-cons fallback req reqs here.0 _ v vs same answer rest,
      )

  -- A list of probes is recorded, in which every probe returns and no error has an empty text. A player
  -- that holds the recording gives the same probes the same answers, each with its result and, by its
  -- text, the error beside it, calls no fallback and has no unmatched probe.
  pub record_probe-play_probe :
      {W : Type 0} (inner : Probing W) (fallback : Option (Probing W)) (reqs : List ProbeRequest)
      (w w' : W) (recorded_at : ℕ) (workflow_id : String) (input : Context)
      (result : WorkflowResult) (run_err : Option Err)
      → let run = probe_all (record_probe show (some inner)) reqs (new_recorder w) in
        let again =
          probe_all
            (play_probe fallback)
            reqs
            (new_player w' (finish show recorded_at workflow_id input result run_err run.1)) in
        AllRecorded run.0
        → (again.0 ≡ map as_text run.0) × (again.1.unmatched ≡ []) × (again.1.world ≡ w')
  unfolding finish probe_all
  record_probe-play_probe inner fallback reqs w w' recorded_at workflow_id input result run_err h =
      let run = probe_all (record_probe show (some inner)) reqs (new_recorder w) in
      let (vs, all, rest) = recorded_lem inner fallback reqs (new_recorder w) h in
      rest (new_player w' (finish show recorded_at workflow_id input result run_err run.1))
        (subst (λ x. Ready (enqueue_all run.1.verdicts []) x) all (Ready-new_player run.1.verdicts))
