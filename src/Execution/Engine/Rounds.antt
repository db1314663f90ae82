-- ===== src/Execution/Engine/Rounds.antt =====
-- Runs as sequences of rounds, and how long they get where `on_success` leads downwards.
use cee.Prelude.{
  [], ◌∷◌, ◌++◌, String, ◌≡◌, refl, ap, sym, ◌∙◌, false, some, ◌==◌, ◌⊎◌, inl, inr, ℕ, suc, ◌+◌,
  ◌*◌, ◌<◌, ◌≤◌, arith, if◌then◌else◌,
}
use cee.Maps.{lookup}
use cee.Value.{Context}
use cee.Entities.{WorkflowResult}
use cee.Execution.Exec.{Exec, Outcome, ok}
use cee.Execution.Exec.Laws.{bind_ok}
use cee.Execution.Types.{Step, Workflow, Engine, Machine, Host, circuit_breaker_policy_ref}
use cee.Execution.Failure.{fallback_of}
use cee.Execution.Engine.{step_id, Frame, Move, goto, turn, at_step, loop, follow}
use cee.Execution.Engine.Stays.{on_success, Keeps-take_step}

-- Numbers up to `most` that fall along `on_success`; the end is at 0.
pub record IsRanked {W : Type 0} (workflow : Workflow W) (level : String → ℕ) (most : ℕ)
    : Type 0 where
  pub bound : (id : String) → level id ≤ most
  pub falls :
      (id : String) (step : Step W)
      → lookup id workflow.steps ≡ some step
      → (if on_success step == "" then 0 else level (on_success step)) < level id

module _ {W : Type 0} (host : Host W) (e : Engine W) (workflow : Workflow W)
    (sub : String → Context → Exec (Machine W) WorkflowResult) (depth : ℕ) (ref : String) where
  -- One round that goes on from `fr` at `fr'`: the step that it takes, and what it does to the machine.
  pub record Round (fr fr' : Frame) (m m' : Machine W) : Type 0 where
    pub not_the_end : (fr.step_id == "") ≡ false
    pub step : Step W
    pub found : lookup fr.step_id workflow.steps ≡ some step
    pub turned : turn host e ref workflow sub depth fr m ≡ (ok (goto fr'), m')

  -- A run of a number of rounds, of which so many were diverted to a fallback step.
  pub data Rounds (start : Frame) (m₀ : Machine W) : ℕ → ℕ → Frame → Machine W → Type 0 where
    here : Rounds start m₀ 0 0 start m₀
    forward :
        {n f : ℕ} {fr fr' : Frame} {m m' : Machine W}
        → Rounds start m₀ n f fr m
        → (r : Round fr fr' m m') → fr'.step_id ≡ on_success r.step
        → Rounds start m₀ (suc n) f fr' m'
    divert :
        {n f : ℕ} {fr fr' : Frame} {m m' : Machine W}
        → Rounds start m₀ n f fr m
        → (r : Round fr fr' m m')
        → fallback_of e (circuit_breaker_policy_ref r.step) ≡ some fr'.step_id
        → Rounds start m₀ (suc n) (suc f) fr' m'

  -- every round that goes on is one of the two
  pub turn-forward_or_divert :
      (fr fr' : Frame) (m m' : Machine W) (r : Round fr fr' m m')
      → (fr'.step_id ≡ on_success r.step)
        ⊎ (fallback_of e (circuit_breaker_policy_ref r.step) ≡ some fr'.step_id)
  unfolding turn at_step
  turn-forward_or_divert fr fr' m m' r =
      Keeps-take_step host e workflow Next sub depth r.step
        (record fr { trace = fr.trace ++ step_id r.step ∷ [] }) (inl refl, (λ fallback q. inr q)) m
        (goto fr')
        (ap (λ o. (at_step host e ref workflow sub depth fr o m).0) (sym r.found)
          ∙ ap (λ (x : Outcome Move × Machine W). x.0) r.turned)
    where
      Next : String → Type 0
      Next id =
          (id ≡ on_success r.step) ⊎ (fallback_of e (circuit_breaker_policy_ref r.step) ≡ some id)

  loop-Round :
      (k : ℕ) {fr fr' : Frame} {m m' : Machine W}
      → Round fr fr' m m'
      → loop host e ref workflow sub depth (suc k) fr m
        ≡ loop host e ref workflow sub depth k fr' m'
  unfolding loop
  loop-Round k {fr} {fr'} {m} {m'} r = rw r.not_the_end (
      bind_ok (turn host e ref workflow sub depth fr)
        (follow host e ref workflow sub depth (loop host e ref workflow sub depth k)) m m' r.turned)

  -- The loop, where a run of so many rounds has got, has as many rounds less.
  pub loop-Rounds :
      {start : Frame} {m₀ : Machine W} {n f : ℕ} {fr : Frame} {m : Machine W}
      → Rounds start m₀ n f fr m
      → (k : ℕ)
      → loop host e ref workflow sub depth (n + k) start m₀
        ≡ loop host e ref workflow sub depth k fr m
  loop-Rounds {start = start} {m₀ = m₀} here k =
      ap (λ n. loop host e ref workflow sub depth n start m₀) (omega arith)
  loop-Rounds {start = start} {m₀ = m₀} {n = suc n} (forward rs r p) k =
      ap (λ n. loop host e ref workflow sub depth n start m₀) (omega arith)
      ∙ (loop-Rounds rs (suc k) ∙ loop-Round k r)
  loop-Rounds {start = start} {m₀ = m₀} {n = suc n} (divert rs r p) k =
      ap (λ n. loop host e ref workflow sub depth n start m₀) (omega arith)
      ∙ (loop-Rounds rs (suc k) ∙ loop-Round k r)

  level_or_end : (String → ℕ) → String → ℕ
  level_or_end level id = if id == "" then 0 else level id

  module _ (level : String → ℕ) (most : ℕ) (ranked : IsRanked workflow level most) where
    level_or_end_bound : (id : String) → level_or_end level id ≤ most
    unfolding level_or_end
    level_or_end_bound id = ground (arith, ranked.bound id)

    -- what a round that goes on leaves
    level_step :
        {start : Frame} {m₀ : Machine W} {n f : ℕ} {fr : Frame} {m : Machine W}
        → Rounds start m₀ n f fr m
        → n + level_or_end level fr.step_id ≤ most * suc f
    unfolding level_or_end
    level_step {start = start} here = ground (arith, level_or_end_bound start.step_id)
    level_step (forward {fr = fr} rs r p) =
        let less = ranked.falls fr.step_id r.step r.found in
        let before = level_step rs in rw p (omega (arith, less, rw r.not_the_end at before))
    level_step {f = suc f} (divert {fr = fr} {fr' = fr'} rs r p) =
        let less = ranked.falls fr.step_id r.step r.found in
        let before = level_step rs in
        omega (arith, less, rw r.not_the_end at before, level_or_end_bound fr'.step_id)

    -- Every run through the workflow makes at most `most` rounds for each diversion to a fallback step,
    -- and `most` besides.
    pub Rounds-at_most :
        {start : Frame} {m₀ : Machine W} {n f : ℕ} {fr : Frame} {m : Machine W}
        → Rounds start m₀ n f fr m
        → n ≤ most * suc f
    Rounds-at_most rs = omega (arith, level_step rs)
