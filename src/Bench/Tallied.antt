-- ===== src/Bench/Tallied.antt =====
-- What a run of a suite counts.
use cee.Prelude.{
  ℕ, suc, ◌+◌, ◌≡◌, refl, ap, ◌∙◌, subst, Bool, true, false, List, [], ◌∷◌, ◌⊎◌, inl, inr, length,
  arith, if◌then◌else◌,
}
use cee.Value.{Value}
use cee.Entities.{WorkflowResult}
use cee.Execution.Errors.{Err}
use cee.Execution.Exec.{Outcome, ok, err, panic, attempt, pure}
use cee.Execution.Exec.Laws.{bind_ok, bind_panic, attempt_ok, attempt_err, attempt_panic}
use cee.Execution.Types.{
  Engine, Host, Machine, Event, observe_step, observe_sandbox_probe, observe_circuit_breaker,
  observe_probe_outcome, observe_suspension,
}
use cee.Execution.Engine.{run}
use cee.Registry.{Domain}
use cee.Scorecard.{snapshot}
use cee.Bench.{SuiteEvent, Suite, Result, count_error, engine_for, tallied, run_events, run_suite}

-- how many events are of a kind
abbrev pub tally : (Event → Bool) → List Event → ℕ
tally kind [] = 0
tally kind (event ∷ events) = let rest = tally kind events in if kind event then suc rest else rest

abbrev pub is_step : Event → Bool
is_step (observe_step w s) = true
is_step event = false

abbrev pub is_probe : Event → Bool
is_probe (observe_sandbox_probe w s) = true
is_probe event = false

abbrev pub is_breaker : Event → Bool
is_breaker (observe_circuit_breaker w s) = true
is_breaker event = false

-- the counters of a scorecard are those of the events
snapshot-tally :
    (events : List Event)
    → ((snapshot events).deterministic_steps ≡ tally is_step events)
      × ((snapshot events).llm_calls ≡ 0)
      × ((snapshot events).sandbox_probes ≡ tally is_probe events)
      × ((snapshot events).circuit_breaker_trips ≡ tally is_breaker events)
unfolding snapshot cee.Scorecard.record_event
snapshot-tally [] = (refl, refl, refl, refl)
snapshot-tally (observe_step w s ∷ events) =
    let (a, b, c, d) = snapshot-tally events in (omega arith, b, c, d)
snapshot-tally (observe_sandbox_probe w s ∷ events) =
    let (a, b, c, d) = snapshot-tally events in (a, b, omega arith, d)
snapshot-tally (observe_circuit_breaker w s ∷ events) =
    let (a, b, c, d) = snapshot-tally events in (a, b, c, omega arith)
snapshot-tally (observe_probe_outcome w s healthy ∷ events) = snapshot-tally events
snapshot-tally (observe_suspension w s ∷ events) = snapshot-tally events

module _ {W : Type 0} (host : Host W) where
  module _ (engine : Engine W) where
    -- Inputs that are run one after another, how many of the runs failed, and the machine that is left.
    pub data Runs : List SuiteEvent → Machine W → ℕ → Machine W → Type 0 where
      all_run : {m : Machine W} → Runs [] m 0 m
      one_returned :
          {ev : SuiteEvent} {events : List SuiteEvent} {m m₁ m₂ : Machine W} {n : ℕ}
          {result : WorkflowResult}
          → run host engine ev.workflow_ref ev.context m ≡ (ok result, m₁)
          → Runs events m₁ n m₂
          → Runs (ev ∷ events) m n m₂
      one_failed :
          {ev : SuiteEvent} {events : List SuiteEvent} {m m₁ m₂ : Machine W} {n : ℕ} {failure : Err}
          → run host engine ev.workflow_ref ev.context m ≡ (err failure, m₁)
          → Runs events m₁ n m₂
          → Runs (ev ∷ events) m (suc n) m₂

    -- A run of one of the inputs that panics, and the machine that it leaves.
    pub data PanicsIn : List SuiteEvent → Value → Machine W → Type 0 where
      panics_first :
          {ev : SuiteEvent} {events : List SuiteEvent} {v : Value} (m : Machine W) {m' : Machine W}
          → run host engine ev.workflow_ref ev.context m ≡ (panic v, m')
          → PanicsIn (ev ∷ events) v m'
      panics_later :
          {ev : SuiteEvent} {events : List SuiteEvent} {v : Value} {m' : Machine W}
          → PanicsIn events v m'
          → PanicsIn (ev ∷ events) v m'

    -- the loop, from a count
    abbrev Goes : List SuiteEvent → ℕ → Machine W → Type 0
    Goes events errors m =
        ((n : ℕ) × (m' : Machine W) × (run_events host engine events errors m
            ≡ (ok (errors + n), m'))
          × Runs events m n m')
        ⊎ ((v : Value) × (m' : Machine W) × (run_events host engine events errors m ≡ (panic v, m'))
            × PanicsIn events v m')

    -- the rest of the loop, after a run that did not panic
    after_one :
        (ev : SuiteEvent) (events : List SuiteEvent) (errors : ℕ) (m m₁ : Machine W)
        (r : WorkflowResult ⊎ Err)
        → attempt (run host engine ev.workflow_ref ev.context) m ≡ (ok r, m₁)
        → ((n : ℕ) (m₂ : Machine W)
            → Runs events m₁ n m₂
            → Runs (ev ∷ events) m (count_error r + n) m₂)
        → Goes events (errors + count_error r) m₁
        → Goes (ev ∷ events) errors m
    unfolding run_events
    after_one ev events errors m m₁ r ended step (inl (n, m₂, runs, h)) = inl (
      count_error r + n,
      m₂,
      bind_ok (attempt (run host engine ev.workflow_ref ev.context)) _ m m₁ ended
          ∙ runs
          ∙ ap (λ k. (ok k, m₂)) (omega arith),
      step n m₂ h,
    )
    after_one ev events errors m m₁ r ended step (inr (v, m₂, runs, h)) = inr (
      v,
      m₂,
      bind_ok (attempt (run host engine ev.workflow_ref ev.context)) _ m m₁ ended ∙ runs,
      panics_later h,
    )

    one_by_one :
        (ev : SuiteEvent) (events : List SuiteEvent) (errors : ℕ) (m m₁ : Machine W)
        (r : Outcome WorkflowResult)
        → run host engine ev.workflow_ref ev.context m ≡ (r, m₁)
        → ((k : ℕ) (m' : Machine W) → Goes events k m')
        → Goes (ev ∷ events) errors m
    unfolding run_events
    one_by_one ev events errors m m₁ (ok result) ran rest =
        after_one ev events errors m m₁ (inl result)
          (attempt_ok (run host engine ev.workflow_ref ev.context) m m₁ ran)
          (λ n m₂ h. subst (λ k. Runs (ev ∷ events) m k m₂) (omega arith) (one_returned ran h))
          (rest _ _)
    one_by_one ev events errors m m₁ (err failure) ran rest =
        after_one ev events errors m m₁ (inr failure)
          (attempt_err (run host engine ev.workflow_ref ev.context) m m₁ ran)
          (λ n m₂ h. subst (λ k. Runs (ev ∷ events) m k m₂) (omega arith) (one_failed ran h))
          (rest _ _)
    one_by_one ev events errors m m₁ (panic v) ran rest = inr (
      v,
      m₁,
      bind_panic (attempt (run host engine ev.workflow_ref ev.context)) _ m m₁
          (attempt_panic (run host engine ev.workflow_ref ev.context) m m₁ ran),
      panics_first m ran,
    )

    run_events-Goes : (events : List SuiteEvent) (errors : ℕ) (m : Machine W) → Goes events errors m
    unfolding run_events pure
    run_events-Goes [] errors m = inl (0, m, ap (λ k. (ok k, m)) (omega arith), all_run)
    run_events-Goes (ev ∷ events) errors m =
        one_by_one ev events errors m (run host engine ev.workflow_ref ev.context m).1
          (run host engine ev.workflow_ref ev.context m).0 refl
          (λ k m'. run_events-Goes events k m')

  -- What a result says of the runs that led to a machine.
  pub record Counts (suite : Suite) (m : Machine W) (n : ℕ) (result : Result) : Type 0 where
    pub named : result.plugin_name ≡ suite.plugin_name
    pub all : result.events ≡ length suite.events
    pub failed : result.errors ≡ n
    pub stepped : result.scorecard.deterministic_steps ≡ tally is_step m.events
    pub no_calls : result.scorecard.llm_calls ≡ 0
    pub probed : result.scorecard.sandbox_probes ≡ tally is_probe m.events
    pub tripped : result.scorecard.circuit_breaker_trips ≡ tally is_breaker m.events

  -- Unless the run of an input panics, with which it ends, a run of a suite runs its inputs one after another, on an engine with the
  -- domain alone that has told nobody anything yet, and returns a result that counts as errors the runs
  -- that failed and whose scorecard counts the steps, the probes and the breakers that were told of in
  -- all of them.
  pub run_suite-Counts :
      (domain : Domain W) (suite : Suite) (w : W)
      → ((result : Result) × (n : ℕ) × (m : Machine W) × (run_suite host domain suite w
            ≡ (ok result, m.world))
          × Runs (engine_for domain) suite.events (record { world = w; events = [] }) n m
          × Counts suite m n result)
        ⊎ ((v : Value) × (m : Machine W) × (run_suite host domain suite w ≡ (panic v, m.world))
            × PanicsIn (engine_for domain) suite.events v m)
  unfolding run_suite
  run_suite-Counts domain suite w =
      elim (run_events-Goes (engine_for domain) suite.events 0
        (record { world = w; events = [] })) [
          | inr (v, m, runs, h) ↦ inr (v, m, ap (tallied suite) runs, h)
          | inl (n, m, runs, h) ↦
              let (a, b, c, d) = snapshot-tally m.events in
              let counts : Counts suite m n (record {
                plugin_name = suite.plugin_name;
                events = length suite.events;
                errors = 0 + n;
                scorecard = snapshot m.events;
              }) =
                record {
                  named = refl;
                  all = refl;
                  failed = omega arith;
                  stepped = a;
                  no_calls = b;
                  probed = c;
                  tripped = d;
                } in
              inl (_, n, m, ap (tallied suite) runs, h, counts)
        ]
