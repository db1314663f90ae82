-- ===== src/Bench.antt =====
-- bench/bench.go: a domain is run on a list of inputs, and plugins are ranked by their scorecards. The
-- printed table is not modelled.
pub mod Ranked
pub mod Tallied
use Prim.Native.Char.{Char, code}
use Prim.Native.String.{[] as empty, ◌∷◌ as ◌then_char◌}
use cee.Prelude.{
  ℕ, ◌+◌, ◌*◌, String, Bool, true, false, Option, none, List, [], ◌∷◌, ◌⊎◌, inl, inr, if◌then◌else◌,
  length, eqb, ltb, concat, quote,
}
use cee.Value.{Context}
use cee.Entities.{WorkflowResult}
use cee.Execution.Errors.{Err, wrap, plain}
use cee.Execution.Exec.{Exec, Outcome, ok, err, panic, pure, attempt, ◌>>=◌}
use cee.Execution.Types.{Engine, Host, Machine, new_engine}
use cee.Execution.Engine.{run}
use cee.Registry.{Domain, register_domain, new_registry}
use cee.Scorecard.{Scorecard, snapshot, determinism_ratio, cognitive_ops}

pub record SuiteEvent : Type 0 where
  pub workflow_ref : String
  pub context : Context

pub record Suite : Type 0 where
  pub plugin_name : String
  pub events : List SuiteEvent

abbrev pub with_events : Suite → List SuiteEvent → Suite ⊎ Err
with_events s [] =
    inr (plain (concat ("bench: suite " ∷ quote s.plugin_name ∷ " has no events" ∷ [])))
with_events s (ev ∷ events) = inl s

abbrev pub parsed : Suite ⊎ Err → Suite ⊎ Err
parsed (inl s) = with_events s s.events
parsed (inr e) = inr (wrap "bench: invalid suite JSON: " e)

unfoldable pub parse_suite : {Bytes : Type 0} → (Bytes → Suite ⊎ Err) → Bytes → Suite ⊎ Err
parse_suite unmarshal text = parsed (unmarshal text)

pub record Result : Type 0 where
  pub plugin_name : String
  pub events : ℕ
  pub errors : ℕ
  pub scorecard : Scorecard

abbrev pub count_error : WorkflowResult ⊎ Err → ℕ
count_error (inl result) = 0
count_error (inr e) = 1

module _ {W : Type 0} where
  abbrev pub engine_for : Domain W → Engine W
  engine_for domain = (register_domain domain (new_registry [] (new_engine none))).engine

  -- what is returned, once all events have been run before a fresh recorder
  abbrev pub tallied : Suite → Outcome ℕ × Machine W → Outcome Result × W
  tallied suite (ok errors, m) = (
    ok (record {
      plugin_name = suite.plugin_name;
      events = length suite.events;
      errors = errors;
      scorecard = snapshot m.events;
    }),
    m.world,
  )
  tallied suite (err e, m) = (err e, m.world)
  tallied suite (panic v, m) = (panic v, m.world)

  module _ (host : Host W) where
    unfoldable pub run_events : Engine W → List SuiteEvent → ℕ → Exec (Machine W) ℕ
    run_events engine [] errors = pure errors
    run_events engine (ev ∷ events) errors =
        attempt (run host engine ev.workflow_ref ev.context) >>= λ r.
        run_events engine events (errors + count_error r)

    -- `Run`
    unfoldable pub run_suite : Domain W → Suite → Exec W Result
    unfolding run_events
    run_suite domain suite w =
        tallied suite
          (run_events (engine_for domain) suite.events 0 (record { world = w; events = [] }))

-- s < t, by code points, which is the order of the bytes
unfoldable pub text_less : String → String → Bool
text_less s empty = false
text_less empty (d then_char t) = true
text_less (c then_char s) (d then_char t) =
    let rest = text_less s t in
    if ltb (code c) (code d) then true else if eqb (code c) (code d) then rest else false

-- Ratios are compared exactly. Those of counts below 2 ^ 26 differ as floats if they differ.
abbrev pub is_same_ratio : ℕ × ℕ → ℕ × ℕ → Bool
is_same_ratio p q = eqb (p.0 * q.1) (q.0 * p.1)

abbrev pub is_above : ℕ × ℕ → ℕ × ℕ → Bool
is_above p q = ltb (q.0 * p.1) (p.0 * q.1)

abbrev pub ops : Result → ℕ
ops r = cognitive_ops r.scorecard

abbrev pub ratio : Result → ℕ × ℕ
ratio r = determinism_ratio r.scorecard

-- the order of `Leaderboard`
unfoldable pub ranks_above : Result → Result → Bool
unfolding text_less
ranks_above r s =
    if is_same_ratio (ratio r) (ratio s)
    then if eqb (ops r) (ops s) then text_less r.plugin_name s.plugin_name else ltb (ops s) (ops r)
    else is_above (ratio r) (ratio s)

-- a stable sort, by insertion
unfoldable pub insert_ranked : Result → List Result → List Result
unfolding ranks_above
insert_ranked r [] = r ∷ []
insert_ranked r (s ∷ ranked) =
    let later = insert_ranked r ranked in if ranks_above s r then s ∷ later else r ∷ s ∷ ranked

unfoldable pub leaderboard : List Result → List Result
unfolding insert_ranked
leaderboard [] = []
leaderboard (r ∷ results) = insert_ranked r (leaderboard results)
