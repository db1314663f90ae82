-- ===== src/Tests/Boards.antt =====
-- A suite that is run, and a board of three results.
use mathlib.Core.List.{Perm}
use cee.Prelude.{◌⊎◌, ℕ, ◌≡◌, refl, String, List, [], ◌∷◌}
use cee.Value.{Value}
use cee.Execution.Exec.{ok, panic}
use cee.Execution.Types.{Machine}
use cee.Registry.{Domain}
use cee.Scorecard.{determinism_ratio, cognitive_ops}
use cee.Bench.{
  Suite, Result, engine_for, run_suite, leaderboard, insert_ranked, ranks_above, text_less,
}
use cee.Bench.Ranked.{IsBoard, leaderboard_lem}
use cee.Bench.Tallied.{Runs, PanicsIn, Counts, run_suite-Counts}
use cee.Tests.Data.{World, host}
use cee.Tests.Waiting.{approval}

abbrev shop : Domain World
shop = record { name = "shop"; intents = []; workflows = approval ∷ []; policies = [] }

abbrev suite : Suite
suite = record {
  plugin_name = "shop";
  events =
      record { workflow_ref = "w"; context = [] }
      ∷ record { workflow_ref = "unknown"; context = [] }
      ∷ [];
}

run_suite-Counts_example :
    ((result : Result) × (n : ℕ) × (m : Machine World) × (run_suite host shop suite ([], 0)
        ≡ (ok result, m.world))
      × Runs host (engine_for shop) suite.events (record { world = ([], 0); events = [] }) n m
      × Counts host suite m n result)
    ⊎ ((v : Value) × (m : Machine World) × (run_suite host shop suite ([], 0) ≡ (panic v, m.world))
        × PanicsIn host (engine_for shop) suite.events v m)
run_suite-Counts_example = run_suite-Counts host shop suite ([], 0)

abbrev result_of : String → ℕ → ℕ → Result
result_of name steps calls = record {
  plugin_name = name;
  events = 1;
  errors = 0;
  scorecard = record {
    deterministic_steps = steps;
    llm_calls = calls;
    sandbox_probes = 0;
    circuit_breaker_trips = 0;
  };
}

abbrev three : List Result
three = result_of "b" 2 2 ∷ result_of "c" 3 0 ∷ result_of "a" 1 1 ∷ []

leaderboard_lem_example : Perm three (leaderboard three) × IsBoard (leaderboard three)
leaderboard_lem_example = leaderboard_lem three

three_ranked : leaderboard three ≡ result_of "c" 3 0 ∷ result_of "b" 2 2 ∷ result_of "a" 1 1 ∷ []
unfolding leaderboard insert_ranked ranks_above text_less determinism_ratio cognitive_ops
three_ranked = refl
