-- ===== src/Tests/Data.antt =====
-- A small deployment: the world is a store in memory and the number of payments that were made.
use cee.Prelude.{ℕ, ◌+◌, String, true, false, none, some, List, [], ◌∷◌}
use cee.Value.{bool}
use cee.Execution.Errors.{plain, suspended}
use cee.Execution.Exec.{ok, err}
use cee.Execution.Types.{Action, LeafStep, Step, Workflow, Prober, Engine, Machine, Host}
use cee.Execution.MemoryStore.{MemoryStore, as_store}
use cee.Execution.Compensate.{Completed}
use cee.Execution.Engine.{Frame}

abbrev pub World : Type 0
World = MemoryStore × ℕ

abbrev pub host : Host World
host = record { show = λ v. "value"; new_pointer = λ w. (ok "pointer", w) }

abbrev pub pay : Action World
pay ctx w = (ok (("paid", bool true) ∷ []), (w.0, w.1 + 1))

abbrev pub fail : Action World
fail ctx w = (err (plain "no funds"), w)

abbrev pub wait : Action World
wait ctx w = (err (suspended "manager" ""), w)

abbrev pub step_of : String → Action World → String → String → String → String → LeafStep World
step_of id action probe policy next undo = record {
  step_id = id;
  run = action;
  sandbox_probe_ref = probe;
  circuit_breaker_policy_ref = policy;
  on_success = next;
  compensate_step_ref = undo;
}

abbrev pub refuse : Prober World
refuse req w = (ok (record { healthy = false; detected_failure_mode = "closed" }), w)

abbrev pub workflow_of : String → List (String × Step World) → Workflow World
workflow_of entry steps = record {
  workflow_id = "w";
  domain_id = "shop";
  entry_step_id = entry;
  steps = steps;
}

abbrev pub engine_of : Workflow World → Engine World
engine_of w = record {
  sandbox = some refuse;
  workflows = ("w", w) ∷ [];
  policies = ("back", record { policy_id = "back"; fallback_step_ref = "flag" }) ∷ [];
  store = some as_store;
  authorizer = none;
  max_steps = 5;
  max_depth = 2;
}

abbrev pub start : Machine World
start = record { world = ([], 0); events = [] }

abbrev pub at : String → List Completed → Frame
at id done = record { step_id = id; ctx = []; done = done; trace = [] }
