-- ===== src/Tests/Recordings.antt =====
-- Extractions, recordings and comparisons of small runs.
use cee.Prelude.{
  String, ◌≡◌, refl, true, false, Option, none, some, List, [], ◌∷◌, has, sort_strings, map, Bool,
}
use cee.Maps.{lookup, insert}
use cee.Value.{Value, Context, bool, str, strings}
use cee.Entities.{
  ExtractionRequest, ExtractionResult, ProbeRequest, WorkflowResult, model_derived_key,
}
use cee.Execution.Errors.{plain}
use cee.Execution.Exec.{ok, ◌>>=◌}
use cee.Stdlib.Actions.{verify}
use cee.Execution.Texts.{error_text}
use cee.Llminjector.{matches_type, Injector, Watched, field_string, extract, context_from}
use cee.Llminjector.Marked.{extract-verify}
use cee.Replay.Records.{Recording, Recorder, new_recorder, new_player, finish}
use cee.Replay.Probes.{Probing, record_probe, play_probe}
use cee.Replay.Probes.RoundTrip.{probe_all, as_text, record_probe-play_probe}
use cee.Replay.Compare
use cee.Replay.Compare.Agrees.{Agrees, compare_lem}
use cee.Tests.Joins.{show}

abbrev payee_result : ExtractionResult
payee_result = record {
  success = true;
  structured_payload = ("payee", str "ann") ∷ [];
  model_derived = "payee" ∷ [];
  validation_errors = [];
}

abbrev base : Context
base = (model_derived_key, strings ("amount" ∷ [])) ∷ []

abbrev injector : Injector (Unit {0})
injector =
    ("payment", (("payee", field_string) ∷ [], λ raw w. (ok (("payee", str "ann") ∷ []), w))) ∷ []

abbrev request : ExtractionRequest
request = record { raw_text = "pay ann"; schema_ref = "payment"; domain_id = "shop" }

abbrev watcher : Watched (Unit {0})
watcher = record { world = tt; told = [] }

extract-verify_example : ¬ (verify ("payee" ∷ []) (context_from [] payee_result) tt ≡ (ok [], tt))
unfolding extract lookup has ◌>>=◌ insert matches_type sort_strings
extract-verify_example =
    extract-verify show injector request [] watcher payee_result "payee" (str "ann") ("payee" ∷ [])
      tt refl refl refl

-- a probe that is well at first, and says so beside an error later
abbrev tired : Probing Bool
tired req true = (ok (record { healthy = true; detected_failure_mode = "" }, none), false)
tired req false =
    (ok (record { healthy = true; detected_failure_mode = "late" }, some (plain "broken")), false)

abbrev probe : String → ProbeRequest
probe ref = record { probe_ref = ref; domain_id = "shop"; step_context = [] }

abbrev probes : List ProbeRequest
probes = probe "disk" ∷ probe "net" ∷ probe "disk" ∷ []

abbrev ended : WorkflowResult
ended = record { output = ("paid", bool true) ∷ []; state_pointer = ""; trace = "pay" ∷ [] }

abbrev recorder : Recorder Bool
recorder = new_recorder true

record_probe-play_probe_example :
    let run = probe_all (record_probe show (some tired)) probes recorder in
    let rec = finish show 5 "w" [] ended none run.1 in
    let again = probe_all (play_probe none) probes (new_player false rec) in
    (again.0 ≡ map (as_text show) run.0) × (again.1.unmatched ≡ []) × (again.1.world ≡ false)
unfolding probe_all record_probe ◌>>=◌ error_text
record_probe-play_probe_example =
    record_probe-play_probe show tired none probes true false 5 "w" [] ended none
      (tt, (refl, (refl, tt)))

abbrev marshal : Value → Option String
marshal v = some (show v)

abbrev paid_run : Recording
paid_run = finish show 5 "w" [] ended none recorder

compare_lem_example :
    (Compare.compare marshal show paid_run ended none ≡ []
      → Agrees marshal show paid_run ended none)
    × (Agrees marshal show paid_run ended none
        → Compare.compare marshal show paid_run ended none ≡ [])
compare_lem_example = compare_lem marshal show paid_run ended none
