-- ===== src/Replay/Records.antt =====
-- The recording, the recorder and the player of replay/replay.go. The lock of the two is left out: a call
-- is one step.
use cee.Prelude.{
  ℕ, String, Bool, true, false, Option, none, some, List, [], ◌∷◌, ◌++◌, ◌==◌, if◌then◌else◌,
}
use cee.Maps.{Map, lookup, insert, insert_all}
use cee.Value.{Value, Context}
use cee.Entities.{WorkflowResult}
use cee.Execution.Errors.{Err}
use cee.Execution.Texts.{error_text}

pub record ProbeVerdict : Type 0 where
  pub probe_ref : String
  pub domain_id : String
  pub healthy : Bool
  pub detected_failure_mode : String
  pub failure : String

pub record ExtractionRecord : Type 0 where
  pub schema_ref : String
  pub domain_id : String
  pub raw_text : String
  pub success : Bool
  pub payload : Context
  pub model_derived : List String
  pub validation_errors : List String

pub record Recording : Type 0 where
  pub workflow_id : String
  pub input : Context
  pub probes : List ProbeVerdict
  pub extractions : List ExtractionRecord
  pub trace : List String
  pub output : Context
  pub is_suspended : Bool
  pub has_failed : Bool
  pub failure : String
  pub recorded_at : ℕ

-- The world of the probes, and the recorder.
pub record Recorder (W : Type 0) : Type 0 where
  pub world : W
  pub verdicts : List ProbeVerdict
  pub extractions : List ExtractionRecord

abbrev pub new_recorder : {W : Type 0} → W → Recorder W
new_recorder w = record { world = w; verdicts = []; extractions = [] }

abbrev pub clone_map : Context → Context
clone_map m = insert_all [] m

abbrev pub is_error : Option Err → Bool
is_error none = false
is_error (some e) = true

abbrev pub text_of : (Value → String) → Option Err → String
text_of show none = ""
text_of show (some e) = error_text show e

abbrev pub has_pointer : WorkflowResult → Bool
has_pointer result = if result.state_pointer == "" then false else true

-- `Recorder.Finish`, at the given time
unfoldable pub finish :
    (Value → String)
    → ℕ
    → String
    → Context
    → WorkflowResult
    → Option Err
    → {W : Type 0} → Recorder W
    → Recording
finish show now workflow_id input result run_err recorder = record {
  workflow_id = workflow_id;
  input = clone_map input;
  probes = recorder.verdicts;
  extractions = recorder.extractions;
  trace = result.trace;
  output = clone_map result.output;
  is_suspended = has_pointer result;
  has_failed = is_error run_err;
  failure = text_of show run_err;
  recorded_at = now;
}

-- What is left to play, by the reference of the probe or of the schema.
abbrev pub Queues : Type 0 → Type 0
Queues V = Map (List V)

unfoldable pub queue : {V : Type 0} → String → Queues V → List V
queue ref queues = elim (lookup ref queues) [ none ↦ [] | some q ↦ q ]

-- queues[ref] = queued[1:], unless one is left, which stays
abbrev pub advance : {V : Type 0} → String → List V → Queues V → Queues V
advance ref [] queues = queues
advance ref (v ∷ rest) queues = insert ref (v ∷ rest) queues

-- the loops of `NewPlayer`
unfoldable pub enqueue_all : List ProbeVerdict → Queues ProbeVerdict → Queues ProbeVerdict
unfolding queue
enqueue_all [] queues = queues
enqueue_all (v ∷ vs) queues =
    enqueue_all vs (insert v.probe_ref (queue v.probe_ref queues ++ v ∷ []) queues)

unfoldable pub enqueue_extractions :
    List ExtractionRecord → Queues ExtractionRecord → Queues ExtractionRecord
unfolding queue
enqueue_extractions [] queues = queues
enqueue_extractions (e ∷ es) queues =
    enqueue_extractions es (insert e.schema_ref (queue e.schema_ref queues ++ e ∷ []) queues)

-- The world and the player.
pub record Player (W : Type 0) : Type 0 where
  pub world : W
  pub by_ref : Queues ProbeVerdict
  pub extractions : Queues ExtractionRecord
  pub unmatched : List String

abbrev pub new_player : {W : Type 0} → W → Recording → Player W
new_player w rec = record {
  world = w;
  by_ref = enqueue_all rec.probes [];
  extractions = enqueue_extractions rec.extractions [];
  unmatched = [];
}
