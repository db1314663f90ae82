-- ===== src/Replay/Extractions.antt =====
-- `Recorder.ObserveExtractionResult` and `Player.ExtractorFor` of replay/replay.go.
use cee.Prelude.{String, true, false, List, [], ◌∷◌, ◌++◌, concat, quote}
use cee.Value.{Context}
use cee.Entities.{ExtractionRequest, ExtractionResult}
use cee.Execution.Errors.{plain}
use cee.Execution.Exec.{Exec, Outcome, ok, err}
use cee.Llminjector.{Extractor}
use cee.Replay.Records.{ExtractionRecord, Recorder, Player, clone_map, queue, advance}

abbrev pub extraction_record : ExtractionRequest → ExtractionResult → ExtractionRecord
extraction_record req result = record {
  schema_ref = req.schema_ref;
  domain_id = req.domain_id;
  raw_text = req.raw_text;
  success = result.success;
  payload = clone_map result.structured_payload;
  model_derived = result.model_derived;
  validation_errors = result.validation_errors;
}

unfoldable pub observe_result :
    {W : Type 0} → ExtractionRequest → ExtractionResult → Recorder W → Recorder W
observe_result req result r = record r {
  extractions = r.extractions ++ extraction_record req result ∷ [];
}

abbrev pub first_reason : List String → String
first_reason [] = "extraction failed"
first_reason (reason ∷ reasons) = reason

abbrev pub played_extraction : ExtractionRecord → Outcome Context
played_extraction rec = elim rec.success [
  | true ↦ ok (clone_map rec.payload)
  | false ↦ err (plain (first_reason rec.validation_errors))
]

unfoldable pub extract_queued :
    {W : Type 0} → String → List ExtractionRecord → Exec (Player W) Context
extract_queued schema_ref [] p = (
  err (
      plain
        (concat ("replay: the recording holds no extraction for schema " ∷ quote schema_ref ∷ []))),
  record p { unmatched = p.unmatched ++ concat ("extraction:" ∷ schema_ref ∷ []) ∷ [] },
)
extract_queued schema_ref (rec ∷ rest) p =
    (played_extraction rec, record p { extractions = advance schema_ref rest p.extractions })

-- `Player.ExtractorFor`
unfoldable pub extractor_for : {W : Type 0} → String → Extractor (Player W)
unfolding extract_queued queue
extractor_for schema_ref raw_text p = extract_queued schema_ref (queue schema_ref p.extractions) p
