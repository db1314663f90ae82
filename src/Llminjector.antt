-- ===== src/Llminjector.antt =====
-- llminjector/injector.go: what a model read from a text is checked against a schema, and the fields that
-- it gave are marked in the context. An extractor is a function over the world `W`. The observer is the
-- list of what it was told, the latest first. Go visits a schema in an order that it does not fix: the
-- model visits it in the order of the list, which shows in the order of the validation errors only.
pub mod Marked
use cee.Prelude.{
  String, Bool, true, false, Option, none, some, List, [], ◌∷◌, ◌++◌, ◌⊎◌, inl, inr, if◌then◌else◌,
  concat, quote, map, sort_strings, has,
}
use cee.Maps.{Map, lookup, insert, insert_all}
use cee.Value.{Value, str, bool, float64, strings, Context}
use cee.Entities.{ExtractionRequest, ExtractionResult, model_derived_key}
use cee.Execution.Errors.{Err}
use cee.Execution.Texts.{error_text}
use cee.Execution.Exec.{Exec, Outcome, ok, pure, attempt, ◌>>=◌, ◌>>◌}
use cee.Stdlib.Actions.{provenance_of}

-- `field_other` stands for the numbers without a name.
pub data FieldType : Type 0 where
  field_string : FieldType
  field_float64 : FieldType
  field_bool : FieldType
  field_other : FieldType

abbrev pub Schema : Type 0
Schema = Map FieldType

abbrev pub Extractor : Type 0 → Type 0
Extractor W = String → Exec W Context

pub data Told : Type 0 where
  observe_extraction : String → Told
  observe_extraction_result : ExtractionRequest → ExtractionResult → Told

pub record Watched (W : Type 0) : Type 0 where
  pub world : W
  pub told : List Told

abbrev pub Injector : Type 0 → Type 0
Injector W = Map (Schema × Extractor W)

abbrev pub new_injector : {W : Type 0} → Injector W
new_injector = []

unfoldable pub register_schema :
    {W : Type 0} → String → Schema → Extractor W → Injector W → Injector W
register_schema schema_ref schema extractor inj = insert schema_ref (schema, extractor) inj

unfoldable pub matches_type : Value → FieldType → Bool
matches_type (str s) field_string = true
matches_type (float64 x) field_float64 = true
matches_type (bool b) field_bool = true
matches_type _ _ = false

-- the errors and the clean fields that the loop over the schema collects
unfoldable pub check_fields : Context → Schema → List String × Context → List String × Context
check_fields payload [] acc = acc
check_fields payload ((field, want_type) ∷ schema) (errs, clean) = elim (lookup field payload) [
  | none ↦
      check_fields payload schema (errs ++ concat ("missing field " ∷ quote field ∷ []) ∷ [], clean)
  | some value ↦ elim (matches_type value want_type) [
    | true ↦ check_fields payload schema (errs, insert field value clean)
    | false ↦
        check_fields payload schema
          (errs ++ concat ("field " ∷ quote field ∷ " has the wrong type" ∷ []) ∷ [], clean)
  ]
]

abbrev pub failed : List String → ExtractionResult
failed errs = record {
  success = false;
  structured_payload = [];
  model_derived = [];
  validation_errors = errs;
}

abbrev pub field_of : String × Value → String
field_of entry = entry.0

unfoldable pub checked : List String × Context → ExtractionResult
checked ([], clean) = record {
  success = true;
  structured_payload = clean;
  model_derived = sort_strings (map field_of clean);
  validation_errors = [];
}
checked (err ∷ errs, clean) = failed (err ∷ errs)

abbrev pub extracted : (Value → String) → Schema → Context ⊎ Err → ExtractionResult
extracted show schema (inl payload) = checked (check_fields payload schema ([], []))
extracted show schema (inr failure) = failed (error_text show failure ∷ [])

abbrev pub unknown_schema : ExtractionRequest → List String
unknown_schema req = concat ("no schema registered for " ∷ quote req.schema_ref ∷ []) ∷ []

module _ {W : Type 0} (show : Value → String) where
  abbrev pub tell : Told → Exec (Watched W) (Unit {0})
  tell t s = (ok tt, record s { told = t ∷ s.told })

  abbrev pub watched : {A : Type 0} → Exec W A → Exec (Watched W) A
  watched m s = let (r, w) = m s.world in (r, record s { world = w })

  -- `Injector.extract`, with the registration that was found
  unfoldable pub extract_with :
      ExtractionRequest → Option (Schema × Extractor W) → Exec (Watched W) ExtractionResult
  unfolding checked check_fields
  extract_with req none = pure (failed (unknown_schema req))
  extract_with req (some (schema, extractor)) =
      tell (observe_extraction req.schema_ref)
      >> (attempt (watched (extractor req.raw_text)) >>= λ r. pure (extracted show schema r))

  unfoldable pub extract_quietly :
      Injector W → ExtractionRequest → Exec (Watched W) ExtractionResult
  unfolding extract_with
  extract_quietly inj req = extract_with req (lookup req.schema_ref inj)

  -- `Injector.Extract`
  unfoldable pub extract : Injector W → ExtractionRequest → Exec (Watched W) ExtractionResult
  unfolding extract_quietly
  extract inj req = extract_quietly inj req >>= λ result.
      tell (observe_extraction_result req result) >> pure result

-- `existingProvenance` has the text of `provenanceOf` of stdlib/stdlib.go.
unfoldable pub existing_provenance : Context → List String
existing_provenance ctx = provenance_of ctx

-- the set of names, as a list without repetitions
unfoldable pub distinct : List String → List String
distinct [] = []
distinct (name ∷ names) = let rest = distinct names in if has name rest then rest else name ∷ rest

abbrev pub marked : Context → List String → Context
marked ctx [] = ctx
marked ctx (name ∷ names) = insert model_derived_key (strings (sort_strings (name ∷ names))) ctx

-- `ContextFrom`
unfoldable pub context_from : Context → ExtractionResult → Context
unfolding distinct existing_provenance
context_from base result =
    marked (insert_all (insert_all [] base) result.structured_payload)
      (distinct (existing_provenance base ++ result.model_derived))
