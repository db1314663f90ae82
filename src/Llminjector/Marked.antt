-- ===== src/Llminjector/Marked.antt =====
-- What a model gave is marked, so that an action that needs verified fields refuses it.
use cee.Prelude.{
  ◌∙◌, String, ◌≡◌, refl, true, false, Option, none, some, List, [], ◌∷◌, ◌++◌, ◌⊎◌, inl, inr, has,
  map, sort_strings, has-sort_strings, has-join, arith, eq_iff, eq_refl,
}
use cee.Maps.{lookup, lookup-insert}
use cee.Value.{Value, strings, Context}
use cee.Entities.{ExtractionRequest, ExtractionResult, model_derived_key}
use cee.Execution.Errors.{Err}
use cee.Execution.Texts.{error_text}
use cee.Execution.Exec.{ok}
use cee.Execution.Exec.Laws.{Ensures, Ensures-pure, Ensures-bind, Ensures-bind_of}
use cee.Stdlib.Actions.{provenance_of, verify}
use cee.Stdlib.Actions.Verified.{verify_lem, NoneOf}
use cee.Llminjector.{
  Schema, Extractor, Injector, Watched, check_fields, checked, failed, field_of, extracted,
  unknown_schema, extract_with, extract_quietly, extract, tell, observe_extraction_result,
  existing_provenance, distinct, marked, context_from,
}

has-distinct : (k : String) (names : List String) → has k (distinct names) ≡ has k names
unfolding has distinct
has-distinct k [] = refl
has-distinct k (name ∷ names) =
    ground (arith, has-distinct k names, eq_iff name k, has-distinct name names)

-- a marked context lists the names
provenance_of-marked :
    (ctx : Context) (names : List String) (k : String)
    → has k names ≡ true
    → has k (provenance_of (marked ctx names)) ≡ true
unfolding provenance_of has
provenance_of-marked ctx [] k h = absurd (cc h)
provenance_of-marked ctx (name ∷ names) k h = ground (
  arith,
  h,
  lookup-insert model_derived_key model_derived_key (strings (sort_strings (name ∷ names))) ctx,
  eq_refl model_derived_key,
  has-sort_strings k (name ∷ names),
)

-- A context that is made from a result lists as derived by a model every field that the result or the
-- context before lists so.
pub context_from-has :
    (base : Context) (result : ExtractionResult) (k : String)
    → (has k (existing_provenance base) ≡ true) ⊎ (has k result.model_derived ≡ true)
    → has k (provenance_of (context_from base result)) ≡ true
unfolding context_from
context_from-has base result k h =
    provenance_of-marked _ (distinct (existing_provenance base ++ result.model_derived)) k (
      ground (
        arith,
        has-distinct k (existing_provenance base ++ result.model_derived),
        has-join k (existing_provenance base) result.model_derived,
        h,
      ))

-- every field of the payload is listed
abbrev pub ListsAll : ExtractionResult → Type 0
ListsAll result =
    (f : String) (v : Value)
    → lookup f result.structured_payload ≡ some v
    → has f result.model_derived ≡ true

has-fields :
    (ctx : Context) (f : String) (v : Value)
    → lookup f ctx ≡ some v
    → has f (map field_of ctx) ≡ true
unfolding lookup has
has-fields [] f v h = absurd (cc h)
has-fields ((k, w) ∷ ctx) f v h = ground (arith, has-fields ctx f v)

failed-ListsAll : (errs : List String) → ListsAll (failed errs)
unfolding lookup
failed-ListsAll errs f v h = absurd (cc h)

checked-ListsAll : (errs : List String) (clean : Context) → ListsAll (checked (errs, clean))
unfolding checked
checked-ListsAll [] clean f v h = has-sort_strings f (map field_of clean) ∙ has-fields clean f v h
checked-ListsAll (err ∷ errs) clean f v h = failed-ListsAll (err ∷ errs) f v h

extracted-ListsAll :
    (show : Value → String) (schema : Schema) (r : Context ⊎ Err)
    → ListsAll (extracted show schema r)
extracted-ListsAll show schema (inl payload) =
    let (errs, clean) = check_fields payload schema ([], []) in checked-ListsAll errs clean
extracted-ListsAll show schema (inr failure) = failed-ListsAll (error_text show failure ∷ [])

module _ {W : Type 0} (show : Value → String) (inj : Injector W) (req : ExtractionRequest) where
  abbrev Lists : ExtractionResult → Watched W → Type 0
  Lists r m = ListsAll r

  extract_with-ListsAll :
      (o : Option (Schema × Extractor W)) → Ensures Lists (extract_with show req o)
  unfolding extract_with
  extract_with-ListsAll none = Ensures-pure Lists _ (λ m. failed-ListsAll (unknown_schema req))
  extract_with-ListsAll (some (schema, extractor)) = Ensures-bind Lists _ _ λ u.
      Ensures-bind Lists _ _
        λ r. Ensures-pure Lists (extracted show schema r) (λ m. extracted-ListsAll show schema r)

  extract-ListsAll : Ensures Lists (extract show inj req)
  unfolding extract extract_quietly
  extract-ListsAll =
      Ensures-bind_of Lists Lists (extract_with show req (lookup req.schema_ref inj)) _
        (extract_with-ListsAll (lookup req.schema_ref inj))
        (λ result m lists.
          Ensures-bind Lists (tell show (observe_extraction_result req result)) _
            (λ u. Ensures-pure Lists result (λ m'. lists)) m)

NoneOf-has :
    (names fields : List String) (f : String)
    → NoneOf names fields
    → has f fields ≡ true
    → has f names ≡ false
unfolding has
NoneOf-has names [] f n h = absurd (cc h)
NoneOf-has names (g ∷ fields) f n h = ground (arith, eq_iff g f, NoneOf-has names fields f n.1, n.0)

-- A field that a model gave is refused: once what was extracted is put over a context, no
-- `std.require_verified` action that asks for one of the extracted fields passes, whatever the context
-- was before.
pub extract-verify :
    {W V : Type 0} (show : Value → String) (inj : Injector W) (req : ExtractionRequest)
    (base : Context) (m : Watched W) (result : ExtractionResult) (f : String) (v : Value)
    (fields : List String) (world : V)
    → (extract show inj req m).0 ≡ ok result
    → lookup f result.structured_payload ≡ some v
    → has f fields ≡ true
    → ¬ (verify fields (context_from base result) world ≡ (ok [], world))
extract-verify show inj req base m result f v fields world extracted found asked passed =
    let derived = extract-ListsAll show inj req m result extracted f v found in
    let listed = context_from-has base result f (inr derived) in
    let none_of = (verify_lem fields (context_from base result) world).0 passed in
    absurd
      (cc (listed, NoneOf-has (provenance_of (context_from base result)) fields f none_of asked))
