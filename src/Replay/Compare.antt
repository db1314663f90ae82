-- ===== src/Replay/Compare.antt =====
-- `Compare` of replay/replay.go. `json.Marshal` is the parameter `marshal`, `none` for an error; `%v` of
-- a value is the parameter `show`.
pub mod Agrees
use cee.Prelude.{
  String, Bool, true, false, Option, none, some, List, [], ◌∷◌, ◌++◌, ◌==◌, if◌then◌else◌, concat,
  map, has, sort_strings,
}
use cee.Maps.{lookup}
use cee.Value.{Value, null, bool, str, beq, Context}
use cee.Entities.{WorkflowResult}
use cee.Execution.Errors.{Err}
use cee.Execution.Texts.{error_text}
use cee.Replay.Records.{Recording, has_pointer}

pub record Difference : Type 0 where
  pub field : String
  pub before : Value
  pub after : Value

-- the steps that follow the first one
unfoldable pub join_rest : List String → String
join_rest [] = ""
join_rest (s ∷ steps) = concat (" -> " ∷ s ∷ join_rest steps ∷ [])

abbrev pub joined : List String → String
joined [] = ""
joined (s ∷ steps) = concat (s ∷ join_rest steps ∷ [])

unfoldable pub join_trace : List String → String
unfolding join_rest
join_trace steps = if joined steps == "" then "(empty)" else joined steps

abbrev pub key_of : String × Value → String
key_of entry = entry.0

-- the keys of the second map that are not in the first one
unfoldable pub unseen_keys : List String → Context → List String
unseen_keys seen [] = []
unseen_keys seen (entry ∷ rest) =
    let later = unseen_keys seen rest in if has entry.0 seen then later else entry.0 ∷ later

unfoldable pub output_fields : Context → Context → List String
unfolding unseen_keys
output_fields before after =
    sort_strings (map key_of before ++ unseen_keys (map key_of before) after)

abbrev pub trace_difference : Recording → WorkflowResult → List Difference
trace_difference rec result =
    if join_trace rec.trace == join_trace result.trace
    then []
    else record {
      field = "trace";
      before = str (join_trace rec.trace);
      after = str (join_trace result.trace);
    }
      ∷ []

abbrev pub suspended_difference : Recording → WorkflowResult → List Difference
suspended_difference rec result =
    if beq rec.is_suspended (has_pointer result)
    then []
    else record {
      field = "suspended";
      before = bool rec.is_suspended;
      after = bool (has_pointer result);
    }
      ∷ []

module _ (marshal : Value → Option String) (show : Value → String) where
  abbrev pub same_texts : Value → Value → Option String → Option String → Bool
  same_texts a b (some ja) (some jb) = ja == jb
  same_texts a b _ _ = show a == show b

  abbrev pub same_value : Value → Value → Bool
  same_value a b = same_texts a b (marshal a) (marshal b)

  abbrev pub error_difference : Recording → Option Err → List Difference
  error_difference rec none =
      if rec.has_failed
      then record { field = "failed"; before = bool true; after = bool false } ∷ []
      else []
  error_difference rec (some e) =
      if rec.has_failed
      then if rec.failure == error_text show e
        then []
        else record { field = "error"; before = str rec.failure; after = str (error_text show e) }
          ∷ []
      else record { field = "failed"; before = bool false; after = bool true } ∷ []

  abbrev pub value_difference : String → Option Value → Option Value → List Difference
  value_difference key none none = []
  value_difference key (some b) none =
      record { field = concat ("output." ∷ key ∷ []); before = b; after = null } ∷ []
  value_difference key none (some a) =
      record { field = concat ("output." ∷ key ∷ []); before = null; after = a } ∷ []
  value_difference key (some b) (some a) =
      if same_value b a
      then []
      else record { field = concat ("output." ∷ key ∷ []); before = b; after = a } ∷ []

  unfoldable pub output_differences : Context → Context → List String → List Difference
  output_differences before after [] = []
  output_differences before after (key ∷ keys) =
      value_difference key (lookup key before) (lookup key after)
      ++ output_differences before after keys

  -- `Compare`
  unfoldable pub compare : Recording → WorkflowResult → Option Err → List Difference
  unfolding output_fields output_differences join_trace
  compare rec result run_err =
      trace_difference rec result
      ++ (suspended_difference rec result
          ++ (error_difference rec run_err
              ++ output_differences rec.output result.output
                  (output_fields rec.output result.output)))
