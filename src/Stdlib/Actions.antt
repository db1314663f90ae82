-- ===== src/Stdlib/Actions.antt =====
-- The factories of stdlib/stdlib.go and the actions that they make. An action of the standard library
-- reads its context and never the world.
pub mod Verified
use cee.Prelude.{
  String, Bool, Option, none, some, List, [], ◌∷◌, ◌⊎◌, inl, inr, ◌==◌, if◌then◌else◌, concat,
  quote, join, has,
}
use cee.Maps.{Map, lookup, insert_all}
use cee.Value.{Value, bool, str, strings, arr, obj, Items, nil, cons, Context, entries}
use cee.Entities.{model_derived_key}
use cee.Execution.Errors.{Err, plain, suspended}
use cee.Execution.Exec.{Outcome, ok, err, ◌then◌}
use cee.Execution.Join.{or_null}
use cee.Execution.Types.{Action}
use cee.Stdlib.Compare.{compare, valid_op}

abbrev pub Factory : Type 0 → Type 0
Factory W = Context → Action W ⊎ Err

abbrev pub Library : Type 0 → Type 0
Library W = Map (Factory W)

-- params[key].(string)
abbrev as_string : Option Value → Option String
as_string (some (str s)) = some s
as_string _ = none

-- the same, where the empty string is refused too
abbrev non_empty : Option String → Option String
non_empty none = none
non_empty (some s) = if s == "" then none else some s

unfoldable pub text_param : String → Context → Option String
text_param key params = non_empty (as_string (lookup key params))

-- the field, the op and the value that are compared
pub record Comparison : Type 0 where
  pub field : String
  pub op : String
  pub want : Value

abbrev op_param : Context → Option String
op_param params = elim (as_string (lookup "op" params)) [
  | none ↦ none
  | some op ↦ if valid_op op then some op else none
]

abbrev misses : {A : Type 0} → String → String → A ⊎ Err
misses action what = inr (plain (concat (action ∷ what ∷ [])))

unfoldable pub comparison_params : String → Context → Comparison ⊎ Err
unfolding text_param
comparison_params action params = elim (text_param "field" params) [
  | none ↦ misses action " requires a non-empty 'field' string"
  | some field ↦ elim (op_param params) [
    | none ↦ misses action " requires 'op' to be one of eq/neq/gt/gte/lt/lte/in"
    | some op ↦ elim (lookup "value" params) [
      | none ↦ misses action " requires a 'value'"
      | some want ↦ inl (record { field = field; op = op; want = want })
    ]
  ]
]

-- the names in `cee.model_derived`, whichever of the two list types it has
unfoldable pub texts_of : Items → List String
texts_of nil = []
texts_of (cons (str s) items) = s ∷ texts_of items
texts_of (cons _ items) = texts_of items

unfoldable pub provenance_of : Context → List String
unfolding texts_of
provenance_of ctx = elim (lookup model_derived_key ctx) [
  | some (strings names) ↦ names
  | some (arr items) ↦ texts_of items
  | _ ↦ []
]

-- the fields that are among the derived ones
unfoldable pub guessed : List String → List String → List String
guessed derived [] = []
guessed derived (field ∷ fields) =
    let rest = guessed derived fields in if has field derived then field ∷ rest else rest

-- the elements of a 'fields' array, if all are strings that are not empty
unfoldable pub field_names : Items → Option (List String)
field_names nil = some []
field_names (cons (str s) items) =
    let rest = field_names items in
    if s == "" then none else elim rest [ none ↦ none | some names ↦ some (s ∷ names) ]
field_names (cons _ items) = none

abbrev suspension : String → Option String → Outcome Context
suspension reason none = err (suspended reason "")
suspension reason (some audience) = err (suspended reason audience)

abbrev verified : List String → Outcome Context
verified [] = ok []
verified (name ∷ names) = err (
    plain (
      concat (
        "refusing to act on model-derived "
        ∷ join ", " (name ∷ names)
        ∷ ": extracted values are not verified facts"
        ∷ [])))

module _ (show : Value → String) where
  abbrev compared : Comparison → Context → Outcome Bool
  compared c ctx = compare show (or_null (lookup c.field ctx)) c.op c.want

  abbrev unmet : Comparison → Context → Err
  unmet c ctx = plain (
      concat (
        "requirement not met: field "
        ∷ quote c.field
        ∷ " ("
        ∷ show (or_null (lookup c.field ctx))
        ∷ ") "
        ∷ c.op
        ∷ " "
        ∷ show c.want
        ∷ []))

module _ {W : Type 0} where
  -- an action that reads its context only
  abbrev reading : (Context → Outcome Context) → Action W
  reading f ctx w = (f ctx, w)

  unfoldable pub suspend_factory : Factory W
  unfolding text_param
  suspend_factory params = elim (text_param "reason" params) [
    | none ↦ misses "std.suspend" " requires a non-empty 'reason' string"
    | some reason ↦ inl (reading (λ ctx. suspension reason (text_param "audience" params)))
  ]

  unfoldable pub set_factory : Factory W
  set_factory params = elim (lookup "fields" params) [
    | none ↦ misses "std.set" " requires a 'fields' object"
    | some (obj fields) ↦ inl (reading (λ ctx. ok (insert_all [] (entries fields))))
    | some _ ↦ misses "std.set" " 'fields' must be an object"
  ]

  unfoldable pub verify : List String → Action W
  unfolding provenance_of guessed
  verify fields = reading (λ ctx. verified (guessed (provenance_of ctx) fields))

  abbrev verifier : Option (List String) → Action W ⊎ Err
  verifier none = misses "std.require_verified" " 'fields' must contain non-empty strings"
  verifier (some fields) = inl (verify fields)

  unfoldable pub require_verified_factory : Factory W
  unfolding verify field_names
  require_verified_factory params = elim (lookup "fields" params) [
    | none ↦ misses "std.require_verified" " requires a 'fields' array"
    | some (arr (cons item items)) ↦ verifier (field_names (cons item items))
    | some _ ↦ misses "std.require_verified" " 'fields' must be a non-empty array"
  ]

  module _ (show : Value → String) where
    unfoldable pub require : Comparison → Action W
    require c = reading (λ ctx.
        compared show c ctx then λ (holds : Bool). if holds then ok [] else err (unmet show c ctx))

    unfoldable pub require_factory : Factory W
    unfolding require
    require_factory params = elim (comparison_params "std.require" params) [
      | inr failure ↦ inr failure
      | inl c ↦ inl (require c)
    ]

    unfoldable pub rule_check : Comparison → String → Action W
    rule_check c result_field =
        reading
          (λ ctx. compared show c ctx then λ (holds : Bool). ok ((result_field, bool holds) ∷ []))

    unfoldable pub rule_check_factory : Factory W
    unfolding rule_check
    rule_check_factory params = elim (comparison_params "std.rule_check" params) [
      | inr failure ↦ inr failure
      | inl c ↦ elim (text_param "result_field" params) [
        | none ↦ misses "std.rule_check" " requires a non-empty 'result_field' string"
        | some result_field ↦ inl (rule_check c result_field)
      ]
    ]

    unfoldable pub default_library : Library W
    default_library =
        ("std.set", set_factory)
        ∷ ("std.require", require_factory)
        ∷ ("std.rule_check", rule_check_factory)
        ∷ ("std.suspend", suspend_factory)
        ∷ ("std.require_verified", require_verified_factory)
        ∷ []
