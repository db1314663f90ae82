-- ===== src/Execution/Join.antt =====
-- The join of execution/parallel.go: what each branch changed of the context that it was given, and
-- how the changes of all branches become one context, in declaration order.
pub mod Agree
pub mod Branches
use cee.Prelude.{String, Bool, false, Option, none, some, List, [], ◌∷◌, ◌++◌, if◌then◌else◌}
use cee.Maps.{Map, lookup, insert, insert_all}
use cee.Value.{Value, null, Context, same_value}
use cee.Entities.{WorkflowResult}
use cee.Execution.Errors.{conflicting_branch_writes}
use cee.Execution.Exec.{Outcome, ok, err, ◌then◌}

abbrev pub unchanged : Option Value → Value → Bool
unchanged none value = false
unchanged (some previous) value = same_value previous value

-- `branchDelta`: the fields of `after` that `before` lacks or has with another value
unfoldable pub branch_delta : Context → Context → Context
branch_delta before [] = []
branch_delta before ((field, value) ∷ after) =
    let rest = branch_delta before after in
    if unchanged (lookup field before) value then rest else (field, value) ∷ rest

-- `cloneContext`
unfoldable pub clone_context : Context → Context
clone_context ctx = insert_all [] ctx

-- The three maps and the trace that the join builds.
pub record Joining : Type 0 where
  pub trace : List String
  pub joined : Context
  pub wrote_by : Map String
  pub wrote_value : Context

abbrev pub nothing_joined : Joining
nothing_joined = record { trace = []; joined = []; wrote_by = []; wrote_value = [] }

-- reading a map at a missing key gives nil
abbrev pub or_null : Option Value → Value
or_null none = null
or_null (some v) = v

module _ (step_id branch : String) where
  abbrev pub written : String → Value → Joining → Joining
  written field value j = record j {
    joined = insert field value j.joined;
    wrote_by = insert field branch j.wrote_by;
    wrote_value = insert field value j.wrote_value;
  }

  -- a write to a field that an earlier branch wrote must have the same value
  unfoldable pub write_field : String → Value → Joining → Outcome Joining
  write_field field value j = elim (lookup field j.wrote_by) [
    | none ↦ ok (written field value j)
    | some owner ↦
        if same_value (or_null (lookup field j.wrote_value)) value
        then ok (written field value j)
        else err (
            conflicting_branch_writes step_id field owner (or_null (lookup field j.wrote_value))
              branch value)
  ]

  unfoldable pub join_fields : Context → Joining → Outcome Joining
  join_fields [] j = ok j
  join_fields ((field, value) ∷ fields) j = write_field field value j then join_fields fields

-- a branch that succeeded, with its result
abbrev pub Finished : Type 0
Finished = String × WorkflowResult

module _ (step_id : String) (ctx : Context) where
  unfoldable pub join_branch : Finished → Joining → Outcome Joining
  join_branch (branch, result) j =
      join_fields step_id branch (branch_delta ctx result.output)
        (record j { trace = j.trace ++ result.trace })

  unfoldable pub join_branches : List Finished → Joining → Outcome Joining
  join_branches [] j = ok j
  join_branches (b ∷ bs) j = join_branch b j then join_branches bs
