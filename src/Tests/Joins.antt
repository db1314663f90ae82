-- ===== src/Tests/Joins.antt =====
-- Parallel branches, and contexts that are merged.
use cee.Prelude.{String, ◌≡◌, refl, true, false, [], ◌∷◌, inl, inr, List}
use cee.Maps.{lookup, insert, insert_all}
use cee.Value.{Context, same_value, beq, bool, str, Value}
use cee.Entities.{WorkflowResult}
use cee.Execution.Errors.{plain}
use cee.Execution.Types.{ParallelStep}
use cee.Execution.Failure.{merge}
use cee.Execution.Join.{
  nothing_joined, Finished, join_branches, join_branch, join_fields, branch_delta, write_field,
}
use cee.Execution.Join.Agree.{Settled}
use cee.Execution.Join.Branches.{written_values, join_branches_lem}
use cee.Execution.Parallel.{BranchOutcome, settle, sort_outcomes}
use cee.Execution.Parallel.Verdict.{
  settle_lem, settle-FieldJoined, FieldJoined, verdict, first_structural, failures_of, finished_of,
}

abbrev pub show : Value → String
show v = "value"

abbrev both : ParallelStep
both = record {
  step_id = "both";
  branches = "credit" ∷ "stock" ∷ [];
  circuit_breaker_policy_ref = "";
  on_success = "";
}

abbrev result_of : Context → List String → WorkflowResult
result_of ctx trace = record { output = ctx; state_pointer = ""; trace = trace }

abbrev order : Context
order = ("id", str "o") ∷ []

abbrev good : List BranchOutcome
good =
    ("credit", inl (result_of (("id", str "o") ∷ ("score", bool true) ∷ []) ("c" ∷ [])))
    ∷ ("stock", inl (result_of (("id", str "o") ∷ ("score", bool true) ∷ []) ("s" ∷ [])))
    ∷ []

abbrev mixed : List BranchOutcome
mixed = ("credit", inr (plain "down")) ∷ ("stock", inl (result_of order ("s" ∷ []))) ∷ []

-- two branches that do not agree on a field
abbrev apart : List Finished
apart =
    ("credit", result_of (("score", bool true) ∷ []) [])
    ∷ ("stock", result_of (("score", bool false) ∷ []) [])
    ∷ []

settle_lem_example :
    settle show both order mixed
    ≡ verdict both order (first_structural mixed) (failures_of show mixed) (finished_of mixed)
settle_lem_example = settle_lem show both order mixed

settle-FieldJoined_example :
    FieldJoined show order good (("id", str "o") ∷ ("score", bool true) ∷ []) "score"
unfolding settle join_branches sort_outcomes join_branch join_fields branch_delta lookup same_value
    write_field insert beq merge insert_all
settle-FieldJoined_example =
    settle-FieldJoined show both order good {trace = "c" ∷ "s" ∷ []} "score" refl

join_branches_lem_example :
    Settled "both" [] (written_values order apart) (join_branches "both" order apart nothing_joined)
join_branches_lem_example = join_branches_lem "both" order apart
