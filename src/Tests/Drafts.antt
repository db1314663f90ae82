-- ===== src/Tests/Drafts.antt =====
-- A model that answers with a manifest at its second attempt.
use cee.Prelude.{
  String, Bool, ◌≡◌, refl, true, false, Option, [], ◌∷◌, ◌⊎◌, inl, inr, ◌==◌, if◌then◌else◌, has,
  all_chars,
}
use cee.Maps.{lookup, insert}
use cee.Value.{pos}
use cee.Execution.Errors.{Err, plain}
use cee.Execution.Exec.{Exec, ok, ◌>>=◌, attempt, pure}
use cee.Manifest.Specs.{File}
use cee.Manifest.Validate.{is_ok, validate_step}
use cee.Manifest.ValidateFile.{validate}
use cee.Manifest.Graph.{validate_step_graph, validate_sub_workflow_acyclic}
use cee.Manifest.FindCycle.{find_cycle}
use cee.Manifest.Reach.{walk}
use cee.Stdlib.Actions.{Library}
use cee.Draft.{Result, draft, ask}
use cee.Draft.Accepted.{Answers, draft-Answers}
use cee.Tests.Joins.{show}
use cee.Tests.Data.{World}
use cee.Tests.Validation.{two_files}

abbrev std : Library World
std = []

abbrev chat : String → String → Exec Bool String
chat system user true = (ok "{", false)
chat system user false = (ok "{}", false)

abbrev unmarshal : String → File ⊎ Err
unmarshal text = if text == "{}" then inl two_files else inr (plain "unexpected end")

draft-Answers_example :
    (result : Result) × (failure : Option Err) × ((draft chat unmarshal show std
        ("pay" ∷ [])
        ""
        (pos 0)
        "a shop"
        true).0
      ≡ ok (result, failure))
    × Answers chat unmarshal show std ("pay" ∷ []) "" 3 result failure
unfolding draft all_chars ask ◌>>=◌ attempt pure is_ok validate validate_step_graph find_cycle
    insert walk validate_step validate_sub_workflow_acyclic has lookup
draft-Answers_example = (
  _,
  _,
  refl,
  draft-Answers chat unmarshal show std ("pay" ∷ []) "" (pos 0) "a shop" true _ _ refl,
)
