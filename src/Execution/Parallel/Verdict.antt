-- ===== src/Execution/Parallel/Verdict.antt =====
-- What a parallel step comes to, from the outcomes of its branches by index. Nothing here depends on
-- the order in which the branches ended.
use cee.Prelude.{
  String, ◌≡◌, refl, Option, none, some, List, [], ◌∷◌, ◌++◌, inl, inr, ◌∙◌, if◌then◌else◌,
  Bool-cases,
}
use mathlib.Core.List.{append_assoc, append-nil}
use cee.Maps.{lookup, or_else}
use cee.Value.{Value, Context}
use cee.Execution.Errors.{Err, BranchFailure, bypasses_breaker, branches_failed}
use cee.Execution.Texts.{error_text}
use cee.Execution.Exec.{Outcome, ok, err, ◌then◌}
use cee.Execution.Types.{ParallelStep}
use cee.Execution.Failure.Laws.{lookup-merge}
use cee.Execution.Join.{nothing_joined, Finished, join_branches}
use cee.Execution.Join.Branches.{written_values, join_branches_lem}
use cee.Execution.Join.Agree.{Settled, last_from, AgreeFrom}
use cee.Execution.Parallel.{length, merged, BranchOutcome, sort_outcomes, settle, all_succeeded}

-- the first error, in declaration order, that goes round the circuit breaker
abbrev pub first_structural : List BranchOutcome → Option Err
first_structural [] = none
first_structural ((branch, inl result) ∷ os) = first_structural os
first_structural ((branch, inr e) ∷ os) =
    let rest = first_structural os in if bypasses_breaker e then some e else rest

abbrev pub finished_of : List BranchOutcome → List Finished
finished_of [] = []
finished_of ((branch, inl result) ∷ os) = (branch, result) ∷ finished_of os
finished_of ((branch, inr e) ∷ os) = finished_of os

abbrev pub failures_of : (Value → String) → List BranchOutcome → List BranchFailure
failures_of show [] = []
failures_of show ((branch, inl result) ∷ os) = failures_of show os
failures_of show ((branch, inr e) ∷ os) =
    record { branch = branch; reason = error_text show e } ∷ failures_of show os

abbrev sorted :
    Option Err → List BranchFailure × List Finished → Outcome (List BranchFailure × List Finished)
sorted (some e) acc = err e
sorted none acc = ok acc

-- what a parallel step comes to, from its branches sorted
abbrev pub verdict :
    ParallelStep
    → Context
    → Option Err
    → List BranchFailure
    → List Finished
    → Outcome (Context × List String)
verdict s ctx (some e) fs rs = err e
verdict s ctx none (f ∷ fs) rs = err (branches_failed s.step_id (length s.branches) (f ∷ fs))
verdict s ctx none [] rs = join_branches s.step_id ctx rs nothing_joined then merged ctx

all_succeeded-verdict :
    (s : ParallelStep) (ctx : Context) (e : Option Err) (fs : List BranchFailure)
    (rs : List Finished)
    → (sorted e (fs, rs)
        then all_succeeded s
        then (λ finished. join_branches s.step_id ctx finished nothing_joined)
        then merged ctx)
      ≡ verdict s ctx e fs rs
all_succeeded-verdict s ctx (some e) fs rs = refl
all_succeeded-verdict s ctx none [] rs = refl
all_succeeded-verdict s ctx none (f ∷ fs) rs = refl

module _ (show : Value → String) where
  sort_outcomes_lem :
      (os : List BranchOutcome) (fs : List BranchFailure) (rs : List Finished)
      → sort_outcomes show os (fs, rs)
        ≡ sorted (first_structural os) (fs ++ failures_of show os, rs ++ finished_of os)
  unfolding sort_outcomes
  sort_outcomes_lem [] fs rs = simp append-nil
  sort_outcomes_lem ((branch, inl result) ∷ os) fs rs =
      sort_outcomes_lem os fs (rs ++ (branch, result) ∷ [])
      ∙ rw (append_assoc rs ((branch, result) ∷ []) (finished_of os))
  sort_outcomes_lem ((branch, inr e) ∷ os) fs rs = elim (Bool-cases (bypasses_breaker e)) [
    | inl b ↦ rw b
    | inr b ↦ rw b (
        sort_outcomes_lem os (fs ++ record { branch = branch; reason = error_text show e } ∷ []) rs
        ∙ rw (
            append_assoc fs (record { branch = branch; reason = error_text show e } ∷ [])
              (failures_of show os)))
  ]

  -- A parallel step comes to the first structural error of its branches, in declaration order; without
  -- one, to one error with every failure, in declaration order; and without any, to the join.
  pub settle_lem :
      (s : ParallelStep) (ctx : Context) (os : List BranchOutcome)
      → settle show s ctx os
        ≡ verdict s ctx (first_structural os) (failures_of show os) (finished_of os)
  unfolding settle
  settle_lem s ctx os =
      rw (sort_outcomes_lem os [] [])
        (all_succeeded-verdict s ctx (first_structural os) (failures_of show os) (finished_of os))

ok_context :
    {a b : Context} {t u : List String}
    → ◌≡◌ {A = Outcome (Context × List String)} (ok (a, t)) (ok (b, u))
    → a ≡ b
ok_context h = cc

merged_field :
    (s : ParallelStep) (ctx : Context) (rs : List Finished) (f : String) {after : Context}
    {trace : List String}
    → Settled s.step_id [] (written_values ctx rs) (join_branches s.step_id ctx rs nothing_joined)
    → (join_branches s.step_id ctx rs nothing_joined then merged ctx) ≡ ok (after, trace)
    → AgreeFrom none (written_values ctx rs f)
      × (lookup f after ≡ or_else (last_from none (written_values ctx rs f)) (lookup f ctx))
unfolding lookup
merged_field s ctx rs f {after = after} (inl (j, e, joined)) h = (
  joined.agree f,
  rw (← ok_context (rw e at h)) (lookup-merge f ctx j.joined ∙ rw (joined.last f)),
)
merged_field s ctx rs f (inr refused) h = absurd (cc (refused.is_conflict, h))

-- What a join of all branches gives a field.
pub record FieldJoined (show : Value → String) (ctx : Context) (os : List BranchOutcome)
    (after : Context) (f : String) : Type 0 where
  pub no_structural : first_structural os ≡ none
  pub no_failure : failures_of show os ≡ []
  pub agree : AgreeFrom none (written_values ctx (finished_of os) f)
  pub value :
      lookup f after
      ≡ or_else (last_from none (written_values ctx (finished_of os) f)) (lookup f ctx)

module _ (show : Value → String) (s : ParallelStep) (ctx : Context) (os : List BranchOutcome) where
  verdict-ok :
      (e : Option Err) (fs : List BranchFailure) {after : Context} {trace : List String}
      (f : String)
      → first_structural os ≡ e
      → failures_of show os ≡ fs
      → verdict s ctx e fs (finished_of os) ≡ ok (after, trace)
      → FieldJoined show ctx os after f
  verdict-ok (some e) fs f p q h = cc
  verdict-ok none (x ∷ fs) f p q h = cc
  verdict-ok none [] f p q h =
      let (agree, value) =
        merged_field s ctx (finished_of os) f (join_branches_lem s.step_id ctx (finished_of os))
          h in
      record { no_structural = p; no_failure = q; agree = agree; value = value }

  -- A parallel step that succeeds had no branch that failed in any way. For every field each value
  -- that a branch wrote is equal to the one that the branch before wrote, and the joined context has
  -- the last of them, or the field as it was where no branch wrote it.
  pub settle-FieldJoined :
      {after : Context} {trace : List String} (f : String)
      → settle show s ctx os ≡ ok (after, trace)
      → FieldJoined show ctx os after f
  settle-FieldJoined f h =
      verdict-ok (first_structural os) (failures_of show os) f refl refl (rw settle_lem at h)
