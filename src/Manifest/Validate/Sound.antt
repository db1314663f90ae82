-- ===== src/Manifest/Validate/Sound.antt =====
-- What a step that is reported without an error is good for.
use cee.Prelude.{
  String, ◌≡◌, refl, true, none, some, List, [], ◌∷◌, ◌++◌, inl, inr, ◌==◌, has, Bool-cases,
  Option-cases, ⊎-cases, arith,
}
use cee.Maps.{Map, lookup}
use cee.Value.{Value}
use cee.Execution.Types.{Action, Step}
use cee.Stdlib.Actions.{Library}
use cee.Manifest.Specs.{StepSpec}
use cee.Manifest.Steps.{
  Hooks, check_branches, resolve_action, build_leaf, build_parallel, build_step, leaf_of,
  composite_of, parallel_of,
}
use cee.Manifest.Validate.{
  Issue, is_error, is_ok, branch_fault, branch_issues, on_success_issues, compensation_issues,
  breaker_issues, action_issues, leaf_issues, composite_issues, parallel_issues, kind_issues, place,
  single, validate_step,
}

pub is_ok-append :
    (xs ys : List Issue) → is_ok (xs ++ ys) ≡ true → (is_ok xs ≡ true) × (is_ok ys ≡ true)
unfolding is_ok
is_ok-append [] ys h = (refl, h)
is_ok-append (x ∷ xs) ys h = elim (Bool-cases (is_error x.severity)) [
  | inl e ↦ absurd (cc (rw e at h))
  | inr e ↦ let (p, q) = is_ok-append xs ys (rw e at h) in (rw e p, q)
]

-- branches without an issue pass the check of the loader
branch_issues-check_branches :
    (domain workflow place : String) (s : StepSpec) (ids bs seen : List String)
    → is_ok (branch_issues place ids bs seen) ≡ true
    → check_branches domain workflow s bs seen ≡ inl tt
unfolding branch_issues branch_fault check_branches is_ok
branch_issues-check_branches domain workflow place s ids [] seen h = refl
branch_issues-check_branches domain workflow place s ids (b ∷ bs) seen h =
    let (here, later) =
      is_ok-append (branch_fault place ids seen b) (branch_issues place ids bs (b ∷ seen)) h in
    let ih = branch_issues-check_branches domain workflow place s ids bs (b ∷ seen) later in
    elim (Bool-cases (b == "")) [
      | inl e ↦ absurd (cc (rw e at here))
      | inr e ↦ elim (Bool-cases (has b ids)) [
        | inr k ↦ absurd (cc (rw (e, k) at here))
        | inl k ↦ elim (Bool-cases (has b seen)) [
          | inl q ↦ absurd (cc (rw (e, k, q) at here))
          | inr q ↦ rw (e, q) ih
        ]
      ]
    ]

module _ {W : Type 0} (show : Value → String) (std : Library W) (workflow_id : String)
    (step_ids workflow_ids : List String) (policy_fallbacks : Map String) (s : StepSpec)
    (hooks : Hooks W) (domain : String) where
  -- the action that the hooks must have for a leaf step, if the standard library does not
  abbrev pub Provided : Type 0
  Provided =
      (s.kind == "leaf") ≡ true
      → lookup s.action_ref std ≡ none
      → (a : Action W) × (lookup s.action_ref hooks ≡ some a)

  abbrev Built : Type 0
  Built = (step : Step W) × (build_step hooks std domain workflow_id s ≡ inl step)

  action_issues-resolve_action :
      is_ok (action_issues show std workflow_id step_ids workflow_ids policy_fallbacks s) ≡ true
      → (lookup s.action_ref std ≡ none → (a : Action W) × (lookup s.action_ref hooks ≡ some a))
      → (a : Action W) × (resolve_action hooks std domain workflow_id s ≡ inl a)
  unfolding action_issues resolve_action is_ok
  action_issues-resolve_action h provided = elim (Option-cases (lookup s.action_ref std)) [
    | inl n ↦ let (a, p) = provided n in (a, ground arith)
    | inr (factory, f) ↦ elim (⊎-cases (factory s.params)) [
      | inl (a, p) ↦ (a, ground arith)
      | inr (failure, p) ↦ absurd (ground arith)
    ]
  ]

  parallel_issues-build_parallel :
      (bs : List String)
      → is_ok (parallel_issues show std workflow_id step_ids workflow_ids policy_fallbacks s bs)
        ≡ true
      → build_parallel hooks std domain workflow_id s bs ≡ inl (parallel_of hooks std s)
  unfolding parallel_issues build_parallel is_ok
  parallel_issues-build_parallel [] h = absurd (cc h)
  parallel_issues-build_parallel (b ∷ bs) h =
      let named = place show std workflow_id step_ids workflow_ids policy_fallbacks s in
      let (p, q) =
        is_ok-append (branch_issues named workflow_ids (b ∷ bs) []) (single named (b ∷ bs)) h in
      rw (branch_issues-check_branches domain workflow_id named s workflow_ids (b ∷ bs) [] p) refl

  kind_issues-build_step :
      is_ok (kind_issues show std workflow_id step_ids workflow_ids policy_fallbacks s) ≡ true
      → Provided
      → Built
  unfolding kind_issues build_step leaf_issues composite_issues build_leaf is_ok
  kind_issues-build_step h provided = elim (Bool-cases (s.kind == "leaf")) [
    | inl a ↦ elim (Bool-cases (s.action_ref == "")) [
      | inl e ↦ absurd (cc (rw (a, e) at h))
      | inr e ↦
          let (action, p) = action_issues-resolve_action (rw (a, e) at h) (provided a) in
          (leaf_of hooks std s action, rw (a, p) refl)
    ]
    | inr a ↦ elim (Bool-cases (s.kind == "composite")) [
      | inl b ↦ elim (Bool-cases (s.sub_workflow_ref == "")) [
        | inl e ↦ absurd (cc (rw (a, b, e) at h))
        | inr e ↦ (composite_of hooks std s, rw (a, b, e) refl)
      ]
      | inr b ↦ elim (Bool-cases (s.kind == "parallel")) [
        | inl c ↦ (
          parallel_of hooks std s,
          rw (a, b, c) (parallel_issues-build_parallel s.branches (rw (a, b, c) at h)),
        )
        | inr c ↦ absurd (cc (rw (a, b, c) at h))
      ]
    ]
  ]

  -- A step that is reported without an error is built by the loader with the same library, if the
  -- hooks have, for a leaf step, the action that it names where the library does not.
  pub validate_step-build_step :
      is_ok (validate_step show std workflow_id step_ids workflow_ids policy_fallbacks s) ≡ true
      → Provided
      → (step : Step W) × (build_step hooks std domain workflow_id s ≡ inl step)
  unfolding validate_step
  validate_step-build_step h provided =
      let success =
        on_success_issues show std workflow_id step_ids workflow_ids policy_fallbacks s in
      let undo =
        compensation_issues show std workflow_id step_ids workflow_ids policy_fallbacks s in
      let breaker = breaker_issues show std workflow_id step_ids workflow_ids policy_fallbacks s in
      let kind = kind_issues show std workflow_id step_ids workflow_ids policy_fallbacks s in
      let (a, rest) = is_ok-append success (undo ++ (breaker ++ kind)) h in
      let (b, rest') = is_ok-append undo (breaker ++ kind) rest in
      let (c, d) = is_ok-append breaker kind rest' in kind_issues-build_step d provided
