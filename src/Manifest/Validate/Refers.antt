-- ===== src/Manifest/Validate/Refers.antt =====
-- What the references of a step that is reported without an error refer to.
use cee.Prelude.{
  String, ◌≡◌, refl, Bool, true, false, some, List, [], ◌++◌, ◌⊎◌, inl, inr, ◌==◌, ◌||◌, has,
  Bool-cases, Option-cases, not, ◌&&◌, if◌then◌else◌, arith,
}
use cee.Maps.{Map, lookup}
use cee.Value.{Value}
use cee.Stdlib.Actions.{Library}
use cee.Manifest.Specs.{StepSpec}
use cee.Manifest.Validate.Sound.{is_ok-append}
use cee.Manifest.Validate.{
  is_ok, errf, on_success_issues, compensation_issues, breaker_issues, kind_issues, validate_step,
}

-- an id that is empty or among the ids
abbrev pub Known : List String → String → Type 0
Known ids id = ((id == "") ≡ true) ⊎ (has id ids ≡ true)

-- a compensation that a step may name
abbrev pub MayUndo : List String → StepSpec → Type 0
MayUndo ids s =
    ((s.compensate_with == "") ≡ true)
    ⊎ ((has s.compensate_with ids ≡ true)
        × ((s.compensate_with == s.step_id) ≡ false)
        × ((s.kind == "composite" || s.kind == "parallel") ≡ false))

-- a policy that a step may name: one whose fallback is known
abbrev pub MayFallBack : List String → Map String → StepSpec → Type 0
MayFallBack ids fallbacks s =
    ((s.circuit_breaker_policy_ref == "") ≡ true)
    ⊎ ((fallback : String) × (lookup s.circuit_breaker_policy_ref fallbacks ≡ some fallback)
        × Known ids fallback)

-- an issue is reported unless the test holds
unless_lem :
    (b : Bool) (label : String) (what : List String)
    → is_ok (if b then errf label what else []) ≡ true
    → b ≡ false
unfolding is_ok
unless_lem true label what h = absurd (cc h)
unless_lem false label what h = refl

Known_lem :
    (ids : List String) (id : String) → (not (id == "") && not (has id ids)) ≡ false → Known ids id
Known_lem ids id h = elim (Bool-cases (id == "")) [
  | inl e ↦ inl e
  | inr e ↦ elim (Bool-cases (has id ids)) [ inl k ↦ inr k | inr k ↦ absurd (cc (rw (e, k) at h)) ]
]

module _ {W : Type 0} (show : Value → String) (std : Library W) (workflow_id : String)
    (step_ids workflow_ids : List String) (policy_fallbacks : Map String) (s : StepSpec) where
  on_success_issues-Known :
      is_ok (on_success_issues show std workflow_id step_ids workflow_ids policy_fallbacks s) ≡ true
      → Known step_ids s.on_success
  unfolding on_success_issues
  on_success_issues-Known h = Known_lem step_ids s.on_success (unless_lem _ _ _ h)

  compensation_issues-MayUndo :
      is_ok (compensation_issues show std workflow_id step_ids workflow_ids policy_fallbacks s)
        ≡ true
      → MayUndo step_ids s
  unfolding compensation_issues is_ok
  compensation_issues-MayUndo h = elim (Bool-cases (s.compensate_with == "")) [
    | inl e ↦ inl e
    | inr e ↦ elim (Bool-cases (has s.compensate_with step_ids)) [
      | inr k ↦ absurd (cc (rw (e, k) at h))
      | inl k ↦ elim (Bool-cases (s.compensate_with == s.step_id)) [
        | inl i ↦ absurd (cc (rw (e, k, i) at h))
        | inr i ↦ elim (Bool-cases (s.kind == "composite" || s.kind == "parallel")) [
          | inl m ↦ absurd (cc (rw (e, k, i, m) at h))
          | inr m ↦ inr (k, i, m)
        ]
      ]
    ]
  ]

  breaker_issues-MayFallBack :
      is_ok (breaker_issues show std workflow_id step_ids workflow_ids policy_fallbacks s) ≡ true
      → MayFallBack step_ids policy_fallbacks s
  unfolding breaker_issues is_ok
  breaker_issues-MayFallBack h = elim (Bool-cases (s.circuit_breaker_policy_ref == "")) [
    | inl e ↦ inl e
    | inr e ↦ elim (Option-cases (lookup s.circuit_breaker_policy_ref policy_fallbacks)) [
      | inl n ↦ absurd (ground arith)
      | inr (fallback, f) ↦ inr (fallback, f, Known_lem step_ids fallback (ground arith))
    ]
  ]

  -- A step that is reported without an error goes on at a step of its workflow or ends the run, is
  -- undone, if at all, by another step of its workflow and only if it is a leaf step, and names, if
  -- any, a declared policy whose fallback step is one of its workflow or empty.
  pub validate_step-Refers :
      is_ok (validate_step show std workflow_id step_ids workflow_ids policy_fallbacks s) ≡ true
      → Known step_ids s.on_success × MayUndo step_ids s × MayFallBack step_ids policy_fallbacks s
  unfolding validate_step
  validate_step-Refers h =
      let success =
        on_success_issues show std workflow_id step_ids workflow_ids policy_fallbacks s in
      let undo =
        compensation_issues show std workflow_id step_ids workflow_ids policy_fallbacks s in
      let breaker = breaker_issues show std workflow_id step_ids workflow_ids policy_fallbacks s in
      let kind = kind_issues show std workflow_id step_ids workflow_ids policy_fallbacks s in
      let (a, rest) = is_ok-append success (undo ++ (breaker ++ kind)) h in
      let (b, rest') = is_ok-append undo (breaker ++ kind) rest in
      let (c, d) = is_ok-append breaker kind rest' in
      (on_success_issues-Known a, compensation_issues-MayUndo b, breaker_issues-MayFallBack c)
