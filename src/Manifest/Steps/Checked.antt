-- ===== src/Manifest/Steps/Checked.antt =====
-- What a step that was built is like.
use cee.Prelude.{
  ◌∙◌, sym, eq_refl, subst, if◌then◌else◌, ◌≢◌, String, ◌≡◌, refl, true, false, some, List, [], ◌∷◌,
  ◌⊎◌, inl, inr, ◌==◌, arith, eq_iff, has, Bool-cases,
}
use cee.Maps.{Map, lookup, insert, lookup-insert}
use cee.Execution.Errors.{Err}
use cee.Execution.Types.{Step, leaf, composite, parallel, step_id}
use cee.Execution.Engine.Stays.{on_success}
use cee.Stdlib.Actions.{Library}
use cee.Manifest.Specs.{StepSpec}
use cee.Manifest.Steps.{
  parallel_of, composite_of, leaf_of, Hooks, ◌and_then◌, check_branches, resolve_action, build_leaf,
  build_composite, build_parallel, build_step, build_steps,
}

-- No branch stands twice, and none is the empty id.
abbrev pub Distinct : List String → Type 0
Distinct [] = Unit
Distinct (b ∷ bs) = ((b == "") ≡ false) × (has b bs ≡ false) × Distinct bs

abbrev pub IsRunnable : {W : Type 0} → Step W → Type 0
IsRunnable (leaf s) = Unit
IsRunnable (composite s) = (s.sub_workflow_ref == "") ≡ false
IsRunnable (parallel s) = (s.branches ≢ []) × Distinct s.branches

-- A step that can stand under an id: its own, with references that are there.
abbrev pub StandsAt : {W : Type 0} → String → Step W → Type 0
StandsAt id step = (step_id step ≡ id) × IsRunnable step

-- The step that a specification describes.
abbrev pub IsBuilt : {W : Type 0} → StepSpec → Step W → Type 0
IsBuilt spec step = (on_success step ≡ spec.on_success) × StandsAt spec.step_id step

module _ (domain workflow : String) (spec : StepSpec) where
  check_branches_lem :
      (bs seen : List String) {u : Unit {0}}
      → check_branches domain workflow spec bs seen ≡ inl u
      → Distinct bs × ((x : String) → has x seen ≡ true → has x bs ≡ false)
  unfolding check_branches has
  check_branches_lem [] seen h = (tt, λ x p. refl)
  check_branches_lem (b ∷ bs) seen h = elim (Bool-cases (b == "")) [
    | inl e ↦ absurd (cc (rw e at h))
    | inr e ↦ elim (Bool-cases (has b seen)) [
      | inl q ↦ absurd (cc (rw (e, q) at h))
      | inr q ↦
          let (distinct, apart) = check_branches_lem bs (b ∷ seen) (rw (e, q) at h) in
          (
            (e, apart b (ground (arith, eq_refl b)), distinct),
            (λ x p. ground (arith, eq_iff b x, apart x)),
          )
    ]
  ]

-- the value behind two steps of which the second depends on the first
pub and_then-inl :
    {A B : Type 0} (x : A ⊎ Err) (f : A → B ⊎ Err) {b : B}
    → (x and_then f) ≡ inl b
    → (a : A) × (x ≡ inl a) × (f a ≡ inl b)
and_then-inl (inl a) f h = (a, refl, h)
and_then-inl (inr failure) f h = absurd (cc h)

some_injective : {A : Type 0} {x y : A} → some x ≡ some y → x ≡ y
some_injective h = cc

pub inl_injective : {A : Type 0} {x y : A} → ◌≡◌ {A = A ⊎ Err} (inl x) (inl y) → x ≡ y
inl_injective h = cc

module _ (domain workflow : String) (spec : StepSpec) {W : Type 0} (hooks : Hooks W)
    (std : Library W) where
  build_leaf-IsBuilt :
      {step : Step W} → build_leaf hooks std domain workflow spec ≡ inl step → IsBuilt spec step
  unfolding build_leaf step_id
  build_leaf-IsBuilt h =
      let (action, p, q) =
        and_then-inl (resolve_action hooks std domain workflow spec)
          (λ action. inl (leaf_of hooks std spec action)) h in
      let stands : StandsAt spec.step_id (leaf_of hooks std spec action) = (refl, tt) in
      subst (IsBuilt spec) (inl_injective q) (refl, stands)

  build_composite-IsBuilt :
      {step : Step W}
      → build_composite hooks std domain workflow spec ≡ inl step
      → IsBuilt spec step
  unfolding step_id
  build_composite-IsBuilt h = elim (Bool-cases (spec.sub_workflow_ref == "")) [
    | inl e ↦ absurd (cc (rw e at h))
    | inr e ↦
        let stands : StandsAt spec.step_id (composite_of hooks std spec) = (refl, e) in
        subst (IsBuilt spec) (inl_injective (rw e at h)) (refl, stands)
  ]

  build_parallel-IsBuilt :
      (bs : List String) {step : Step W}
      → spec.branches ≡ bs
      → build_parallel hooks std domain workflow spec bs ≡ inl step
      → IsBuilt spec step
  unfolding build_parallel step_id
  build_parallel-IsBuilt [] e h = absurd (cc h)
  build_parallel-IsBuilt (b ∷ bs) e h =
      let (u, p, q) =
        and_then-inl (check_branches domain workflow spec (b ∷ bs) [])
          (λ _. inl (parallel_of hooks std spec)) h in
      let (distinct, apart) = check_branches_lem domain workflow spec (b ∷ bs) [] p in
      let runnable : IsRunnable (parallel_of hooks std spec) =
        ((λ n. cc), subst Distinct (sym e) distinct) in
      let stands : StandsAt spec.step_id (parallel_of hooks std spec) = (refl, runnable) in
      subst (IsBuilt spec) (inl_injective q) (refl, stands)

  build_step-IsBuilt :
      {step : Step W} → build_step hooks std domain workflow spec ≡ inl step → IsBuilt spec step
  unfolding build_step
  build_step-IsBuilt h = elim (Bool-cases (spec.kind == "leaf")) [
    | inl a ↦ build_leaf-IsBuilt (rw a at h)
    | inr a ↦ elim (Bool-cases (spec.kind == "composite")) [
      | inl b ↦ build_composite-IsBuilt (rw (a, b) at h)
      | inr b ↦ elim (Bool-cases (spec.kind == "parallel")) [
        | inl c ↦ build_parallel-IsBuilt spec.branches refl (rw (a, b, c) at h)
        | inr c ↦ absurd (cc (rw (a, b, c) at h))
      ]
    ]
  ]

module _ {W : Type 0} (Q : String → Step W → Type 0) where
  -- every step that is found under an id
  abbrev pub AllFound : Map (Step W) → Type 0
  AllFound steps = (id : String) (step : Step W) → lookup id steps ≡ some step → Q id step

  insert-AllFound :
      (id : String) (step : Step W) (steps : Map (Step W))
      → Q id step
      → AllFound steps
      → AllFound (insert id step steps)
  insert-AllFound id step steps stands all other found h =
      let at_other : (if id == other then some step else lookup other steps) ≡ some found =
        sym (lookup-insert id other step steps) ∙ h in
      elim (Bool-cases (id == other)) [
        | inl e ↦
            subst (λ i. Q i found) ((eq_iff id other).0 e)
              (subst (Q id) (some_injective (rw e at at_other)) stands)
        | inr e ↦ all other found (rw e at at_other)
      ]

  -- what holds of each step that is built holds of each step that is found
  abbrev pub Describes : List StepSpec → Type 0
  Describes [] = Unit
  Describes (spec ∷ specs) =
      ((step : Step W) → IsBuilt spec step → Q spec.step_id step) × Describes specs

  pub build_steps-AllFound :
      (domain workflow : String) (hooks : Hooks W) (std : Library W) (specs : List StepSpec)
      (steps : Map (Step W)) {built : Map (Step W)}
      → Describes specs
      → AllFound steps
      → build_steps hooks std domain workflow specs steps ≡ inl built
      → AllFound built
  unfolding build_steps
  build_steps-AllFound domain workflow hooks std [] steps d all h =
      subst AllFound (inl_injective h) all
  build_steps-AllFound domain workflow hooks std (spec ∷ specs) steps d all h =
      let (step, p, q) =
        and_then-inl (build_step hooks std domain workflow spec)
          (λ step. build_steps hooks std domain workflow specs (insert spec.step_id step steps))
          h in
      build_steps-AllFound domain workflow hooks std specs (insert spec.step_id step steps) d.1
        (insert-AllFound spec.step_id step steps
          (d.0 step (build_step-IsBuilt domain workflow spec hooks std p)) all)
        q

-- every step that is found under an id can stand there
abbrev pub AllStand : {W : Type 0} → Map (Step W) → Type 0
AllStand {W} = AllFound {W = W} StandsAt

StandsAt-Describes : (W : Type 0) (specs : List StepSpec) → Describes {W = W} StandsAt specs
StandsAt-Describes W [] = tt
StandsAt-Describes W (spec ∷ specs) = ((λ step b. b.1), StandsAt-Describes W specs)

module _ (domain workflow : String) {W : Type 0} (hooks : Hooks W) (std : Library W) where
  pub build_steps-AllStand :
      (specs : List StepSpec) (steps : Map (Step W)) {built : Map (Step W)}
      → AllStand steps
      → build_steps hooks std domain workflow specs steps ≡ inl built
      → AllStand built
  build_steps-AllStand specs steps all h =
      build_steps-AllFound StandsAt domain workflow hooks std specs steps
        (StandsAt-Describes W specs) all h
