-- ===== src/Execution/Contract/Claims.antt =====
-- Claims of one pointer, one after another, as the resumes of a run make them.
use cee.Prelude.{
  ℕ, zero, suc, ◌+◌, ◌≤◌, String, ◌≡◌, refl, ap, ◌∙◌, Option, none, some, ◌⊎◌, inl, inr, arith,
  eq_refl,
}
use cee.Maps.{Map, lookup, remove, lookup-remove}
use cee.Execution.Errors.{Err}
use cee.Execution.Exec.{Exec, attempt, pure, ◌>>=◌}
use cee.Execution.Exec.Hoare.{After, Either, After-attempt, After-bind, After-pure, After-weaken}
use cee.Execution.Types.{State, Store}
use cee.Execution.Contract.{IsStore, Consumed, MayBeTaken}

abbrev pub won : {A : Type 0} → A ⊎ Err → ℕ
won (inl a) = 1
won (inr e) = 0

-- how many of so many claims return the state
unfoldable pub claims : {S : Type 0} → Store S → String → ℕ → Exec S ℕ
claims store pointer zero = pure 0
claims store pointer (suc n) =
    attempt (store.consume pointer) >>= λ r. claims store pointer n >>= λ k. pure (won r + k)

module _ {S : Type 0} (Takes : String → Type 0) (Keeps : State → State → Type 0)
    (Holds : S → Map State → Type 0) (store : Store S) (is : IsStore Takes Keeps Holds store)
    (pointer : String) (p : Takes pointer) where
  -- the claims that a map has left
  abbrev left_of : Option State → ℕ
  left_of none = 0
  left_of (some state) = 1

  abbrev left : Map State → ℕ
  left states = left_of (lookup pointer states)

  left-remove : (states : Map State) → left (remove pointer states) ≡ 0
  left-remove states =
      let gone : lookup pointer (remove pointer states) ≡ none =
        lookup-remove pointer pointer states ∙ rw (eq_refl pointer) refl in
      ap left_of gone

  abbrev AtMost : ℕ → ℕ → S → Type 0
  AtMost bound k s = k ≤ bound

  abbrev Never : S → Type 0
  Never s = ⊥

  -- the claims that are still to come win at most once for what is left
  abbrev Bounded : ℕ → Type 0
  Bounded n =
      (states : Map State) (s : S)
      → Holds s states
      → After (AtMost (left states)) Never (claims store pointer n) s

  module _ (n : ℕ) (rest : Bounded n) (states : Map State) where
    abbrev Counted : State ⊎ Err → S → Type 0
    Counted r s =
        After (AtMost (left states)) Never (claims store pointer n >>= λ k. pure (won r + k)) s

    added :
        (r : State ⊎ Err) (states1 : Map State) (s : S)
        → Holds s states1
        → won r + left states1 ≤ left states
        → Counted r s
    added r states1 s h fits =
        After-bind (AtMost (left states1)) (AtMost (left states)) Never _ _ s (rest states1 s h)
          λ k s2 bound. After-pure (AtMost (left states)) Never (won r + k) s2 (omega arith)

    counted :
        (r : State ⊎ Err) (s : S)
        → Either
            (Consumed Takes Keeps Holds pointer states)
            (MayBeTaken Takes Keeps Holds pointer states)
            r
            s
        → Counted r s
    counted (inl state) s (held, h) =
        let one : left states ≡ 1 = ap left_of held in
        let no = left-remove states in added (inl state) (remove pointer states) s h (omega arith)
    counted (inr e) s (inl h) = added (inr e) states s h (omega arith)
    counted (inr e) s (inr h) =
        let no = left-remove states in added (inr e) (remove pointer states) s h (omega arith)

  claims-Bounded : (n : ℕ) → Bounded n
  unfolding claims
  claims-Bounded zero states s h = After-pure _ Never 0 s (omega arith)
  claims-Bounded (suc n) states s h =
      let K = Consumed Takes Keeps Holds pointer states in
      let E = MayBeTaken Takes Keeps Holds pointer states in
      After-bind (Either K E) (AtMost (left states)) Never _ _ s
        (After-attempt K E Never (store.consume pointer) s (is.consumes pointer states s p h))
        λ r s1 k. counted n (claims-Bounded n) states r s1 k

  left_bound : (o : Option State) → left_of o ≤ 1
  left_bound none = omega arith
  left_bound (some state) = omega arith

  -- However often a pointer is claimed, one claim after another, at most one of them returns the state.
  pub claims_bound :
      (n : ℕ) (states : Map State) (s : S)
      → Holds s states
      → After (AtMost 1) Never (claims store pointer n) s
  claims_bound n states s h =
      let bound = left_bound (lookup pointer states) in
      After-weaken (AtMost (left states)) (AtMost 1) Never (claims store pointer n) s
        (λ k s2 fits. omega arith) (claims-Bounded n states s h)
