-- ===== src/Execution/Exec/Hoare.antt =====
-- What holds after a computation: one thing for its value, another after an error. Nothing is said of a
-- panic.
use cee.Prelude.{◌≡◌, refl, ◌⊎◌, inl, inr}
use cee.Execution.Errors.{Err}
use cee.Execution.Exec.{
  Exec, Outcome, ok, err, panic, pure, raise, attempt, caught, continue, ◌>>=◌,
}

abbrev pub Ends : {S A : Type 0} → (A → S → Type 0) → (S → Type 0) → Outcome A → S → Type 0
Ends K E (ok a) s = K a s
Ends K E (err e) s = E s
Ends K E (panic v) s = Unit

abbrev pub After : {S A : Type 0} → (A → S → Type 0) → (S → Type 0) → Exec S A → S → Type 0
After K E m s = Ends K E (m s).0 (m s).1

module _ {S A : Type 0} (K : A → S → Type 0) (E : S → Type 0) where
  pub After-pure : (a : A) (s : S) → K a s → After K E (pure a) s
  unfolding pure
  After-pure a s h = h

  pub After-raise : (e : Err) (s : S) → E s → After K E (raise e) s
  unfolding raise
  After-raise e s h = h

-- the value or the error of a call that is caught
abbrev pub Either : {S A : Type 0} → (A → S → Type 0) → (S → Type 0) → A ⊎ Err → S → Type 0
Either K E (inl a) s = K a s
Either K E (inr e) s = E s

module _ {S A : Type 0} (K : A → S → Type 0) (E F : S → Type 0) where
  caught-Either : (r : Outcome A) (s : S) → Ends K E r s → Ends (Either K E) F (caught r) s
  caught-Either (ok a) s h = h
  caught-Either (err e) s h = h
  caught-Either (panic v) s h = tt

  pub After-attempt : (m : Exec S A) (s : S) → After K E m s → After (Either K E) F (attempt m) s
  unfolding attempt
  After-attempt m s h = caught-Either (m s).0 (m s).1 h

module _ {S A B : Type 0} (J : A → S → Type 0) (K : B → S → Type 0) (E : S → Type 0) where
  continue-Ends :
      (r : Outcome A) (f : A → Exec S B) (s : S)
      → Ends J E r s
      → ((a : A) (s' : S) → J a s' → After K E (f a) s')
      → Ends K E (continue r f s).0 (continue r f s).1
  continue-Ends (ok a) f s h k = k a s h
  continue-Ends (err e) f s h k = h
  continue-Ends (panic v) f s h k = tt

  pub After-bind :
      (m : Exec S A) (f : A → Exec S B) (s : S)
      → After J E m s
      → ((a : A) (s' : S) → J a s' → After K E (f a) s')
      → After K E (m >>= f) s
  unfolding ◌>>=◌
  After-bind m f s h k = continue-Ends (m s).0 f (m s).1 h k

module _ {S A : Type 0} (J F : S → Type 0) where
  caught-any : (r : Outcome A) (s : S) → J s → Ends (λ x s'. J s') F (caught r) s
  caught-any (ok a) s h = h
  caught-any (err e) s h = h
  caught-any (panic v) s h = tt

  -- what holds however a caught call ends
  pub After-attempt_any : (m : Exec S A) (s : S) → J (m s).1 → After (λ x s'. J s') F (attempt m) s
  unfolding attempt
  After-attempt_any m s h = caught-any (m s).0 (m s).1 h

-- what is known of every outcome of a call
pub After-call :
    {S A : Type 0} (K : A → S → Type 0) (E : S → Type 0) (m : Exec S A) (s : S)
    → ((a : A) → (m s).0 ≡ ok a → K a (m s).1)
    → ((e : Err) → (m s).0 ≡ err e → E (m s).1)
    → After K E m s
After-call {S} {A} K E m s k f = ends (m s).0 k f
  where
    ends :
        (r : Outcome A)
        → ((a : A) → r ≡ ok a → K a (m s).1)
        → ((e : Err) → r ≡ err e → E (m s).1)
        → Ends K E r (m s).1
    ends (ok a) k f = k a refl
    ends (err e) k f = f e refl
    ends (panic v) k f = tt

module _ {S A : Type 0} (K J : A → S → Type 0) (E : S → Type 0) where
  Ends-weaken : (r : Outcome A) (s : S) → ((a : A) → K a s → J a s) → Ends K E r s → Ends J E r s
  Ends-weaken (ok a) s k h = k a h
  Ends-weaken (err e) s k h = h
  Ends-weaken (panic v) s k h = tt

  pub After-weaken :
      (m : Exec S A) (s : S) → ((a : A) (s' : S) → K a s' → J a s') → After K E m s → After J E m s
  After-weaken m s k h = Ends-weaken (m s).0 (m s).1 (λ a. k a (m s).1) h
