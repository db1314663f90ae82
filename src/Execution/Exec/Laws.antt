-- ===== src/Execution/Exec/Laws.antt =====
-- Taking a computation apart at its first step.
use cee.Prelude.{true, false, if◌then◌else◌, Bool, subst, ◌⊎◌, ◌≡◌, refl, inl, inr}
use cee.Value.{Value}
use cee.Execution.Errors.{Err}
use cee.Execution.Exec.{
  raise, caught, Outcome, ok, err, panic, continue, Exec, pure, attempt, ◌>>=◌,
}

module _ {S A B : Type 0} where
  -- The outcome of `continue` at a state-passing pair.
  continue-eq-ok :
      (r : Outcome A) (s' : S) (f : A → Exec S B) {b : B}
      → (continue r f s').0 ≡ ok b
      → (a : A) × (r ≡ ok a) × ((f a s').0 ≡ ok b)
  continue-eq-ok (ok a) s' f h = (a, refl, h)
  continue-eq-ok (err e) s' f h = cc
  continue-eq-ok (panic v) s' f h = cc

  -- A sequence that returned: its first part returned, and so did the rest from there.
  pub >>=-eq-ok :
      (m : Exec S A) (f : A → Exec S B) (s : S) {b : B}
      → ((m >>= f) s).0 ≡ ok b
      → (a : A) × ((m s).0 ≡ ok a) × ((f a (m s).1).0 ≡ ok b)
  unfolding ◌>>=◌
  >>=-eq-ok m f s h = continue-eq-ok (m s).0 (m s).1 f h

  -- What a sequence does once its first part is known.
  pub bind_ok :
      (m : Exec S A) (f : A → Exec S B) (s s' : S) {a : A} → m s ≡ (ok a, s') → (m >>= f) s ≡ f a s'
  unfolding ◌>>=◌
  bind_ok m f s s' h = rw h

  pub bind_err :
      (m : Exec S A) (f : A → Exec S B) (s s' : S) {e : Err}
      → m s ≡ (err e, s')
      → (m >>= f) s ≡ (err e, s')
  unfolding ◌>>=◌
  bind_err m f s s' h = rw h

  pub bind_panic :
      (m : Exec S A) (f : A → Exec S B) (s s' : S) {v : Value}
      → m s ≡ (panic v, s')
      → (m >>= f) s ≡ (panic v, s')
  unfolding ◌>>=◌
  bind_panic m f s s' h = rw h

module _ {S A : Type 0} where
  pub attempt_ok :
      (m : Exec S A) (s s' : S) {a : A} → m s ≡ (ok a, s') → attempt m s ≡ (ok (inl a), s')
  unfolding attempt
  attempt_ok m s s' h = rw h

  pub attempt_err :
      (m : Exec S A) (s s' : S) {e : Err} → m s ≡ (err e, s') → attempt m s ≡ (ok (inr e), s')
  unfolding attempt
  attempt_err m s s' h = rw h

  pub attempt_panic :
      (m : Exec S A) (s s' : S) {v : Value} → m s ≡ (panic v, s') → attempt m s ≡ (panic v, s')
  unfolding attempt
  attempt_panic m s s' h = rw h

  pub pure-eq-ok : (a : A) (s : S) {b : A} → (pure a s).0 ≡ ok b → a ≡ b
  unfolding pure
  pure-eq-ok a s h = cc

-- An outcome that is no error: a value or a panic.
abbrev pub NoErr : {A : Type 0} → Outcome A → Type 0
NoErr (ok a) = Unit
NoErr (err e) = ⊥
NoErr (panic v) = Unit

pub NoErr-cases :
    {A : Type 0} (r : Outcome A) → NoErr r → ((a : A) × (r ≡ ok a)) ⊎ ((v : Value) × (r ≡ panic v))
NoErr-cases (ok a) h = inl (a, refl)
NoErr-cases (err e) h = absurd h
NoErr-cases (panic v) h = inr (v, refl)

NoErr-caught : {A : Type 0} (r : Outcome A) → NoErr (caught r)
NoErr-caught (ok a) = tt
NoErr-caught (err e) = tt
NoErr-caught (panic v) = tt

pub attempt-NoErr : {S A : Type 0} (m : Exec S A) (s : S) → NoErr (attempt m s).0
unfolding attempt
attempt-NoErr m s = NoErr-caught (m s).0

module _ {S A B : Type 0} where
  continue-NoErr :
      (r : Outcome A) (f : A → Exec S B) (s : S)
      → NoErr r
      → ((a : A) (s : S) → NoErr (f a s).0)
      → NoErr (continue r f s).0
  continue-NoErr (ok a) f s h k = k a s
  continue-NoErr (err e) f s h k = h
  continue-NoErr (panic v) f s h k = tt

  pub bind-NoErr :
      (m : Exec S A) (f : A → Exec S B) (s : S)
      → NoErr (m s).0
      → ((a : A) (s : S) → NoErr (f a s).0)
      → NoErr ((m >>= f) s).0
  unfolding ◌>>=◌
  bind-NoErr m f s h k = continue-NoErr (m s).0 f (m s).1 h k

-- Whatever value the computation returns, it returns it in a state that fits it.
abbrev pub Ensures : {S A : Type 0} → (A → S → Type 0) → Exec S A → Type 0
Ensures {S} {A} Q c = (s : S) (a : A) → (c s).0 ≡ ok a → Q a (c s).1

module _ {S A : Type 0} (Q : A → S → Type 0) where
  pub Ensures-pure : (a : A) → ((s : S) → Q a s) → Ensures Q (pure a)
  unfolding pure
  Ensures-pure a h s b p = subst (λ x. Q x s) (pure-eq-ok a s p) (h s)

  pub Ensures-raise : (e : Err) → Ensures Q (raise e)
  unfolding raise
  Ensures-raise e s b p = absurd (cc p)

module _ {S A B : Type 0} (R : A → S → Type 0) (Q : B → S → Type 0) where
  continue-Ensures :
      (r : Outcome A) (f : A → Exec S B) (s : S)
      → ((a : A) → r ≡ ok a → R a s)
      → ((a : A) → R a s → (b : B) → (f a s).0 ≡ ok b → Q b (f a s).1)
      → (b : B) → (continue r f s).0 ≡ ok b
      → Q b (continue r f s).1
  continue-Ensures (ok a) f s h k b p = k a (h a refl) b p
  continue-Ensures (err e) f s h k b p = absurd (cc p)
  continue-Ensures (panic v) f s h k b p = absurd (cc p)

  pub Ensures-bind_of :
      (c : Exec S A) (f : A → Exec S B)
      → Ensures R c
      → ((a : A) (s : S) → R a s → (b : B) → (f a s).0 ≡ ok b → Q b (f a s).1)
      → Ensures Q (c >>= f)
  unfolding ◌>>=◌
  Ensures-bind_of c f h k s b p = continue-Ensures (c s).0 f (c s).1 (h s) (λ a. k a (c s).1) b p

-- A sequence whose last part ensures the claim, whatever came before.
pub Ensures-bind :
    {S A B : Type 0} (Q : B → S → Type 0) (c : Exec S A) (f : A → Exec S B)
    → ((a : A) → Ensures Q (f a))
    → Ensures Q (c >>= f)
Ensures-bind Q c f h =
    Ensures-bind_of (λ a s. Unit {0}) Q c f (λ s a p. tt) (λ a s u b p. h a s b p)

pub ok-injective : {A : Type 0} {a b : A} → ◌≡◌ {A = Outcome A} (ok a) (ok b) → a ≡ b
ok-injective h = cc

pub Ensures-if :
    {S A : Type 0} (Q : A → S → Type 0) (b : Bool) (c d : Exec S A)
    → Ensures Q c
    → Ensures Q d
    → Ensures Q (if b then c else d)
Ensures-if Q true c d hc hd = hc
Ensures-if Q false c d hc hd = hd

pub caught-ok : {A : Type 0} (r : Outcome A) {a : A} → caught r ≡ ok (inl a) → r ≡ ok a
caught-ok (ok b) p = cc
caught-ok (err f) p = absurd (cc p)
caught-ok (panic v) p = absurd (cc p)
