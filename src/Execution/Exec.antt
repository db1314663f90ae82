-- ===== src/Execution/Exec.antt =====
-- Go functions that change a state and end in a value, in an error or in a panic. What was changed
-- before an error or a panic stays changed.
pub mod Laws
pub mod Hoare
use cee.Prelude.{◌⊎◌, inl, inr}
use cee.Value.{Value}
use cee.Execution.Errors.{Err}

pub data Outcome {ℓ} (A : Type ℓ) : Type ℓ where
  ok : A → Outcome A
  err : Err → Outcome A
  panic : Value → Outcome A

-- the bind of results that need no state
infixl 5 ◌then◌
abbrev pub ◌then◌ : {A B : Type 0} → Outcome A → (A → Outcome B) → Outcome B
ok a then f = f a
err e then f = err e
panic v then f = panic v

abbrev pub Exec : Type 0 → Type 0 → Type 0
Exec S A = S → Outcome A × S

-- The value or the error of a call; a panic passes.
abbrev pub caught : {A : Type 0} → Outcome A → Outcome (A ⊎ Err)
caught (ok a) = ok (inl a)
caught (err e) = ok (inr e)
caught (panic v) = panic v

module _ {S A : Type 0} where
  unfoldable pub pure : A → Exec S A
  pure a s = (ok a, s)

  unfoldable pub raise : Err → Exec S A
  raise e s = (err e, s)

  unfoldable pub attempt : Exec S A → Exec S (A ⊎ Err)
  attempt m s = let (r, s') = m s in (caught r, s')

module _ {S A B : Type 0} where
  abbrev pub continue : Outcome A → (A → Exec S B) → Exec S B
  continue (ok a) f s = f a s
  continue (err e) f s = (err e, s)
  continue (panic v) f s = (panic v, s)

  infixl 5 ◌>>=◌ ◌>>◌
  unfoldable pub ◌>>=◌ : Exec S A → (A → Exec S B) → Exec S B
  unfolding pure raise attempt
  ◌>>=◌ m f s = let (r, s') = m s in continue r f s'

  abbrev pub ◌>>◌ : Exec S A → Exec S B → Exec S B
  m >> k = m >>= λ _. k
