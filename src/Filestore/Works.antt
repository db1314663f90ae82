-- ===== src/Filestore/Works.antt =====
-- Calls of filestore/filestore.go that end in a value.
use cee.Prelude.{String, Bool, true, if◌then◌else◌, ◌≡◌, ap, ◌∙◌, none, ◌⊎◌, inl}
use cee.Execution.Errors.{Err, wrap}
use cee.Execution.Exec.{err, raise, Exec, ok, attempt, pure, ◌>>=◌}
use cee.Execution.Exec.Laws.{attempt_err, bind_ok, attempt_ok}
use cee.Execution.MemoryStore.{no_such_pointer}
use cee.Filestore.Files.{Disk}
use cee.Filestore.{check_pointer, wrapped, closing, or_missing, decoded, with_pointer}

-- the call ends in a value, with which this holds of what it leaves
abbrev pub Works : {S A : Type 0} → (A → S → Type 0) → Exec S A → S → Type 0
Works {S} {A} K m s = (a : A) × (s' : S) × (m s ≡ (ok a, s')) × K a s'

module _ {S A B : Type 0} (J : A → S → Type 0) (K : B → S → Type 0) where
  pub Works-bind :
      (m : Exec S A) (f : A → Exec S B) (s : S)
      → Works J m s
      → ((a : A) (s' : S) → J a s' → Works K (f a) s')
      → Works K (m >>= f) s
  Works-bind m f s (a, s₁, e, j) k =
      let (b, s₂, e', q) = k a s₁ j in (b, s₂, bind_ok m f s s₁ e ∙ e', q)

-- what is known of the value of a call, and what it leaves
pub Works-call :
    {S A : Type 0} (K : A → S → Type 0) (m : Exec S A) (s : S) (a : A)
    → (m s).0 ≡ ok a
    → K a (m s).1
    → Works K m s
Works-call K m s a e k = (a, (m s).1, ap (λ r. (r, (m s).1)) e, k)

pub attempt_left :
    {S A : Type 0} (m : Exec S A) (s : S) (r : A ⊎ Err)
    → (attempt m s).0 ≡ ok r
    → attempt m s ≡ (ok r, (m s).1)
unfolding attempt
attempt_left m s r e = ap (λ x. (x, (m s).1)) e

module _ {D : Type 0} (disk : Disk D) {A : Type 0} (K : A → D → Type 0) where
  pub Works-wrapped :
      (prefix : String) (m : Exec D A) (d : D) → Works K m d → Works K (wrapped disk prefix m) d
  unfolding pure
  Works-wrapped prefix m d (a, d', e, k) =
      (a, d', bind_ok (attempt m) _ d d' (attempt_ok m d d' e), k)

  pub Works-or_missing :
      (what pointer : String) (m : Exec D A) (d : D)
      → Works K m d
      → Works K (or_missing disk what pointer m) d
  unfolding pure
  Works-or_missing what pointer m d (a, d', e, k) =
      (a, d', bind_ok (attempt m) _ d d' (attempt_ok m d d' e), k)

  pub Works-decoded :
      (prefix : String) (x : A ⊎ Err) (d : D) (a : A)
      → x ≡ inl a
      → K a d
      → Works K (decoded disk prefix x) d
  unfolding pure
  Works-decoded prefix x d a e k = (a, d, ap (λ y. decoded disk prefix y d) e, k)

  pub Works-with_pointer :
      (pointer : String) (m : Exec D A) (d : D)
      → check_pointer pointer ≡ none
      → Works K m d
      → Works K (with_pointer disk pointer m) d
  Works-with_pointer pointer m d h k = rw (h) k

module _ {D : Type 0} (disk : Disk D) (K : Unit {0} → D → Type 0) where
  pub Works-closing :
      (temp prefix : String) (m : Exec D (Unit {0})) (d : D)
      → Works K m d
      → Works K (closing disk temp prefix m) d
  unfolding pure
  Works-closing temp prefix m d (a, d', e, k) =
      (a, d', bind_ok (attempt m) _ d d' (attempt_ok m d d' e), k)

module _ {D : Type 0} (disk : Disk D) {A : Type 0} where
  pub or_missing-gone :
      (what pointer : String) (m : Exec D A) (d : D) (e : Err)
      → (m d).0 ≡ err e
      → disk.is_not_exist e ≡ true
      → or_missing disk what pointer m d ≡ (err (no_such_pointer pointer), (m d).1)
  unfolding raise
  or_missing-gone what pointer m d e fails missing =
      let d' = (m d).1 in
      bind_ok (attempt m) _ d d' (attempt_err m d d' (ap (λ r. (r, d')) fails))
      ∙ ap (λ (b : Bool). (err (if b then no_such_pointer pointer else wrap what e), d')) missing
