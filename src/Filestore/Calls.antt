-- ===== src/Filestore/Calls.antt =====
-- The error handling of filestore/filestore.go, seen from the calls that it wraps.
use cee.Prelude.{String, ◌≡◌, refl, none, ◌⊎◌, inl, inr}
use cee.Execution.Errors.{Err, wrap}
use cee.Execution.Exec.{Exec, attempt, pure, raise, ◌>>◌}
use cee.Execution.Exec.Hoare.{
  After, Either, After-attempt, After-bind, After-pure, After-raise, After-attempt_any,
}
use cee.Filestore.Files.{Disk}
use cee.Filestore.{
  check_pointer, wrapped, closing, or_missing, missing_or, decoded, with_pointer, ended, removing,
}

module _ {D : Type 0} (disk : Disk D) {A : Type 0} (K : A → D → Type 0) (E : D → Type 0) where
  pub After-wrapped :
      (prefix : String) (m : Exec D A) (d : D) → After K E m d → After K E (wrapped disk prefix m) d
  unfolding pure raise
  After-wrapped prefix m d h =
      After-bind (Either K E) K E (attempt m) _ d (After-attempt K E E m d h)
        λ r d' k. either r d' k
    where
      either :
          (r : A ⊎ Err) (d' : D)
          → Either K E r d'
          → After K E (elim r [ inl a ↦ pure a | inr e ↦ raise (wrap prefix e) ]) d'
      either (inl a) d' k = k
      either (inr e) d' k = k

  pub After-or_missing :
      (what pointer : String) (m : Exec D A) (d : D)
      → After K E m d
      → After K E (or_missing disk what pointer m) d
  unfolding pure raise
  After-or_missing what pointer m d h =
      After-bind (Either K E) K E (attempt m) _ d (After-attempt K E E m d h)
        λ r d' k. either r d' k
    where
      either :
          (r : A ⊎ Err) (d' : D)
          → Either K E r d'
          → After K E
              (elim r [ inl a ↦ pure a | inr e ↦ raise (missing_or disk what pointer e) ])
              d'
      either (inl a) d' k = k
      either (inr e) d' k = k

  pub After-decoded :
      (prefix : String) (x : A ⊎ Err) (d : D)
      → ((a : A) → x ≡ inl a → K a d)
      → E d
      → After K E (decoded disk prefix x) d
  unfolding pure raise
  After-decoded prefix (inl a) d k e = k a refl
  After-decoded prefix (inr f) d k e = e

  pub After-with_pointer :
      (pointer : String) (m : Exec D A) (d : D)
      → check_pointer pointer ≡ none
      → After K E m d
      → After K E (with_pointer disk pointer m) d
  After-with_pointer pointer m d h k = rw (h) k

module _ {D : Type 0} (disk : Disk D) (dir : String) (K : Unit {0} → D → Type 0)
    (E : D → Type 0) where
  pub After-removing :
      (temp : String) (m : Exec D (Unit {0})) (d : D)
      → ((u : Unit {0}) (d' : D) → K u d' → K u (disk.remove temp d').1)
      → ((d' : D) → E d' → E (disk.remove temp d').1)
      → After K E m d
      → After K E (removing disk dir temp m) d
  After-removing temp m d keeps_k keeps_e h =
      After-bind (Either K E) K E (attempt m) _ d (After-attempt K E E m d h) λ r d' k.
        After-bind (λ x s. Either K E r s) K E (attempt (disk.remove temp)) _ d'
          (After-attempt_any (λ s. Either K E r s) E (disk.remove temp) d' (kept r d' k))
          (λ x s j. ended_lem r s j)
    where
      kept :
          (r : (Unit {0}) ⊎ Err) (d' : D) → Either K E r d' → Either K E r (disk.remove temp d').1
      kept (inl u) d' k = keeps_k u d' k
      kept (inr e) d' k = keeps_e d' k

      ended_lem : (r : (Unit {0}) ⊎ Err) (s : D) → Either K E r s → After K E (ended disk dir r) s
      ended_lem (inl u) s j = After-pure K E u s j
      ended_lem (inr e) s j = After-raise K E e s j

  pub After-closing :
      (temp prefix : String) (m : Exec D (Unit {0})) (d : D)
      → ((d' : D) → E d' → E (disk.close temp d').1)
      → After K E m d
      → After K E (closing disk temp prefix m) d
  unfolding pure raise
  After-closing temp prefix m d keeps h =
      After-bind (Either K E) K E (attempt m) _ d (After-attempt K E E m d h)
        λ r d' k. either r d' k
    where
      either :
          (r : (Unit {0}) ⊎ Err) (d' : D)
          → Either K E r d'
          → After K E
              (elim r [
                | inl a ↦ pure a
                | inr e ↦ attempt (disk.close temp) >> raise (wrap prefix e)
              ])
              d'
      either (inl a) d' k = k
      either (inr e) d' k =
          After-bind (λ x s. E s) K E (attempt (disk.close temp)) _ d'
            (After-attempt_any E E (disk.close temp) d' (keeps d' k))
            (λ x s j. After-raise K E (wrap prefix e) s j)
