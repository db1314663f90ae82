-- ===== src/Stdlib/Actions/Verified.antt =====
-- `std.require_verified`: an action that needs a field refuses one that a model derived.
use cee.Prelude.{String, ◌≡◌, refl, false, List, [], ◌∷◌, ◌↔◌, has, Bool-cases, inl, inr}
use cee.Value.{Context}
use cee.Execution.Exec.{Outcome, ok}
use cee.Stdlib.Actions.{verify, verified, guessed, provenance_of}

-- none of the fields is among the names
abbrev pub NoneOf : List String → List String → Type 0
NoneOf names [] = Unit
NoneOf names (field ∷ fields) = (has field names ≡ false) × NoneOf names fields

guessed-nil : (names fields : List String) → (guessed names fields ≡ []) ↔ NoneOf names fields
unfolding guessed
guessed-nil names [] = ((λ h. tt), (λ h. refl))
guessed-nil names (field ∷ fields) = elim (Bool-cases (has field names)) [
  | inl b ↦ rw b ((λ h. cc), (λ h. absurd (cc h.0)))
  | inr b ↦
      rw b ((λ h. (refl, (guessed-nil names fields).0 h)), (λ h. (guessed-nil names fields).1 h.1))
]

verified-nil :
    {W : Type 0} (names : List String) (w : W)
    → (◌≡◌ {A = Outcome Context × W} (verified names, w) (ok [], w)) ↔ (names ≡ [])
verified-nil [] w = ((λ h. refl), (λ h. refl))
verified-nil (name ∷ names) w = ((λ h. absurd (cc h)), (λ h. absurd (cc h)))

pub verify_lem :
    {W : Type 0} (fields : List String) (ctx : Context) (w : W)
    → (verify fields ctx w ≡ (ok [], w)) ↔ NoneOf (provenance_of ctx) fields
unfolding verify
verify_lem fields ctx w =
    let empty = verified-nil (guessed (provenance_of ctx) fields) w in
    let none_of = guessed-nil (provenance_of ctx) fields in
    ((λ h. none_of.0 (empty.0 h)), (λ h. empty.1 (none_of.1 h)))
