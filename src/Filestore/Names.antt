-- ===== src/Filestore/Names.antt =====
-- The names of claims, and `pointerFromClaim` of filestore/filestore.go.
use Prim.Native.String.{String, ◌∷◌, [], ◌++◌}
use Prim.Native.Char.{Char, code}
use Prim.Native.Nat.{ℕ}
use mathlib.Core.Bool.{true, false}
use mathlib.Core.Option.{Option, none, some}
use mathlib.Core.Path.{◌≡◌, refl, ap, sym, ◌∙◌}
use mathlib.Core.Logic.{inl, inr}
use native.Mathlib.Omega.{arith}
use text.Mathlib.Text.{◌==◌}
use text.Mathlib.TextEquality.{eq_iff}
use text.Mathlib.TextLemmas.{append_cancel_right, nil-append, cons-append}
use cee.Prelude.{has_char, eqb, if◌then◌else◌, Bool-cases}

abbrev pub claim_ext : String
claim_ext = ".claimed"

-- strings.TrimSuffix, of a suffix that is not empty
unfoldable pub trim_suffix : (suffix s : String) → String
trim_suffix suffix [] = ""
trim_suffix suffix (c ∷ s) =
    let rest = trim_suffix suffix s in if (c ∷ s) == suffix then "" else c ∷ rest

-- name[:i], for the last dot, at i
unfoldable pub before_last_dot : String → Option String
before_last_dot [] = none
before_last_dot (c ∷ s) = elim (before_last_dot s) [
  | some before ↦ some (c ∷ before)
  | none ↦ if eqb (code c) 46 then some "" else none
]

abbrev pub or_whole : String → Option String → String
or_whole whole none = whole
or_whole whole (some before) = before

unfoldable pub pointer_from_claim : String → String
unfolding trim_suffix before_last_dot
pointer_from_claim name =
    or_whole (trim_suffix claim_ext name) (before_last_dot (trim_suffix claim_ext name))

pub has_char-append :
    (wanted : ℕ) (s t : String)
    → has_char wanted (s ++ t) ≡ (if has_char wanted s then true else has_char wanted t)
unfolding has_char
has_char-append wanted [] t = rw (nil-append t) refl
has_char-append wanted (c ∷ s) t =
    rw (cons-append c s t) (ground (arith, has_char-append wanted s t))

before_last_dot-none : (s : String) → has_char 46 s ≡ false → before_last_dot s ≡ none
unfolding has_char before_last_dot
before_last_dot-none [] h = refl
before_last_dot-none (c ∷ s) h = ground (arith, h, before_last_dot-none s)

before_last_dot-cons :
    (c : Char) (s before : String)
    → before_last_dot s ≡ some before
    → before_last_dot (c ∷ s) ≡ some (c ∷ before)
unfolding before_last_dot
before_last_dot-cons c s before h = rw (h) refl

before_last_dot-append :
    (p s : String) → has_char 46 s ≡ false → before_last_dot (p ++ ("." ++ s)) ≡ some p
unfolding before_last_dot
before_last_dot-append [] s h =
    let dotted : "." ++ s ≡ "." ∷ s = cons-append "." "" s ∙ ap (λ t. "." ∷ t) (nil-append s) in
    ap before_last_dot (nil-append ("." ++ s) ∙ dotted) ∙ rw (before_last_dot-none s h) refl
before_last_dot-append (c ∷ p) s h =
    ap before_last_dot (cons-append c p ("." ++ s))
    ∙ before_last_dot-cons c (p ++ ("." ++ s)) p (before_last_dot-append p s h)

trim_suffix-append : (s : String) → trim_suffix claim_ext (s ++ claim_ext) ≡ s
unfolding trim_suffix
trim_suffix-append [] = refl
trim_suffix-append (c ∷ s) =
    rw (cons-append c s claim_ext) (elim (Bool-cases ((c ∷ (s ++ claim_ext)) == claim_ext)) [
      | inl e ↦ absurd (
          cc (
            append_cancel_right (c ∷ s) "" claim_ext (
              cons-append c s claim_ext
              ∙ (eq_iff (c ∷ (s ++ claim_ext)) claim_ext).0 e
              ∙ sym (nil-append claim_ext))))
      | inr e ↦ rw (e) (ap (λ rest. c ∷ rest) (trim_suffix-append s))
    ])

-- The name of a claim gives back the pointer that it was made from, where the suffix has no dot in it, as
-- the hex text of the random bytes has none.
pub pointer_from_claim-append :
    (pointer suffix : String)
    → has_char 46 suffix ≡ false
    → pointer_from_claim ((pointer ++ ("." ++ suffix)) ++ claim_ext) ≡ pointer
unfolding pointer_from_claim
pointer_from_claim-append pointer suffix h =
    rw (trim_suffix-append (pointer ++ ("." ++ suffix)), before_last_dot-append pointer suffix h)
      refl
