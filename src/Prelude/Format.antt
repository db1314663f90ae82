-- ===== src/Prelude/Format.antt =====
-- The verbs of Go's `fmt` that the program's texts use: %d of a number and %q of a string. %q
-- escapes as `strconv.Quote` does, with every character above ASCII taken for a printable one.
use Prim.Native.Char.{Char, code}
use Prim.Native.String.{String, slice, ◌∷◌, [], ◌++◌}
use Prim.Native.Nat.{ℕ, zero, suc, ◌+◌, ◌/◌, ◌%◌}
use mathlib.Core.Bool.{Bool, true, false, ◌||◌}
use cee.Prelude.Tests.{ltb, eqb, if◌then◌else◌, Bool-cases}
use mathlib.Core.Path.{◌≡◌, refl, ap}
use native.Mathlib.Omega.{arith}
use mathlib.Core.Logic.{inl, inr}

unfoldable pub digit : ℕ → String
digit n = slice "0123456789abcdef" n (n + 1)

-- a number with at most `fuel` digits
unfoldable pub digits : ℕ → ℕ → String
unfolding digit
digits zero n = ""
digits (suc fuel) n =
    let higher = digits fuel (n / 10) ++ digit (n % 10) in if ltb n 10 then digit n else higher

-- %d: n has fewer than n + 1 digits
unfoldable pub decimal : ℕ → String
unfolding digits
decimal n = digits (n + 1) n

unfoldable pub escaped : Char → String
unfolding digit
escaped c =
    let n = code c in
    if eqb n 34
    then "\\\""
    else if eqb n 92
    then "\\\\"
    else if eqb n 7
    then "\\a"
    else if eqb n 8
    then "\\b"
    else if eqb n 9
    then "\\t"
    else if eqb n 10
    then "\\n"
    else if eqb n 11
    then "\\v"
    else if eqb n 12
    then "\\f"
    else if eqb n 13
    then "\\r"
    else if ltb n 32 || eqb n 127
    then "\\x" ++ digit (n / 16) ++ digit (n % 16)
    else c ∷ ""

unfoldable pub escape : String → String
unfolding escaped
escape [] = ""
escape (c ∷ s) = escaped c ++ escape s

-- %q
unfoldable pub quote : String → String
unfolding escape
quote s = "\"" ++ escape s ++ "\""

-- a test of the characters of a text, by their codes
unfoldable pub all_chars : (ℕ → Bool) → String → Bool
all_chars test [] = true
all_chars test (c ∷ s) = let rest = all_chars test s in if test (code c) then rest else false

-- strings.Contains, of a text of one ASCII character
unfoldable pub has_char : ℕ → String → Bool
has_char wanted [] = false
has_char wanted (c ∷ s) = let rest = has_char wanted s in if eqb (code c) wanted then true else rest

-- strings.HasPrefix
unfoldable pub has_prefix : String → String → Bool
has_prefix s [] = true
has_prefix [] (c ∷ prefix) = false
has_prefix (d ∷ s) (c ∷ prefix) =
    let rest = has_prefix s prefix in if eqb (code d) (code c) then rest else false

-- strings.Contains
unfoldable pub contains : String → String → Bool
unfolding has_prefix
contains [] part = has_prefix [] part
contains (c ∷ s) part = let rest = contains s part in if has_prefix (c ∷ s) part then true else rest

abbrev kept : Char → String → String
kept c [] = ""
kept c (d ∷ s) = c ∷ d ∷ s

-- strings.TrimRight(s, "\n")
unfoldable pub trim_newlines : String → String
trim_newlines [] = ""
trim_newlines (c ∷ s) =
    let rest = trim_newlines s in if eqb (code c) 10 then kept c rest else c ∷ rest

-- a text of characters that pass a test has none that fails it
pub all_chars-has_char :
    (test : ℕ → Bool) (wanted : ℕ) (s : String)
    → test wanted ≡ false
    → all_chars test s ≡ true
    → has_char wanted s ≡ false
unfolding all_chars has_char
all_chars-has_char test wanted [] refused h = refl
all_chars-has_char test wanted (c ∷ s) refused h = elim (Bool-cases (eqb (code c) wanted)) [
  | inl e ↦
      let same : code c ≡ wanted = ground (arith, e) in
      let passed : test (code c) ≡ true = ground (arith, h) in
      absurd (cc (passed, refused, ap test same))
  | inr e ↦ rw (e) (all_chars-has_char test wanted s refused (ground (arith, h)))
]
