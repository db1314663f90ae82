-- ===== src/Prelude/Lists.antt =====
-- Lists measured by native numbers, and texts put together from parts.
use Prim.Native.Nat.{ℕ, zero, suc, ◌+◌, ◌-◌}
use Prim.Native.Nat.{Ordering}
use Prim.Native.String.{compare, String, ◌++◌ as ◌<>◌}
use mathlib.Core.Path.{◌≡◌, refl}
use mathlib.Core.Bool.{Bool, true, false}
use mathlib.Core.List.{List, [], ◌∷◌, ◌++◌}
use text.Mathlib.Text.{◌==◌}
use native.Mathlib.Omega.{arith}
use cee.Prelude.Tests.{if◌then◌else◌}

module _ {ℓ} {A : Type ℓ} where
  abbrev pub length : List A → ℕ
  length [] = 0
  length (x ∷ xs) = suc (length xs)

  abbrev pub drop : ℕ → List A → List A
  drop zero xs = xs
  drop (suc n) [] = []
  drop (suc n) (x ∷ xs) = drop n xs

  pub length-append : (xs ys : List A) → length (xs ++ ys) ≡ length xs + length ys
  length-append [] ys = omega arith
  length-append (x ∷ xs) ys = omega (arith, length-append xs ys)

  pub length-drop : (n : ℕ) (xs : List A) → length (drop n xs) ≡ length xs - n
  length-drop zero xs = omega arith
  length-drop (suc n) [] = omega arith
  length-drop (suc n) (x ∷ xs) = omega (arith, length-drop n xs)

-- Membership of a text in a list of texts, as a Go set built from the list answers it.
unfoldable pub has : String → List String → Bool
has k [] = false
has k (x ∷ xs) = if x == k then true else has k xs

-- The parts of a text, one after another.
unfoldable pub concat : List String → String
concat [] = ""
concat (s ∷ ss) = s <> concat ss

-- strings.Join
unfoldable pub join : String → List String → String
join sep [] = ""
join sep (s ∷ []) = s
join sep (s ∷ t ∷ ss) = s <> (sep <> join sep (t ∷ ss))

-- sort.Strings, by insertion: which algorithm sorts makes no difference to the result
unfoldable pub insert_sorted : String → List String → List String
insert_sorted s [] = s ∷ []
insert_sorted s (t ∷ ts) =
    let later = insert_sorted s ts in
    elim (compare s t) [ Ordering.gt ↦ t ∷ later | _ ↦ s ∷ t ∷ ts ]

unfoldable pub sort_strings : List String → List String
unfolding insert_sorted
sort_strings [] = []
sort_strings (s ∷ ss) = insert_sorted s (sort_strings ss)

has-insert_sorted :
    (k s : String) (ts : List String)
    → has k (insert_sorted s ts) ≡ (if s == k then true else has k ts)
unfolding has insert_sorted
has-insert_sorted k s [] = refl
has-insert_sorted k s (t ∷ ts) = ground (arith, has-insert_sorted k s ts)

pub has-join :
    (k : String) (xs ys : List String) → has k (xs ++ ys) ≡ (if has k xs then true else has k ys)
unfolding has
has-join k [] ys = refl
has-join k (x ∷ xs) ys = ground (arith, has-join k xs ys)

pub has-sort_strings : (k : String) (ss : List String) → has k (sort_strings ss) ≡ has k ss
unfolding has sort_strings
has-sort_strings k [] = refl
has-sort_strings k (s ∷ ss) =
    ground (arith, has-insert_sorted k s (sort_strings ss), has-sort_strings k ss)
