-- ===== src/Maps.antt =====
-- Go's `map[string]V`. A map is the list of its entries; the first entry of a key counts. Go visits
-- the entries of a map in an order that it does not fix: the model visits them in the list's order,
-- and the laws below speak of look-ups only.
use cee.Prelude.{
  String, ◌≡◌, refl, Option, none, some, List, [], ◌∷◌, arith, ◌==◌, eq_iff, if◌then◌else◌,
}

abbrev pub Map {ℓ} : Type ℓ → Type ℓ
Map V = List (String × V)

module _ {ℓ} {V : Type ℓ} where
  -- m[k], with `none` for a missing key
  unfoldable pub lookup : String → Map V → Option V
  lookup key [] = none
  lookup key (entry ∷ rest) = if entry.0 == key then some entry.1 else lookup key rest

  -- m[k] = v
  unfoldable pub insert : String → V → Map V → Map V
  insert key value [] = (key, value) ∷ []
  insert key value (entry ∷ rest) =
      let later = insert key value rest in
      if entry.0 == key then (key, value) ∷ rest else entry ∷ later

  -- delete(m, k)
  unfoldable pub remove : String → Map V → Map V
  remove k [] = []
  remove k ((j, w) ∷ m) = let rest = remove k m in if j == k then rest else (j, w) ∷ rest

  -- for k, v := range entries { m[k] = v }
  unfoldable pub insert_all : Map V → Map V → Map V
  insert_all m [] = m
  insert_all m ((k, v) ∷ entries) = insert k v (insert_all m entries)

  -- No key stands twice.
  abbrev pub IsMap : Map V → Type ℓ
  IsMap [] = Unit
  IsMap ((k, v) ∷ m) = (lookup k m ≡ none) × IsMap m

  abbrev pub or_else : Option V → Option V → Option V
  or_else none o = o
  or_else (some v) o = some v

  pub lookup-insert :
      (key wanted : String) (value : V) (entries : Map V)
      → lookup wanted (insert key value entries)
        ≡ (if key == wanted then some value else lookup wanted entries)
  unfolding lookup insert
  lookup-insert key wanted value [] = refl
  lookup-insert key wanted value (entry ∷ rest) = ground (
    arith,
    lookup-insert key wanted value rest,
    eq_iff entry.0 wanted,
    eq_iff entry.0 key,
    eq_iff key wanted,
  )

  pub lookup-remove :
      (k j : String) (m : Map V) → lookup j (remove k m) ≡ (if k == j then none else lookup j m)
  unfolding lookup remove
  lookup-remove k j [] = ground arith
  lookup-remove k j ((i, w) ∷ m) =
      ground (arith, eq_iff k j, eq_iff i k, eq_iff i j, lookup-remove k j m)

  pub lookup-insert_all :
      (j : String) (m entries : Map V)
      → lookup j (insert_all m entries) ≡ or_else (lookup j entries) (lookup j m)
  unfolding lookup insert_all
  lookup-insert_all j m [] = refl
  lookup-insert_all j m ((k, v) ∷ entries) =
      ground (arith, lookup-insert k j v (insert_all m entries), lookup-insert_all j m entries)

  pub insert-IsMap : (k : String) (v : V) (m : Map V) → IsMap m → IsMap (insert k v m)
  unfolding lookup insert
  insert-IsMap k v [] h = (refl, tt)
  insert-IsMap k v ((j, w) ∷ m) h =
      ground (arith, eq_iff j k, eq_iff k j, insert-IsMap k v m, lookup-insert k j v m)

  pub insert_all-IsMap : (m entries : Map V) → IsMap m → IsMap (insert_all m entries)
  unfolding insert_all
  insert_all-IsMap m [] h = h
  insert_all-IsMap m ((k, v) ∷ entries) h =
      insert-IsMap k v (insert_all m entries) (insert_all-IsMap m entries h)
