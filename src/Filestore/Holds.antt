-- ===== src/Filestore/Holds.antt =====
-- When the files of the file store hold states, and what keeps it so.
use cee.Prelude.{
  String, ◌≡◌, ◌≢◌, refl, sym, subst, false, Option, none, some, ◌⊎◌, inl, inr, ◌==◌, eq_iff,
  eq_refl, Bool-cases,
}
use cee.Maps.{Map, lookup, insert, remove, lookup-insert, lookup-remove}
use cee.Execution.Types.{State}
use cee.Filestore.Files.{Disk, IsLawful, Same, ChangesOnly}
use cee.Filestore.Moves.{IsPointer, IsPointer-IsFileName}

pub inl-injective : {A B : Type 0} {a b : A} → ◌≡◌ {A = A ⊎ B} (inl a) (inl b) → a ≡ b
inl-injective h = cc

module _ {D : Type 0} (disk : Disk D) (file : D → String → Option String) (dir : String) where
  -- The content of a file, and the state that is held: both or none, and one decodes to the other.
  abbrev pub FileHolds : Option String → Option State → Type 0
  FileHolds none none = Unit
  FileHolds (some text) (some state) = disk.unmarshal text ≡ inl state
  FileHolds none (some state) = ⊥
  FileHolds (some text) none = ⊥

  -- The directory holds the states: the file of each pointer decodes to the state that is under it.
  abbrev pub Holds : D → Map State → Type 0
  Holds d states =
      (pointer : String)
      → IsPointer pointer
      → FileHolds (file d (disk.join dir pointer)) (lookup pointer states)

  pub Holds-Same :
      (d d' : D) (states : Map State) → Same disk file d d' → Holds d states → Holds d' states
  Holds-Same d d' states same h pointer p =
      subst (λ content. FileHolds content (lookup pointer states))
        (sym (same (disk.join dir pointer))) (h pointer p)

  -- a change of a file that is no file of a pointer
  pub Holds-ChangesOnly :
      (changed : String) (d d' : D) (states : Map State)
      → ((pointer : String) → IsPointer pointer → disk.join dir pointer ≢ changed)
      → ChangesOnly disk file changed d d'
      → Holds d states
      → Holds d' states
  Holds-ChangesOnly changed d d' states other only h pointer p =
      subst (λ content. FileHolds content (lookup pointer states))
        (sym (only (disk.join dir pointer) (other pointer p))) (h pointer p)

  pub FileHolds-some :
      (o : Option String) (s : Option State) (text : String)
      → o ≡ some text
      → FileHolds o s
      → (state : State) × (s ≡ some state) × (disk.unmarshal text ≡ inl state)
  FileHolds-some none s text e h = absurd (cc e)
  FileHolds-some (some t) none text e h = absurd h
  FileHolds-some (some t) (some state) text e h =
      let same : t ≡ text = cc e in (state, refl, subst (λ x. disk.unmarshal x ≡ inl state) same h)

  module _ (lawful : IsLawful disk file dir) where
    -- where two pointers have one path they are the same
    one_path :
        (a b : String)
        → IsPointer a
        → IsPointer b
        → (a == b) ≡ false
        → disk.join dir b ≢ disk.join dir a
    one_path a b p q differ e = absurd (
        cc (
          differ,
          (eq_iff a b).1 (
              sym (
                lawful.join_injective b a (IsPointer-IsFileName b q) (IsPointer-IsFileName a p) e)),
        ))

    -- a file of a pointer is written
    pub Holds-insert :
        (d d' : D) (states : Map State) (pointer text temp : String) (kept : State)
        → IsPointer pointer
        → disk.unmarshal text ≡ inl kept
        → file d' (disk.join dir pointer) ≡ some text
        → ((q : String) → q ≢ temp → q ≢ disk.join dir pointer → file d' q ≡ file d q)
        → ((q : String) → IsPointer q → disk.join dir q ≢ temp)
        → Holds d states
        → Holds d' (insert pointer kept states)
    Holds-insert d d' states pointer text temp kept p decoded written others no_temp h q r =
        elim (Bool-cases (pointer == q)) [
          | inl e ↦
              let same : pointer ≡ q = (eq_iff pointer q).0 e in
              subst
                (λ x. FileHolds (file d' (disk.join dir x)) (lookup x (insert pointer kept states)))
                same
                (rw (written, lookup-insert pointer pointer kept states, eq_refl pointer) decoded)
          | inr e ↦
              rw
                (
                  others (disk.join dir q) (no_temp q r) (one_path pointer q p r e),
                  lookup-insert pointer q kept states,
                  e,
                )
                (h q r)
        ]

    -- a file of a pointer is taken away
    pub Holds-remove :
        (d d' : D) (states : Map State) (pointer claim : String)
        → IsPointer pointer
        → file d' (disk.join dir pointer) ≡ none
        → ((q : String) → q ≢ disk.join dir pointer → q ≢ claim → file d' q ≡ file d q)
        → ((q : String) → IsPointer q → disk.join dir q ≢ claim)
        → Holds d states
        → Holds d' (remove pointer states)
    Holds-remove d d' states pointer claim p gone others no_claim h q r =
        elim (Bool-cases (pointer == q)) [
          | inl e ↦
              let same : pointer ≡ q = (eq_iff pointer q).0 e in
              subst (λ x. FileHolds (file d' (disk.join dir x)) (lookup x (remove pointer states)))
                same (rw (gone, lookup-remove pointer pointer states, eq_refl pointer) tt)
          | inr e ↦
              rw
                (
                  others (disk.join dir q) (one_path pointer q p r e) (no_claim q r),
                  lookup-remove pointer q states,
                  e,
                )
                (h q r)
        ]
