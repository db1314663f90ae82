-- ===== src/Tests/Folders.antt =====
-- A directory in memory, on which states are saved, claimed and looked for.
use text.Mathlib.TextLemmas.{append_cancel_left}
use cee.Prelude.{
  map, concat, ◌≤◌, all_chars, String, ◌≡◌, refl, subst, false, List, [], ◌∷◌, inl, inr, ◌==◌,
  eq_iff, Bool-cases, has_char, all_chars, eq_refl,
}
use cee.Maps.{lookup, insert}
use cee.Execution.Exec.{ok, err, attempt}
use cee.Execution.Types.{State}
use cee.Execution.MemoryStore.{no_such_pointer}
use cee.Execution.Exec.Hoare.{After}
use cee.Execution.Contract.{Saved, Loaded, Consumed, MayBeTaken}
use cee.Execution.Contract.Claims.{claims}
use cee.Filestore.Moves.{IsPointer}
use cee.Filestore.Holds.{FileHolds}
use cee.Filestore.Commits.{Encodes, H}
use cee.Filestore.Refines.{as_store_lem, claims-as_store}
use cee.Filestore.Once.{consume-save}
use cee.Filestore.Works.{Works}
use cee.Filestore.Listed.{IsDated, Claim, told, orphaned_lem}
use cee.Tests.Disks.{Folder, folder, content, waiting}
use cee.Tests.Disks.Lawful.{
  folder-IsLawful, folder-IsHealthy, empty-Holds, apart, after_slash-join, read_ends_lem,
}
use cee.Filestore.{orphaned, check_pointer, save, consume, as_store}

abbrev p1 : String
p1 = "a1"

p1-IsPointer : IsPointer p1
unfolding check_pointer all_chars
p1-IsPointer = refl

consume-save_example :
    (kept : State) × (folder.unmarshal p1 ≡ inl kept)
    × (kept.pointer ≡ p1)
    × (d₁ : Folder) × (save folder "runs" (waiting p1) [] ≡ (ok tt, d₁))
    × (d₂ : Folder) × (consume folder "runs" p1 d₁ ≡ (ok kept, d₂))
    × (d₃ : Folder) × (consume folder "runs" p1 d₂ ≡ (err (no_such_pointer p1), d₃))
consume-save_example =
    consume-save folder content "runs" folder-IsLawful folder-IsHealthy p1 p1-IsPointer (waiting p1)
      p1 [] refl refl

abbrev HeldAt : String → Type 0
HeldAt pointer =
    FileHolds folder content "runs" (content (insert "runs/a1" p1 []) (folder.join "runs" pointer))
      (lookup pointer (insert p1 (waiting p1) []))

first-HeldAt : HeldAt p1
unfolding lookup insert
first-HeldAt = refl

one-Holds :
    H folder content "runs" folder-IsLawful (insert "runs/a1" p1 []) (insert p1 (waiting p1) [])
unfolding lookup insert
one-Holds pointer p = elim (Bool-cases (p1 == pointer)) [
  | inl b ↦ subst HeldAt ((eq_iff p1 pointer).0 b) first-HeldAt
  | inr b ↦
      let no_file : ("runs/a1" == folder.join "runs" pointer) ≡ false =
        apart "runs/a1" (folder.join "runs" pointer) (λ e. absurd (
          cc (
            b,
            eq_refl pointer,
            append_cancel_left "/" pointer p1 (append_cancel_left "runs" _ _ e),
          ))) in
      rw (b, no_file) tt
]

as_store_lem_example :
    After
      (Saved IsPointer (Encodes folder) (H folder content "runs" folder-IsLawful) (waiting p1) [])
      (λ d'. H folder content "runs" folder-IsLawful d' [])
      ((as_store folder "runs").save (waiting p1))
      []
    × After
        (Loaded IsPointer (Encodes folder) (H folder content "runs" folder-IsLawful) p1 [])
        (λ d'. H folder content "runs" folder-IsLawful d' [])
        ((as_store folder "runs").load p1)
        []
    × After
        (Consumed IsPointer (Encodes folder) (H folder content "runs" folder-IsLawful) p1 [])
        (MayBeTaken IsPointer (Encodes folder) (H folder content "runs" folder-IsLawful) p1 [])
        ((as_store folder "runs").consume p1)
        []
    × After
        (λ u d'. H folder content "runs" folder-IsLawful d' [])
        (λ d'. H folder content "runs" folder-IsLawful d' [])
        ((as_store folder "runs").release p1)
        []
as_store_lem_example =
    as_store_lem folder content "runs" folder-IsLawful [] [] (waiting p1) p1 p1-IsPointer refl
      empty-Holds

claims-as_store_example :
    After (λ k d. k ≤ 1) (λ d. ⊥) (claims (as_store folder "runs") p1 3) (insert "runs/a1" p1 [])
claims-as_store_example =
    claims-as_store folder content "runs" folder-IsLawful (insert p1 (waiting p1) [])
      (insert "runs/a1" p1 []) p1 3 p1-IsPointer one-Holds

folder-IsDated : IsDated folder "runs" (λ path. 3)
unfolding attempt
folder-IsDated = record {
  base_join = λ name p. after_slash-join name;
  mod_time_works = λ path d. (d, refl);
  read_ends = λ path d. read_ends_lem (content d path) d;
}

abbrev claimed : List Claim
claimed = ("a1", "0af3") ∷ []

orphaned_lem_example :
    Works
      (λ orphans d. map (told folder "runs" (λ path. 3)) orphans ≡ ("a1", 3) ∷ [])
      (orphaned folder "runs" 5)
      (insert "runs/a1.0af3.claimed" p1 [])
unfolding has_char check_pointer all_chars concat
orphaned_lem_example =
    orphaned_lem folder content "runs" folder-IsLawful (λ path. 3) folder-IsDated 5 10 claimed
      (insert "runs/a1.0af3.claimed" p1 []) _ _ ((refl, refl, refl), tt) refl refl
