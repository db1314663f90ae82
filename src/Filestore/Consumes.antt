-- ===== src/Filestore/Consumes.antt =====
-- `Consume` of filestore/filestore.go: the state is claimed by a new name.
use cee.Prelude.{
  String, ◌≡◌, ◌≢◌, refl, ap, sym, subst, ◌∙◌, false, Option, some, inl, inr, has_char,
  all_chars-has_char,
}
use cee.Maps.{Map, lookup, remove}
use cee.Execution.Exec.Hoare.{After, After-bind, After-call}
use cee.Execution.Types.{State}
use cee.Execution.Contract.{Consumed, MayBeTaken}
use cee.Filestore.Files.{Disk, IsLawful, is_hex}
use cee.Filestore.Calls.{After-wrapped, After-or_missing, After-decoded, After-with_pointer}
use cee.Filestore.Moves.{IsPointer, claim_other, claim_path-tail}
use cee.Filestore.Holds.{inl-injective, FileHolds-some, Holds-Same, Holds-remove}
use cee.Filestore.Commits.{Encodes, H, Still}
use cee.Filestore.{claim_path, read_claim, take_claim, claim_suffix, consume}

module _ {D : Type 0} (disk : Disk D) (file : D → String → Option String) (dir : String)
    (lawful : IsLawful disk file dir) (pointer : String) (states : Map State)
    (p : IsPointer pointer) where
  abbrev Here : D → Type 0
  Here = Still disk file dir lawful states

  abbrev Taken : D → Type 0
  Taken d = H disk file dir lawful d (remove pointer states)

  abbrev Done : State → D → Type 0
  Done = Consumed IsPointer (Encodes disk) (H disk file dir lawful) pointer states

  abbrev Maybe : D → Type 0
  Maybe = MayBeTaken IsPointer (Encodes disk) (H disk file dir lawful) pointer states

  -- the state has left the pointer and stands under the claim
  abbrev Claimed : String → Unit {0} → D → Type 0
  Claimed claim u d =
      (state : State) × (text : String) × (lookup pointer states ≡ some state)
      × (disk.unmarshal text ≡ inl state)
      × (file d claim ≡ some text)
      × Taken d

  no_claim :
      (suffix : String)
      → has_char 47 suffix ≡ false
      → (q : String) → IsPointer q
      → disk.join dir q ≢ claim_path disk dir pointer suffix
  no_claim suffix plain q r e =
      claim_other disk file dir lawful q pointer suffix r p plain
        (e ∙ claim_path-tail disk file dir lawful pointer suffix)

  renamed :
      (suffix : String) (d : D)
      → has_char 47 suffix ≡ false
      → Here d
      → After
          (Claimed (claim_path disk dir pointer suffix))
          Maybe
          (disk.rename (disk.join dir pointer) (claim_path disk dir pointer suffix))
          d
  renamed suffix d plain h =
      let claim = claim_path disk dir pointer suffix in
      let other = no_claim suffix plain in
      After-call (Claimed claim) Maybe (disk.rename (disk.join dir pointer) claim) d
        (λ u e.
          let (text, from, to, gone, others) =
            lawful.rename_ok (disk.join dir pointer) claim d e (other pointer p) in
          let (state, held, decoded) =
            FileHolds-some disk file dir (file d (disk.join dir pointer)) (lookup pointer states)
              text from (h pointer p) in
          (
            state,
            text,
            held,
            decoded,
            to,
            Holds-remove disk file dir lawful d (disk.rename (disk.join dir pointer) claim d).1
                states pointer claim p gone others other h,
          ))
        (λ f e. inl (
          Holds-Same disk file dir d _ states
            (lawful.rename_err (disk.join dir pointer) claim d f e) h))

  read_claim-Done :
      (claim : String) (d : D)
      → Claimed claim tt d
      → After Done Maybe (read_claim disk dir pointer claim) d
  read_claim-Done claim d (state, text, held, decoded, content, taken) =
      let J = λ (found : String) (d' : D). (disk.unmarshal found ≡ inl state) × Taken d' in
      let taken' =
        Holds-Same disk file dir d (disk.read_file claim d).1 (remove pointer states)
          (lawful.read_keeps claim d) taken in
      After-bind J Done Maybe _ _ d
        (After-wrapped disk J Maybe _ (disk.read_file claim) d (
          After-call J Maybe (disk.read_file claim) d
            (λ found e.
              let same : text ≡ found = cc (content, lawful.read_ok claim d found e) in
              (subst (λ t. disk.unmarshal t ≡ inl state) same decoded, taken'))
            (λ f e. inr taken')))
        λ found d1 (decoded1, taken1).
          After-decoded disk Done Maybe _ (disk.unmarshal found) d1
            (λ s e. (held ∙ ap some (inl-injective (sym decoded1 ∙ e)), taken1)) (inr taken1)

  take_claim-Done :
      (suffix : String) (d : D)
      → has_char 47 suffix ≡ false
      → Here d
      → After Done Maybe (take_claim disk dir pointer suffix) d
  take_claim-Done suffix d plain h =
      let claim = claim_path disk dir pointer suffix in
      After-bind (Claimed claim) Done Maybe _ _ d
        (After-or_missing disk (Claimed claim) Maybe _ pointer _ d (renamed suffix d plain h))
        λ u d1 c. read_claim-Done claim d1 c

  pub consume-Consumed : (d : D) → Here d → After Done Maybe (consume disk dir pointer) d
  unfolding consume claim_suffix
  consume-Consumed d h =
      let J = λ (suffix : String) (d' : D). (has_char 47 suffix ≡ false) × Here d' in
      let here =
        Holds-Same disk file dir d (disk.random_hex d).1 states (lawful.random_keeps d) h in
      After-with_pointer disk Done Maybe pointer _ d p (
        After-bind J Done Maybe _ _ d
          (After-wrapped disk J Maybe _ disk.random_hex d (
            After-call J Maybe disk.random_hex d
              (λ suffix e.
                (all_chars-has_char is_hex 47 suffix refl (lawful.random_hex_ok d suffix e), here))
              (λ f e. inl here)))
          λ suffix d1 (plain, h1). take_claim-Done suffix d1 plain h1)
