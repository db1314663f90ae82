-- ===== src/Filestore/Refines.antt =====
-- The file store keeps the promises of a store.
use Prim.Native.String.{◌++◌ as ◌<>◌}
use cee.Prelude.{
  ℕ, ◌≤◌, String, ◌≡◌, ◌≢◌, ap, sym, subst, ◌∙◌, false, Option, some, List, [], ◌∷◌, ◌⊎◌, inl, inr,
  has_char, concat, Bool-cases,
}
use cee.Maps.{Map, lookup, insert}
use cee.Execution.Errors.{Err}
use cee.Execution.Exec.{attempt}
use cee.Execution.Exec.Hoare.{
  After, After-bind, After-call, After-pure, After-raise, After-attempt_any, After-weaken,
}
use cee.Execution.Types.{State}
use cee.Execution.Contract.Claims.{claims, claims_bound}
use cee.Execution.Contract.{IsStore, Saved, Loaded, Consumed, MayBeTaken}
use cee.Filestore.Files.{Disk, IsLawful, AllPaths}
use cee.Filestore.Calls.{After-wrapped, After-or_missing, After-decoded, After-with_pointer}
use cee.Filestore.Moves.{IsPointer, IsPointer-IsFileName, temp_other, claim_other}
use cee.Filestore.Holds.{inl-injective, FileHolds-some, Holds-Same, Holds-ChangesOnly}
use cee.Filestore.Consumes.{consume-Consumed}
use cee.Filestore.Commits.{Encodes, H, Still, removing-Put}
use cee.Filestore.{
  commit, removing, save, load, released, remove_claims, release, as_store, labelled,
}

module _ {D : Type 0} (disk : Disk D) (file : D → String → Option String) (dir : String)
    (lawful : IsLawful disk file dir) where
  abbrev Here : Map State → D → Type 0
  Here = Still disk file dir lawful

  abbrev SavedHere : State → Map State → Unit {0} → D → Type 0
  SavedHere = Saved IsPointer (Encodes disk) (H disk file dir lawful)

  -- a new temporary file, under a path that is none of a pointer
  abbrev Fresh : Map State → String → D → Type 0
  Fresh states temp d = ((q : String) → IsPointer q → disk.join dir q ≢ temp) × Here states d

  created :
      (states : Map State) (d : D)
      → Here states d
      → After (Fresh states) (Here states) (disk.create_temp dir ".tmp-*") d
  created states d h =
      After-call _ _ (disk.create_temp dir ".tmp-*") d
        (λ temp e.
          let (x, plain, same, only) = lawful.create_temp_ok d temp e in
          let other : (q : String) → IsPointer q → disk.join dir q ≢ temp =
            λ q p e. temp_other disk file dir lawful q x p plain (e ∙ same) in
          (other, Holds-ChangesOnly disk file dir temp d _ states other only h))
        (λ f e. Holds-Same disk file dir d _ states (lawful.create_temp_err d f e) h)

  save-Saved :
      (state : State) (states : Map State) (d : D)
      → IsPointer state.pointer
      → Here states d
      → After (SavedHere state states) (Here states) (save disk dir state) d
  unfolding save
  save-Saved state states d p h =
      After-with_pointer disk (SavedHere state states) (Here states) state.pointer _ d p (
        After-bind (λ text d'. (disk.marshal state ≡ inl text) × Here states d')
          (SavedHere state states) (Here states) _ _ d
          (After-decoded disk (λ text d'. (disk.marshal state ≡ inl text) × Here states d')
            (Here states) (labelled "could not encode state " state.pointer) (disk.marshal state) d
            (λ text e. (e, h)) h)
          λ text d1 (encoded, h1).
            let (kept, decoded, same) = lawful.marshal_ok state text encoded in
            let encodes : Encodes disk state kept = (text, encoded, decoded) in
            After-bind (Fresh states) (SavedHere state states) (Here states) _ _ d1
              (After-wrapped disk (Fresh states) (Here states) _ _ d1 (created states d1 h1))
              λ temp d2 (no_temp, h2).
                After-weaken (λ u d'. H disk file dir lawful d' (insert state.pointer kept states))
                  (SavedHere state states) (Here states)
                  (removing disk dir temp (commit disk dir state text temp)) d2
                  (λ u d' k. (kept, encodes, same, k))
                  (removing-Put disk file dir lawful states state text temp kept p decoded no_temp
                    d2 h2))

  load-Loaded :
      (pointer : String) (states : Map State) (d : D)
      → IsPointer pointer
      → Here states d
      → After
          (Loaded IsPointer (Encodes disk) (H disk file dir lawful) pointer states)
          (Here states)
          (load disk dir pointer)
          d
  unfolding load
  load-Loaded pointer states d p h =
      let J = λ (text : String) (d' : D).
        (file d' (disk.join dir pointer) ≡ some text) × Here states d' in
      let K = Loaded IsPointer (Encodes disk) (H disk file dir lawful) pointer states in
      let here =
        Holds-Same disk file dir d (disk.read_file (disk.join dir pointer) d).1 states
          (lawful.read_keeps (disk.join dir pointer) d) h in
      After-with_pointer disk K (Here states) pointer _ d p (
        After-bind J K (Here states) _ _ d
          (After-or_missing disk J (Here states) _ pointer _ d (
            After-call J (Here states) (disk.read_file (disk.join dir pointer)) d
              (λ text e. (
                lawful.read_keeps (disk.join dir pointer) d (disk.join dir pointer)
                    ∙ lawful.read_ok (disk.join dir pointer) d text e,
                here,
              ))
              (λ f e. here)))
          λ text d1 (content, h1).
            let (state, held, decoded) =
              FileHolds-some disk file dir (file d1 (disk.join dir pointer)) (lookup pointer states)
                text content (h1 pointer p) in
            After-decoded disk K (Here states) _ (disk.unmarshal text) d1
              (λ found e. (held ∙ ap some (inl-injective (sym decoded ∙ e)), h1)) h1)

  -- the claims of a pointer are removed
  remove_claims-Here :
      (pointer : String) (states : Map State) (claims : List String) (d : D)
      → IsPointer pointer
      → AllPaths
          (λ claim.
            (x : String) × (has_char 47 x ≡ false)
            × (claim ≡ disk.join dir pointer <> ("." <> (x <> ".claimed"))))
          claims
      → Here states d
      → After (λ u d'. Here states d') (Here states) (remove_claims disk dir pointer claims) d
  unfolding remove_claims
  remove_claims-Here pointer states [] d p all h = After-pure _ _ tt d h
  remove_claims-Here pointer states (claim ∷ claims) d p ((x, plain, same), all) h =
      let K = λ (u : Unit {0}) (d' : D). Here states d' in
      let other : (q : String) → IsPointer q → disk.join dir q ≢ claim =
        λ q r e. claim_other disk file dir lawful q pointer x r p plain (e ∙ same) in
      let gone =
        Holds-ChangesOnly disk file dir claim d (disk.remove claim d).1 states other
          (lawful.remove_changes claim d) h in
      After-bind K K (Here states) _ _ d
        (After-bind (λ r d'. Here states d') K (Here states) (attempt (disk.remove claim)) _ d
          (After-attempt_any (Here states) (Here states) (disk.remove claim) d gone)
          (λ r d1 h1. passed r d1 h1))
        (λ u d2 h2. remove_claims-Here pointer states claims d2 p all h2)
    where
      passed :
          (r : (Unit {0}) ⊎ Err) (d1 : D)
          → Here states d1
          → After (λ u d'. Here states d') (Here states) (released disk dir pointer r) d1
      passed (inl u) d1 h1 = After-pure _ _ tt d1 h1
      passed (inr e) d1 h1 = elim (Bool-cases (disk.is_not_exist e)) [
        | inl b ↦ rw (b) (After-pure (λ u d'. Here states d') (Here states) tt d1 h1)
        | inr b ↦ rw (b) (After-raise (λ u d'. Here states d') (Here states) _ d1 h1)
      ]

  release-Here :
      (pointer : String) (states : Map State) (d : D)
      → IsPointer pointer
      → Here states d
      → After (λ u d'. Here states d') (Here states) (release disk dir pointer) d
  unfolding release
  release-Here pointer states d p h =
      let K = λ (u : Unit {0}) (d' : D). Here states d' in
      let pattern = concat (disk.join dir pointer ∷ ".*" ∷ ".claimed" ∷ []) in
      let J = λ (claims : List String) (d' : D).
        AllPaths
          (λ claim.
            (x : String) × (has_char 47 x ≡ false)
            × (claim ≡ disk.join dir pointer <> ("." <> (x <> ".claimed"))))
          claims
        × Here states d' in
      let here =
        Holds-Same disk file dir d (disk.glob pattern d).1 states (lawful.glob_keeps pattern d) h in
      After-with_pointer disk K (Here states) pointer _ d p (
        After-bind J K (Here states) _ _ d
          (After-wrapped disk J (Here states) _ (disk.glob pattern) d (
            After-call J (Here states) (disk.glob pattern) d
              (λ claims e.
                (lawful.glob_ok pointer d claims (IsPointer-IsFileName pointer p) e, here))
              (λ f e. here)))
          λ claims d1 (all, h1). remove_claims-Here pointer states claims d1 p all h1)

  pub as_store-IsStore :
      IsStore IsPointer (Encodes disk) (H disk file dir lawful) (as_store disk dir)
  as_store-IsStore = record {
    saves = λ state states d p h. save-Saved state states d p h;
    loads = λ pointer states d p h. load-Loaded pointer states d p h;
    consumes = λ pointer states d p h. consume-Consumed disk file dir lawful pointer states p d h;
    releases = λ pointer states d p h. release-Here pointer states d p h;
  }

  -- The store in files refines a map of the states by pointer. On a directory that holds such a map, and
  -- for a pointer that the store takes: a save that returns has put the state there, as its encoding
  -- decodes; a load that returns gave the state of the pointer, and a claim that returns gave it too and
  -- took it, and only it, away; a release changes nothing of the map. A call that fails changes nothing
  -- of it either, but that a claim that fails may have taken the state away.
  pub as_store_lem :
      (states : Map State) (d : D) (state : State) (pointer : String)
      → IsPointer pointer
      → state.pointer ≡ pointer
      → Here states d
      → After (SavedHere state states) (Here states) ((as_store disk dir).save state) d
        × After
            (Loaded IsPointer (Encodes disk) (H disk file dir lawful) pointer states)
            (Here states)
            ((as_store disk dir).load pointer)
            d
        × After
            (Consumed IsPointer (Encodes disk) (H disk file dir lawful) pointer states)
            (MayBeTaken IsPointer (Encodes disk) (H disk file dir lawful) pointer states)
            ((as_store disk dir).consume pointer)
            d
        × After (λ u d'. Here states d') (Here states) ((as_store disk dir).release pointer) d
  as_store_lem states d state pointer p same h = (
    save-Saved state states d (subst IsPointer (sym same) p) h,
    load-Loaded pointer states d p h,
    consume-Consumed disk file dir lawful pointer states p d h,
    release-Here pointer states d p h,
  )

  -- In a directory that holds states, however often a pointer that the store takes is claimed, one claim
  -- after another, at most one of them returns the state.
  pub claims-as_store :
      (states : Map State) (d : D) (pointer : String) (n : ℕ)
      → IsPointer pointer
      → Here states d
      → After (λ k d'. k ≤ 1) (λ d'. ⊥) (claims (as_store disk dir) pointer n) d
  claims-as_store states d pointer n p h =
      claims_bound IsPointer (Encodes disk) (H disk file dir lawful) (as_store disk dir)
        as_store-IsStore pointer p n states d h
