-- ===== src/Filestore/Once.antt =====
-- A state is saved and claimed, and claimed a second time, on a disk whose calls do not fail.
use cee.Prelude.{
  String, ◌≡◌, ◌≢◌, refl, ap, sym, ◌∙◌, false, Option, some, none, inl, has_char,
  all_chars-has_char,
}
use cee.Execution.Exec.{Exec, ok, err, attempt, pure, ◌>>=◌}
use cee.Execution.Exec.Laws.{bind_ok, bind_err, attempt_ok}
use cee.Execution.Types.{State}
use cee.Execution.MemoryStore.{no_such_pointer}
use cee.Filestore.Files.{Disk, IsLawful, is_hex}
use cee.Filestore.Healthy.{IsHealthy}
use cee.Filestore.Moves.{IsPointer, temp_other, claim_other, claim_path-tail}
use cee.Filestore.Works.{
  Works, Works-bind, Works-call, Works-wrapped, Works-closing, Works-or_missing, Works-decoded,
  Works-with_pointer, attempt_left, or_missing-gone,
}
use cee.Filestore.{
  commit, removing, store_text, save, claim_path, read_claim, take_claim, claim_suffix, consume,
  labelled, ended, checked,
}

module _ {D : Type 0} (disk : Disk D) (file : D → String → Option String) (dir : String)
    (lawful : IsLawful disk file dir) (healthy : IsHealthy disk file dir) (pointer : String)
    (p : IsPointer pointer) where
  -- the file of the pointer has the text
  abbrev Stored : String → Unit {0} → D → Type 0
  Stored text u d = file d (disk.join dir pointer) ≡ some text

  abbrev Gone : D → Type 0
  Gone d = file d (disk.join dir pointer) ≡ none

  module _ (text temp : String) (no_temp : disk.join dir pointer ≢ temp) where
    abbrev Filled : Unit {0} → D → Type 0
    Filled u d = file d temp ≡ some text

    kept :
        (m : Exec D (Unit {0})) (d : D)
        → (m d).0 ≡ ok tt
        → ((q : String) → file (m d).1 q ≡ file d q)
        → Filled tt d
        → Works Filled m d
    kept m d works same h = Works-call Filled m d tt works (same temp ∙ h)

    moved : (d : D) → Filled tt d → Works (Stored text) (disk.rename temp (disk.join dir pointer)) d
    moved d h =
        let works = healthy.rename_works temp (disk.join dir pointer) text d h in
        let (t, from, to, gone, others) =
          lawful.rename_ok temp (disk.join dir pointer) d works (λ same. no_temp (sym same)) in
        Works-call (Stored text) (disk.rename temp (disk.join dir pointer)) d tt works
          (to ∙ cc (from, h))

    commit-Works :
        (state : State) (d : D)
        → state.pointer ≡ pointer
        → Works (Stored text) (commit disk dir state text temp) d
    commit-Works state d same =
        Works-bind Filled (Stored text) _ _ d
          (Works-closing disk Filled temp _ _ d (
            Works-call Filled (disk.write temp text) d tt (healthy.write_works temp text d)
              (lawful.write_ok temp text d (healthy.write_works temp text d))))
          λ u d1 h1.
            Works-bind Filled (Stored text) _ _ d1
              (Works-closing disk Filled temp _ _ d1 (
                kept (disk.sync temp) d1 (healthy.sync_works temp d1) (lawful.sync_keeps temp d1)
                  h1))
              λ u d2 h2.
                Works-bind Filled (Stored text) _ _ d2
                  (Works-wrapped disk Filled _ _ d2 (
                    kept (disk.close temp) d2 (healthy.close_works temp d2)
                      (lawful.close_keeps temp d2) h2))
                  λ u d3 h3.
                    Works-bind Filled (Stored text) _ _ d3
                      (Works-wrapped disk Filled _ _ d3 (
                        kept (disk.chmod temp 384) d3 (healthy.chmod_works temp d3)
                          (lawful.chmod_keeps temp 384 d3) h3))
                      λ u d4 h4. Works-wrapped disk (Stored text) _ _ d4 (rw (same) (moved d4 h4))

    removing-Works :
        (m : Exec D (Unit {0})) (d : D)
        → Works (Stored text) m d
        → Works (Stored text) (removing disk dir temp m) d
    unfolding pure
    removing-Works m d (u, d1, e, h) =
        let (r, e') = healthy.remove_ends temp d1 in
        let d2 = (disk.remove temp d1).1 in
        (
          u,
          d2,
          bind_ok (attempt m) _ d d1 (attempt_ok m d d1 e)
              ∙ bind_ok (attempt (disk.remove temp)) (λ _. ended disk dir (inl u)) d1 d2
                  (attempt_left (disk.remove temp) d1 r e'),
          lawful.remove_changes temp d1 (disk.join dir pointer) no_temp ∙ h,
        )

  save-Works :
      (state : State) (text : String) (d : D)
      → state.pointer ≡ pointer
      → disk.marshal state ≡ inl text
      → Works (Stored text) (save disk dir state) d
  unfolding save
  save-Works state text d same encoded =
      Works-with_pointer disk (Stored text) state.pointer _ d (rw (same) p) (
        Works-bind (λ t d'. t ≡ text) (Stored text) _ _ d
          (Works-decoded disk (λ t d'. t ≡ text) _ (disk.marshal state) d text encoded refl)
          λ t d1 e. rw (e) (stored d1))
    where
      stored : (d1 : D) → Works (Stored text) (store_text disk dir state text) d1
      stored d1 =
          let (temp, works) = healthy.create_temp_works d1 in
          let (x, plain, at, only) = lawful.create_temp_ok d1 temp works in
          Works-bind (λ t d'. t ≡ temp) (Stored text) _ _ d1
            (Works-wrapped disk (λ t d'. t ≡ temp) _ _ d1
              (Works-call (λ t d'. t ≡ temp) (disk.create_temp dir ".tmp-*") d1 temp works refl))
            λ t d2 e.
              let other : disk.join dir pointer ≢ t =
                λ c. temp_other disk file dir lawful pointer x p plain (c ∙ e ∙ at) in
              removing-Works text t other (commit disk dir state text t) d2
                (commit-Works text t other state d2 same)

  consume-Works :
      (text : String) (state : State) (d : D)
      → file d (disk.join dir pointer) ≡ some text
      → disk.unmarshal text ≡ inl state
      → Works (λ s d'. (s ≡ state) × Gone d') (consume disk dir pointer) d
  unfolding consume claim_suffix
  consume-Works text state d stored decoded =
      let K = λ (s : State) (d' : D). (s ≡ state) × Gone d' in
      let J = λ (x : String) (d' : D). (has_char 47 x ≡ false) × Stored text tt d' in
      let (suffix, works) = healthy.random_works d in
      Works-with_pointer disk K pointer _ d p (
        Works-bind J K _ _ d
          (Works-wrapped disk J _ _ d (
            Works-call J disk.random_hex d suffix works (
              all_chars-has_char is_hex 47 suffix refl (lawful.random_hex_ok d suffix works),
              lawful.random_keeps d (disk.join dir pointer) ∙ stored,
            )))
          λ x d1 (plain, there). taken x d1 plain there)
    where
      taken :
          (suffix : String) (d1 : D)
          → has_char 47 suffix ≡ false
          → Stored text tt d1
          → Works (λ s d'. (s ≡ state) × Gone d') (take_claim disk dir pointer suffix) d1
      taken suffix d1 plain there =
          let K = λ (s : State) (d' : D). (s ≡ state) × Gone d' in
          let claim = claim_path disk dir pointer suffix in
          let J = λ (u : Unit {0}) (d' : D). (file d' claim ≡ some text) × Gone d' in
          let works = healthy.rename_works (disk.join dir pointer) claim text d1 there in
          let (t, from, to, gone, others) =
            lawful.rename_ok (disk.join dir pointer) claim d1 works (λ e.
              claim_other disk file dir lawful pointer pointer suffix p p plain
                (e ∙ claim_path-tail disk file dir lawful pointer suffix)) in
          Works-bind J K _ _ d1
            (Works-or_missing disk J _ pointer _ d1 (
              Works-call J (disk.rename (disk.join dir pointer) claim) d1 tt works
                (to ∙ cc (from, there), gone)))
            λ u d2 (content, gone2). reading claim d2 content gone2
        where
          reading :
              (claim : String) (d2 : D)
              → file d2 claim ≡ some text
              → Gone d2
              → Works (λ s d'. (s ≡ state) × Gone d') (read_claim disk dir pointer claim) d2
          reading claim d2 content gone =
              let K = λ (s : State) (d' : D). (s ≡ state) × Gone d' in
              let J = λ (t : String) (d' : D). (t ≡ text) × Gone d' in
              Works-bind J K _ _ d2
                (Works-wrapped disk J _ _ d2 (
                  Works-call J (disk.read_file claim) d2 text
                    (healthy.read_works claim text d2 content)
                    (refl, lawful.read_keeps claim d2 (disk.join dir pointer) ∙ gone)))
                λ t d3 (e, gone3).
                  Works-decoded disk K _ (disk.unmarshal t) d3 state (ap disk.unmarshal e ∙ decoded)
                    (refl, gone3)

  consume-Gone :
      (d : D)
      → Gone d
      → (d' : D) × (consume disk dir pointer d ≡ (err (no_such_pointer pointer), d'))
  unfolding consume claim_suffix pure
  consume-Gone d gone =
      let (suffix, works) = healthy.random_works d in
      let d1 = (disk.random_hex d).1 in
      let claim = claim_path disk dir pointer suffix in
      let still : Gone d1 = lawful.random_keeps d (disk.join dir pointer) ∙ gone in
      let (e, fails, missing) = lawful.rename_missing (disk.join dir pointer) claim d1 still in
      let what = labelled "could not claim state " pointer in
      let failed =
        or_missing-gone disk what pointer (disk.rename (disk.join dir pointer) claim) d1 e fails
          missing in
      let told : claim_suffix disk dir d ≡ (ok suffix, d1) =
        bind_ok (attempt disk.random_hex) _ d d1
          (attempt_ok disk.random_hex d d1 (ap (λ r. (r, d1)) works)) in
      (
        _,
        ap (λ o. checked disk o (claim_suffix disk dir >>= take_claim disk dir pointer) d) p
            ∙ bind_ok (claim_suffix disk dir) (take_claim disk dir pointer) d d1 {a = suffix} told
            ∙ bind_err _ (λ u. read_claim disk dir pointer claim) d1 _ failed,
      )

  -- A state is saved under a pointer that the store takes, on a disk whose calls do not fail. Then the
  -- save returns, a claim of the pointer returns the state as its encoding decodes, and one more claim is
  -- told that there is no such pointer.
  pub consume-save :
      (state : State) (text : String) (d : D)
      → state.pointer ≡ pointer
      → disk.marshal state ≡ inl text
      → (kept : State) × (disk.unmarshal text ≡ inl kept)
        × (kept.pointer ≡ pointer)
        × (d₁ : D) × (save disk dir state d ≡ (ok tt, d₁))
        × (d₂ : D) × (consume disk dir pointer d₁ ≡ (ok kept, d₂))
        × (d₃ : D) × (consume disk dir pointer d₂ ≡ (err (no_such_pointer pointer), d₃))
  consume-save state text d same encoded =
      let (kept, decoded, same_pointer) = lawful.marshal_ok state text encoded in
      let (u, d₁, saved, stored) = save-Works state text d same encoded in
      let (found, d₂, claimed, (e, gone)) = consume-Works text kept d₁ stored decoded in
      let (d₃, refused) = consume-Gone d₂ gone in
      let taken : consume disk dir pointer d₁ ≡ (ok kept, d₂) = claimed ∙ ap (λ s. (ok s, d₂)) e in
      (kept, decoded, same_pointer ∙ same, d₁, saved, d₂, taken, d₃, refused)
