-- ===== src/Filestore/Commits.antt =====
-- The temporary file of `Save` of filestore/filestore.go is filled and put in the place of the state.
use cee.Prelude.{String, ◌≡◌, ◌≢◌, ap, sym, ◌∙◌, Option, some, inl}
use cee.Maps.{Map, insert}
use cee.Execution.Exec.{Exec}
use cee.Execution.Exec.Hoare.{After, After-bind, After-call}
use cee.Execution.Types.{State}
use cee.Filestore.Files.{Disk, IsLawful, Same}
use cee.Filestore.Calls.{After-wrapped, After-closing, After-removing}
use cee.Filestore.Moves.{IsPointer}
use cee.Filestore.Holds.{Holds, Holds-Same, Holds-ChangesOnly, Holds-insert}
use cee.Filestore.{commit, removing}

-- The state that the encoding of another one decodes to.
abbrev pub Encodes : {D : Type 0} → Disk D → State → State → Type 0
Encodes disk state kept =
    (text : String) × (disk.marshal state ≡ inl text) × (disk.unmarshal text ≡ inl kept)

module _ {D : Type 0} (disk : Disk D) (file : D → String → Option String) (dir : String)
    (lawful : IsLawful disk file dir) where
  abbrev pub H : D → Map State → Type 0
  H = Holds disk file dir

  module _ (states : Map State) where
    abbrev pub Still : D → Type 0
    Still d = H d states

    -- a call after which the same files are there
    pub keeps :
        {A : Type 0} (m : Exec D A) (d : D)
        → Same disk file d (m d).1
        → Still d
        → After (λ (a : A) d'. Still d') Still m d
    keeps m d same h =
        After-call _ _ m d (λ a e. Holds-Same disk file dir d (m d).1 states same h)
          (λ f e. Holds-Same disk file dir d (m d).1 states same h)

    closed : (temp : String) (d : D) → Still d → Still (disk.close temp d).1
    closed temp d h = Holds-Same disk file dir d _ states (lawful.close_keeps temp d) h

    module _ (state : State) (text temp : String) (kept : State) (p : IsPointer state.pointer)
        (decoded : disk.unmarshal text ≡ inl kept)
        (no_temp : (q : String) → IsPointer q → disk.join dir q ≢ temp) where
      -- the temporary file is filled
      abbrev Filled : D → Type 0
      Filled d = (file d temp ≡ some text) × Still d

      abbrev pub Put : Unit {0} → D → Type 0
      Put u d = H d (insert state.pointer kept states)

      filled :
          (m : Exec D (Unit {0})) (d : D)
          → Same disk file d (m d).1
          → Filled d
          → After (λ u d'. Filled d') Still m d
      filled m d same (content, h) =
          let h' = Holds-Same disk file dir d (m d).1 states same h in
          After-call _ _ m d (λ a e. (same temp ∙ content, h')) (λ f e. h')

      written : (d : D) → Still d → After (λ u d'. Filled d') Still (disk.write temp text) d
      written d h =
          let h' =
            Holds-ChangesOnly disk file dir temp d (disk.write temp text d).1 states no_temp
              (lawful.write_changes temp text d) h in
          After-call _ _ (disk.write temp text) d (λ u e. (lawful.write_ok temp text d e, h'))
            (λ f e. h')

      renamed :
          (d : D) → Filled d → After Put Still (disk.rename temp (disk.join dir state.pointer)) d
      renamed d (content, h) =
          After-call _ _ (disk.rename temp (disk.join dir state.pointer)) d
            (λ u e.
              let (t, from, to, gone, others) =
                lawful.rename_ok temp (disk.join dir state.pointer) d e
                  (λ same. no_temp state.pointer p (sym same)) in
              let same_text : t ≡ text = cc (from, content) in
              Holds-insert disk file dir lawful d
                (disk.rename temp (disk.join dir state.pointer) d).1 states state.pointer text temp
                kept p decoded (to ∙ ap some same_text) others no_temp h)
            (λ f e.
              Holds-Same disk file dir d _ states
                (lawful.rename_err temp (disk.join dir state.pointer) d f e) h)

      commit-Put : (d : D) → Still d → After Put Still (commit disk dir state text temp) d
      commit-Put d h =
          After-bind (λ u d'. Filled d') Put Still _ _ d
            (After-closing disk dir (λ u d'. Filled d') Still temp _ _ d (closed temp)
              (written d h))
            λ u d1 h1.
              After-bind (λ u d'. Filled d') Put Still _ _ d1
                (After-closing disk dir (λ u d'. Filled d') Still temp _ _ d1 (closed temp)
                  (filled (disk.sync temp) d1 (lawful.sync_keeps temp d1) h1))
                λ u d2 h2.
                  After-bind (λ u d'. Filled d') Put Still _ _ d2
                    (After-wrapped disk (λ u d'. Filled d') Still _ _ d2
                      (filled (disk.close temp) d2 (lawful.close_keeps temp d2) h2))
                    λ u d3 h3.
                      After-bind (λ u d'. Filled d') Put Still _ _ d3
                        (After-wrapped disk (λ u d'. Filled d') Still _ _ d3
                          (filled (disk.chmod temp 384) d3 (lawful.chmod_keeps temp 384 d3) h3))
                        λ u d4 h4. After-wrapped disk Put Still _ _ d4 (renamed d4 h4)

      pub removing-Put :
          (d : D)
          → Still d
          → After Put Still (removing disk dir temp (commit disk dir state text temp)) d
      removing-Put d h =
          After-removing disk dir Put Still temp (commit disk dir state text temp) d
            (λ u d' k.
              Holds-ChangesOnly disk file dir temp d' (disk.remove temp d').1
                (insert state.pointer kept states) no_temp (lawful.remove_changes temp d') k)
            (λ d' k.
              Holds-ChangesOnly disk file dir temp d' (disk.remove temp d').1 states no_temp
                (lawful.remove_changes temp d') k)
            (commit-Put d h)
