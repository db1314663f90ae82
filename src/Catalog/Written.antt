-- ===== src/Catalog/Written.antt =====
-- What `Install` of catalog/catalog.go does to the files of a plugin that it accepts.
use cee.Prelude.{String, ◌≡◌, refl, concat, [], ◌∷◌}
use cee.Value.{Value}
use cee.Execution.Errors.{Err, wrap}
use cee.Execution.Exec.{Outcome, ok, err, panic, attempt, pure, raise, ◌>>=◌}
use cee.Stdlib.Actions.{Library}
use cee.Catalog.{Catalog, Entry, Os, write_manifest}

module _ {D Bytes : Type 0} (os : Os D Bytes) (dest_dir : String) (name : String)
    (text : Bytes) where
  -- where the manifest is written
  abbrev pub dest : String
  dest = os.join dest_dir (concat (name ∷ ".json" ∷ []))

  -- The directory is made and the text is written to the file of that name in it, which is returned; the
  -- first of the two calls that fails ends it, with the error of the call, and so does one that panics.
  pub data Writes (d : D) : Outcome String × D → Type 0 where
    written :
        {d₁ d₂ : D}
        → os.mkdir_all dest_dir d ≡ (ok tt, d₁)
        → os.write_file dest text d₁ ≡ (ok tt, d₂)
        → Writes d (ok dest, d₂)
    no_directory :
        {d₁ : D} {failure : Err}
        → os.mkdir_all dest_dir d ≡ (err failure, d₁)
        → Writes d (err (wrap "catalog: " failure), d₁)
    no_file :
        {d₁ d₂ : D} {failure : Err}
        → os.mkdir_all dest_dir d ≡ (ok tt, d₁)
        → os.write_file dest text d₁ ≡ (err failure, d₂)
        → Writes d (err (wrap "catalog: " failure), d₂)
    directory_panics :
        {d₁ : D} {v : Value} → os.mkdir_all dest_dir d ≡ (panic v, d₁) → Writes d (panic v, d₁)
    file_panics :
        {d₁ d₂ : D} {v : Value}
        → os.mkdir_all dest_dir d ≡ (ok tt, d₁)
        → os.write_file dest text d₁ ≡ (panic v, d₂)
        → Writes d (panic v, d₂)

module _ {D Bytes W : Type 0} (os : Os D Bytes) (show : Value → String) (std : Library W)
    (c : Catalog) (e : Entry) (dest_dir : String) (text : Bytes) where
  after_directory :
      (d d₁ d₂ : D) (r : Outcome (Unit {0}))
      → os.mkdir_all dest_dir d ≡ (ok tt, d₁)
      → os.write_file (dest os dest_dir e.name text) text d₁ ≡ (r, d₂)
      → Writes os dest_dir e.name text d (write_manifest os show std c e dest_dir text d)
  unfolding ◌>>=◌ attempt pure raise
  after_directory d d₁ d₂ (ok u) made wrote = rw (made, wrote) (written made wrote)
  after_directory d d₁ d₂ (err failure) made wrote = rw (made, wrote) (no_file made wrote)
  after_directory d d₁ d₂ (panic v) made wrote = rw (made, wrote) (file_panics made wrote)

  by_directory :
      (d d₁ : D) (r : Outcome (Unit {0}))
      → os.mkdir_all dest_dir d ≡ (r, d₁)
      → Writes os dest_dir e.name text d (write_manifest os show std c e dest_dir text d)
  unfolding ◌>>=◌ attempt pure raise
  by_directory d d₁ (ok u) made = after_directory d d₁ _ _ made refl
  by_directory d d₁ (err failure) made = rw made (no_directory made)
  by_directory d d₁ (panic v) made = rw made (directory_panics made)

  pub write_manifest-Writes :
      (d : D) → Writes os dest_dir e.name text d (write_manifest os show std c e dest_dir text d)
  write_manifest-Writes d =
      by_directory d (os.mkdir_all dest_dir d).1 (os.mkdir_all dest_dir d).0 refl
