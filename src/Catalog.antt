-- ===== src/Catalog.antt =====
-- catalog/catalog.go: a list of plugins with their manifests, which are read, checked and installed. Of
-- `path/filepath`, `os` and `encoding/json` the catalog uses the operations of `Os`, over the files `D`:
-- reading changes no file. `Entries` is the field `entries`; the reading of index.json is a parameter.
pub mod Install
pub mod Written
use cee.Prelude.{
  ℕ, String, Bool, true, false, Option, none, some, List, [], ◌∷◌, ◌++◌, ◌⊎◌, inl, inr, ◌==◌, ◌&&◌,
  ◌||◌, not, if◌then◌else◌, concat, quote, has, has_prefix, contains, all_chars, leb,
}
use cee.Value.{Value}
use cee.Execution.Errors.{Err, plain, wrap}
use cee.Execution.Texts.{error_text}
use cee.Execution.Exec.{Exec, ok, err, pure, raise, attempt, ◌>>=◌, ◌>>◌}
use cee.Manifest.Specs.{File}
use cee.Manifest.Validate.{Issue, error, warning, is_ok, error_of, warning_of}
use cee.Manifest.ValidateFile.{validate}
use cee.Manifest.Report.{report_text}
use cee.Stdlib.Actions.{Library}

pub record Entry : Type 0 where
  pub name : String
  pub description : String
  pub version : String
  pub tier : String
  pub domain : String
  pub manifest : String
  pub benchmark : String
  pub tags : List String

pub record Catalog : Type 0 where
  pub root : String
  pub entries : List Entry

-- What the catalog uses of Go's library.
pub record Os (D Bytes : Type 0) : Type 0 where
  pub is_abs : String → Bool
  pub abs : String → String ⊎ Err
  pub join : String → String → String
  pub clean : String → String
  pub read_file : String → D → Bytes ⊎ Err
  pub mkdir_all : String → Exec D (Unit {0})
  pub write_file : String → Bytes → Exec D (Unit {0})
  pub unmarshal : Bytes → File ⊎ Err
  pub unmarshal_index : Bytes → List Entry ⊎ Err
  pub unmarshal_name : Bytes → String ⊎ Err

-- the characters of the case of `safeName`
abbrev pub is_plain : ℕ → Bool
is_plain r =
    (leb 97 r && leb r 122)
    || ((leb 65 r && leb r 90)
        || ((leb 48 r && leb r 57) || ((leb 45 r && leb r 46) || (leb 95 r && leb r 95))))

-- the error, if the name is not a plain one
unfoldable pub safe_name : String → Option Err
unfolding all_chars contains
safe_name name =
    if name == ""
    then some (plain "catalog: empty plugin name")
    else if not (all_chars is_plain name)
    then some (
        plain (
          concat
            ("catalog: plugin name " ∷ quote name ∷ " contains an unsupported character" ∷ [])))
    else if name == "." || (name == ".." || contains name "..")
    then some (plain (concat ("catalog: plugin name " ∷ quote name ∷ " is not a plain name" ∷ [])))
    else none

unfoldable pub find_entry : List Entry → String → Option Entry
find_entry [] name = none
find_entry (e ∷ entries) name =
    let rest = find_entry entries name in if e.name == name then some e else rest

abbrev pub unless_err : {A B : Type 0} → A ⊎ Err → (A → B ⊎ Err) → B ⊎ Err
unless_err (inl a) f = f a
unless_err (inr e) f = inr e

abbrev pub wrapped : {A : Type 0} → String → A ⊎ Err → A ⊎ Err
wrapped prefix (inl a) = inl a
wrapped prefix (inr e) = inr (wrap prefix e)

module _ {D Bytes : Type 0} (os : Os D Bytes) where
  -- `Load`
  unfoldable pub load : String → D → Catalog ⊎ Err
  load root d =
      unless_err (wrapped "catalog: " (os.read_file (os.join root "index.json") d)) λ text.
        unless_err (wrapped "catalog: invalid index.json: " (os.unmarshal_index text))
          λ entries. inl (record { root = root; entries = entries })

  unfoldable pub manifest_path : Catalog → Entry → String
  manifest_path c e = os.join c.root (os.clean (concat ("/" ∷ e.manifest ∷ [])))

  -- full, if it does not leave the root
  abbrev pub confined : String → String → String → String ⊎ Err
  confined rel root_abs full =
      if full == root_abs || has_prefix full (concat (root_abs ∷ "/" ∷ []))
      then inl full
      else inr (plain (concat ("catalog: path " ∷ quote rel ∷ " escapes the catalog root" ∷ [])))

  unfoldable pub resolve : Catalog → String → String ⊎ Err
  resolve c rel =
      if rel == ""
      then inr (plain "catalog: empty path")
      else if os.is_abs rel
      then inr
          (plain (concat ("catalog: path " ∷ quote rel ∷ " must be relative to the catalog" ∷ [])))
      else unless_err (wrapped "catalog: " (os.abs c.root))
          λ root_abs. confined rel root_abs (os.join root_abs rel)

  unfoldable pub read_manifest : Catalog → Entry → D → Bytes ⊎ Err
  unfolding resolve
  read_manifest c e d = unless_err (resolve c e.manifest) λ path. os.read_file path d

  -- what was read, and whether there is a benchmark
  unfoldable pub read_benchmark : Catalog → Entry → D → Option (Bytes ⊎ Err)
  unfolding resolve
  read_benchmark c e d =
      if e.benchmark == ""
      then none
      else some (unless_err (resolve c e.benchmark) λ path. os.read_file path d)

  -- `manifestName`
  abbrev pub manifest_name : Bytes → Option String
  manifest_name text = elim (os.unmarshal_name text) [
    | inl name ↦ if name == "" then none else some name
    | inr failure ↦ none
  ]

  module _ {W : Type 0} (show : Value → String) (std : Library W) (c : Catalog) where
    abbrev pub report_of : Bytes → List Issue
    report_of text = validate show std os.unmarshal text

    abbrev pub name_mismatch : String → Entry → Option String → List Issue
    name_mismatch prefix e none = []
    name_mismatch prefix e (some name) =
        if not (e.domain == "") && not (name == e.domain)
        then warning_of (
            prefix
            ∷ ": entry domain "
            ∷ quote e.domain
            ∷ " does not match manifest name "
            ∷ quote name
            ∷ [])
        else []

    unfoldable pub prefixed : String → List Issue → List Issue
    prefixed prefix [] = []
    prefixed prefix (issue ∷ issues) =
        record issue { message = concat (prefix ∷ ": " ∷ issue.message ∷ []) }
        ∷ prefixed prefix issues

    abbrev pub data_issues : String → Entry → Bytes ⊎ Err → List Issue
    data_issues prefix e (inr failure) =
        error_of (prefix ∷ ": cannot read manifest: " ∷ error_text show failure ∷ [])
    data_issues prefix e (inl text) =
        name_mismatch prefix e (manifest_name text) ++ prefixed prefix (report_of text)

    -- the checks of an entry whose name is a plain one
    unfoldable pub entry_issues : List String → Entry → D → List Issue
    unfolding read_manifest prefixed
    entry_issues seen e d =
        let prefix = concat ("plugin " ∷ quote e.name ∷ []) in
        (if has e.name seen then error_of (prefix ∷ ": duplicate entry name" ∷ []) else [])
        ++ ((if e.tier == "L1" || e.tier == "L2"
              then []
              else error_of (prefix ∷ ": tier " ∷ quote e.tier ∷ " must be L1 or L2" ∷ []))
            ++ ((if e.version == "" then warning_of (prefix ∷ ": no version" ∷ []) else [])
                ++ (if e.manifest == ""
                    then error_of (prefix ∷ ": no manifest path" ∷ [])
                    else data_issues prefix e (read_manifest c e d))))

    unfoldable pub lint_entries : List String → List Entry → D → List Issue
    unfolding entry_issues safe_name
    lint_entries seen [] d = []
    lint_entries seen (e ∷ entries) d =
        if e.name == ""
        then error_of ("an entry is missing a name" ∷ []) ++ lint_entries seen entries d
        else elim (safe_name e.name) [
          | some failure ↦
              error_of ("plugin " ∷ quote e.name ∷ ": " ∷ error_text show failure ∷ [])
              ++ lint_entries seen entries d
          | none ↦ entry_issues seen e d ++ lint_entries (e.name ∷ seen) entries d
        ]

    -- `Lint`
    unfoldable pub lint : D → List Issue
    unfolding lint_entries
    lint d = lint_entries [] c.entries d

    abbrev pub wrapping : {A : Type 0} → Exec D A → Exec D A
    wrapping m = attempt m >>= λ r. elim r [ inl a ↦ pure a | inr e ↦ raise (wrap "catalog: " e) ]

    -- the directory and the file are made
    abbrev pub write_manifest : Entry → String → Bytes → Exec D String
    write_manifest e dest_dir text =
        let dest = os.join dest_dir (concat (e.name ∷ ".json" ∷ [])) in
        wrapping (os.mkdir_all dest_dir) >> (wrapping (os.write_file dest text) >> pure dest)

    abbrev pub refusal : Entry → Bytes → Err
    refusal e text = plain (
        concat (
          "catalog: refusing to install "
          ∷ quote e.name
          ∷ ", its manifest has errors:\n"
          ∷ report_text (report_of text)
          ∷ []))

    abbrev pub install_data : Entry → String → Bytes ⊎ Err → Exec D String
    install_data e dest_dir (inr failure) =
        raise
          (wrap (concat ("catalog: cannot read manifest for " ∷ quote e.name ∷ ": " ∷ [])) failure)
    install_data e dest_dir (inl text) =
        if is_ok (report_of text) then write_manifest e dest_dir text else raise (refusal e text)

    abbrev pub install_safe : Option Err → Entry → String → Exec D String
    install_safe (some failure) e dest_dir d = (err failure, d)
    install_safe none e dest_dir d = install_data e dest_dir (read_manifest c e d) d

    -- `Install`
    unfoldable pub install : Entry → String → Exec D String
    unfolding safe_name read_manifest ◌>>=◌ attempt
    install e dest_dir = install_safe (safe_name e.name) e dest_dir
