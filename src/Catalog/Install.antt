-- ===== src/Catalog/Install.antt =====
-- What `Install` of catalog/catalog.go writes, and when it writes nothing.
use cee.Prelude.{
  ap, subst, all_chars-has_char, String, ◌≡◌, refl, sym, ◌∙◌, true, false, none, ◌⊎◌, inl, inr,
  ◌==◌, ◌||◌, concat, [], ◌∷◌, has_prefix, has_char, contains, all_chars, arith, Bool-cases,
  Option-cases,
}
use cee.Value.{Value}
use cee.Execution.Errors.{Err}
use cee.Execution.Exec.{err, raise}
use cee.Manifest.Specs.{File}
use cee.Manifest.Validate.{is_ok}
use cee.Manifest.ValidateFile.{validate, validate_decoded, validate_file}
use cee.Stdlib.Actions.{Library}
use cee.Catalog.Written.{Writes, write_manifest-Writes}
use cee.Catalog.{
  Catalog, Entry, Os, is_plain, safe_name, unless_err, wrapped, confined, resolve, read_manifest,
  report_of, write_manifest, refusal, install_data, install,
}

inl-injective : {A B : Type 0} {a b : A} → ◌≡◌ {A = A ⊎ B} (inl a) (inl b) → a ≡ b
inl-injective h = cc

unless_err-inl :
    {A B : Type 0} (r : A ⊎ Err) (f : A → B ⊎ Err) {b : B}
    → unless_err r f ≡ inl b
    → (a : A) × (r ≡ inl a) × (f a ≡ inl b)
unless_err-inl (inl a) f h = (a, refl, h)
unless_err-inl (inr e) f h = absurd (cc h)

wrapped-inl :
    {A : Type 0} (prefix : String) (r : A ⊎ Err) {a : A} → wrapped prefix r ≡ inl a → r ≡ inl a
wrapped-inl prefix (inl b) h = h
wrapped-inl prefix (inr e) h = absurd (cc h)

-- no character that a plain name may have is a separator
has_char-plain : (name : String) → all_chars is_plain name ≡ true → has_char 47 name ≡ false
has_char-plain name h = all_chars-has_char is_plain 47 name refl h

-- A plain name: not empty, of letters, digits, dots, dashes and underscores, and neither a dot nor a text
-- with two dots in a row.
abbrev pub IsPlainName : String → Type 0
IsPlainName name =
    ((name == "") ≡ false)
    × (all_chars is_plain name ≡ true)
    × ((name == ".") ≡ false)
    × ((name == "..") ≡ false)
    × (contains name ".." ≡ false)

-- a plain name has no separator
IsPlainName-has_char : (name : String) → IsPlainName name → has_char 47 name ≡ false
IsPlainName-has_char name h = has_char-plain name h.1

safe_name-IsPlainName : (name : String) → safe_name name ≡ none → IsPlainName name
unfolding safe_name
safe_name-IsPlainName name h =
    (ground (arith, h), ground (arith, h), ground (arith, h), ground (arith, h), ground (arith, h))

IsPlainName-safe_name : (name : String) → IsPlainName name → safe_name name ≡ none
unfolding safe_name
IsPlainName-safe_name name (a, b, c, d, e) = ground (arith, a, b, c, d, e)

module _ {D Bytes W : Type 0} (os : Os D Bytes) (show : Value → String) (std : Library W)
    (c : Catalog) where
  abbrev Inside : String → String → Type 0
  Inside path root_abs = (path == root_abs || has_prefix path (concat (root_abs ∷ "/" ∷ []))) ≡ true

  -- What a path of the index stands for: relative and not empty, it is joined to the root of the catalog
  -- and stays at or below it.
  abbrev pub Resolves : String → String → Type 0
  Resolves rel path =
      ((rel == "") ≡ false)
      × (os.is_abs rel ≡ false)
      × (root_abs : String) × (os.abs c.root ≡ inl root_abs)
      × (path ≡ os.join root_abs rel)
      × ((path == root_abs || has_prefix path (concat (root_abs ∷ "/" ∷ []))) ≡ true)

  confined_lem :
      (rel root_abs full path : String)
      → confined os rel root_abs full ≡ inl path
      → (path ≡ full) × Inside path root_abs
  confined_lem rel root_abs full path h =
      elim (Bool-cases (full == root_abs || has_prefix full (concat (root_abs ∷ "/" ∷ [])))) [
        | inl inside ↦
            let same : full ≡ path = inl-injective (sym (rw (inside) refl) ∙ h) in
            (sym same, subst (λ p. Inside p root_abs) same inside)
        | inr outside ↦ absurd (cc (outside, h))
      ]

  resolve-Resolves : (rel path : String) → resolve os c rel ≡ inl path → Resolves rel path
  unfolding resolve
  resolve-Resolves rel path h = elim (Bool-cases (rel == "")) [
    | inl e ↦ absurd (cc (e, h))
    | inr e ↦ elim (Bool-cases (os.is_abs rel)) [
      | inl a ↦ absurd (cc (e, a, h))
      | inr a ↦
          let joined : (unless_err (wrapped "catalog: " (os.abs c.root))
                λ root_abs. confined os rel root_abs (os.join root_abs rel))
              ≡ inl path =
            rw (e, a) at h in
          let (root_abs, found, inside) =
            unless_err-inl (wrapped "catalog: " (os.abs c.root)) _ joined in
          let (same, below) = confined_lem rel root_abs (os.join root_abs rel) path inside in
          let root_found = wrapped-inl "catalog: " (os.abs c.root) found in
          (e, a, root_abs, root_found, same, below)
    ]
  ]

  Resolves-resolve : (rel path : String) → Resolves rel path → resolve os c rel ≡ inl path
  unfolding resolve
  Resolves-resolve rel path (e, a, root_abs, found, same, inside) =
      let below : Inside (os.join root_abs rel) root_abs =
        subst (λ p. Inside p root_abs) same inside in
      rw (e, a, found, below) (ap inl (sym same))

  -- An entry that may be installed: a plain name, and a manifest that is read where its path stands for,
  -- that decodes and has no error.
  abbrev pub Installable : Entry → D → Bytes → Type 0
  Installable e d text =
      IsPlainName e.name
      × ((path : String) × Resolves e.manifest path × (os.read_file path d ≡ inl text))
      × ((file : File) × (os.unmarshal text ≡ inl file)
          × (is_ok (validate_file show std file) ≡ true))

  -- The manifest of an entry that may be installed is written as it was read, to the file of the name,
  -- which has no separator.
  abbrev pub Installs : Entry → String → D → Type 0
  Installs e dest_dir d =
      (text : Bytes) × Installable e d text
      × (has_char 47 e.name ≡ false)
      × Writes os dest_dir e.name text d (install os show std c e dest_dir d)

  -- An entry that may not be installed is refused, and nothing is changed.
  abbrev pub Refuses : Entry → String → D → Type 0
  Refuses e dest_dir d =
      ((text : Bytes) → ¬ Installable e d text)
      × (failure : Err) × (install os show std c e dest_dir d ≡ (err failure, d))

  read_manifest_lem :
      (e : Entry) (d : D) (text : Bytes)
      → read_manifest os c e d ≡ inl text
      → (path : String) × Resolves e.manifest path × (os.read_file path d ≡ inl text)
  unfolding read_manifest
  read_manifest_lem e d text h =
      let (path, found, rest) = unless_err-inl (resolve os c e.manifest) _ h in
      (path, resolve-Resolves e.manifest path found, rest)

  Installable-read_manifest :
      (e : Entry) (d : D) (text : Bytes) → Installable e d text → read_manifest os c e d ≡ inl text
  unfolding read_manifest
  Installable-read_manifest e d text (plain, (path, resolves, found), valid) =
      ap (λ r. unless_err r λ p. os.read_file p d) (Resolves-resolve e.manifest path resolves)
      ∙ found

  validate_decoded_lem :
      (r : File ⊎ Err)
      → is_ok (validate_decoded show std r) ≡ true
      → (file : File) × (r ≡ inl file) × (is_ok (validate_file show std file) ≡ true)
  unfolding is_ok
  validate_decoded_lem (inl file) h = (file, refl, h)
  validate_decoded_lem (inr failure) h = absurd (cc h)

  Installable-is_ok :
      (e : Entry) (d : D) (text : Bytes)
      → Installable e d text
      → is_ok (report_of os show std c text) ≡ true
  unfolding validate
  Installable-is_ok e d text (plain, found, (file, decoded, valid)) =
      ap (λ r. is_ok (validate_decoded show std r)) decoded ∙ valid

  install_data_lem :
      (e : Entry) (dest_dir : String) (d : D) (r : Bytes ⊎ Err)
      → IsPlainName e.name
      → read_manifest os c e d ≡ r
      → install os show std c e dest_dir d ≡ install_data os show std c e dest_dir r d
      → Installs e dest_dir d ⊎ Refuses e dest_dir d
  unfolding raise validate
  install_data_lem e dest_dir d (inr failure) plain h same =
      inr ((λ text i. absurd (cc (h, Installable-read_manifest e d text i))), _, same)
  install_data_lem e dest_dir d (inl text) plain h same =
      elim (Bool-cases (is_ok (report_of os show std c text))) [
        | inr bad ↦
            let refused : (t : Bytes) → ¬ Installable e d t = λ t i.
              let at_text : text ≡ t = inl-injective (sym h ∙ Installable-read_manifest e d t i) in
              let good = Installable-is_ok e d t i in
              absurd (
                cc (
                  bad,
                  subst (λ x. is_ok (report_of os show std c x) ≡ true) (sym at_text) good,
                )) in
            inr (refused, refusal os show std c e text, same ∙ rw (bad) refl)
        | inl good ↦
            let read = read_manifest_lem e d text h in
            let valid = validate_decoded_lem (os.unmarshal text) good in
            let may : Installable e d text = (plain, read, valid) in
            let accepted : install os show std c e dest_dir d
                ≡ write_manifest os show std c e dest_dir text d =
              same ∙ rw (good) refl in
            let writes = write_manifest-Writes os show std c e dest_dir text d in
            let done = subst (Writes os dest_dir e.name text d) (sym accepted) writes in
            inl (text, may, IsPlainName-has_char e.name plain, done)
      ]

  -- `Install` makes the directory and writes the manifest of an entry, as it was read, to the file of its
  -- name there, up to the first of the two calls that fails or panics, if the name is a plain one, the
  -- path stays at or below the root of the catalog and can be read, and the manifest decodes and has no
  -- error; any other entry is refused with an error, and nothing is changed.
  pub install_lem :
      (e : Entry) (dest_dir : String) (d : D) → Installs e dest_dir d ⊎ Refuses e dest_dir d
  unfolding install
  install_lem e dest_dir d = elim (Option-cases (safe_name e.name)) [
    | inr (failure, bad) ↦
        inr
          ((λ text i. absurd (cc (bad, IsPlainName-safe_name e.name i.0))), failure, rw (bad) refl)
    | inl good ↦
        install_data_lem e dest_dir d (read_manifest os c e d) (safe_name-IsPlainName e.name good)
          refl (rw (good) refl)
  ]
