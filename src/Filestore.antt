-- ===== src/Filestore.antt =====
-- filestore/filestore.go: suspended runs as files of a directory. What the store uses of `os`,
-- `path/filepath`, `crypto/rand` and `encoding/json` is the parameter `Disk`, over the files `D`. The lock
-- is left out: an operation is a sequence of calls of the disk. Times are numbers.
pub mod Files
pub mod Names
pub mod Calls
pub mod Moves
pub mod Holds
pub mod Commits
pub mod Consumes
pub mod Refines
pub mod Listed
pub mod Healthy
pub mod Works
pub mod Once
use Prim.Native.String.{len}
use cee.Prelude.{
  ℕ, ◌-◌, String, Bool, true, false, Option, none, some, List, [], ◌∷◌, ◌++◌, ◌⊎◌, inl, inr, ◌==◌,
  ◌&&◌, ◌||◌, not, if◌then◌else◌, concat, quote, all_chars, leb, eqb, ltb,
}
use cee.Execution.Errors.{Err, plain, wrap}
use cee.Execution.Exec.{Exec, ok, err, pure, raise, attempt, ◌>>=◌, ◌>>◌}
use cee.Execution.Types.{State, Store}
use cee.Execution.MemoryStore.{no_such_pointer}
use cee.Filestore.Names.{claim_ext, pointer_from_claim}
use cee.Filestore.Files.{Disk, Entry}

-- the characters of the case of `checkPointer`
abbrev pub is_pointer_char : ℕ → Bool
is_pointer_char r =
    (leb 97 r && leb r 122)
    || ((leb 65 r && leb r 90) || ((leb 48 r && leb r 57) || (eqb r 45 || eqb r 95)))

-- the error, if the text is not a pointer
unfoldable pub check_pointer : String → Option Err
unfolding all_chars
check_pointer pointer =
    if pointer == ""
    then some (plain "filestore: empty resume pointer")
    else if ltb 128 (len pointer)
    then some (plain "filestore: resume pointer is too long")
    else if all_chars is_pointer_char pointer
    then none
    else some (
        plain (
          concat (
            "filestore: resume pointer "
            ∷ quote pointer
            ∷ " contains an unsupported character"
            ∷ [])))

pub record Orphan : Type 0 where
  pub pointer : String
  pub claimed_at : ℕ
  pub state : Option State

abbrev pub labelled : String → String → String
labelled what pointer = concat ("filestore: " ∷ what ∷ quote pointer ∷ ": " ∷ [])

module _ {D : Type 0} (disk : Disk D) where
  abbrev pub wrapped : {A : Type 0} → String → Exec D A → Exec D A
  wrapped prefix m = attempt m >>= λ r. elim r [ inl a ↦ pure a | inr e ↦ raise (wrap prefix e) ]

  -- the temporary file is closed before an error is returned
  abbrev pub closing : String → String → Exec D (Unit {0}) → Exec D (Unit {0})
  closing temp prefix m = attempt m >>= λ r. elim r [
    | inl a ↦ pure a
    | inr e ↦ attempt (disk.close temp) >> raise (wrap prefix e)
  ]

  -- an error of a file that is not there is told in the words of the engine's stores
  abbrev pub missing_or : String → String → Err → Err
  missing_or what pointer e = if disk.is_not_exist e then no_such_pointer pointer else wrap what e

  abbrev pub or_missing : {A : Type 0} → String → String → Exec D A → Exec D A
  or_missing what pointer m =
      attempt m >>= λ r. elim r [ inl a ↦ pure a | inr e ↦ raise (missing_or what pointer e) ]

  abbrev pub decoded : {A : Type 0} → String → A ⊎ Err → Exec D A
  decoded prefix (inl a) = pure a
  decoded prefix (inr e) = raise (wrap prefix e)

  abbrev pub checked : {A : Type 0} → Option Err → Exec D A → Exec D A
  checked none m = m
  checked (some e) m = raise e

  abbrev pub with_pointer : {A : Type 0} → String → Exec D A → Exec D A
  with_pointer pointer m = checked (check_pointer pointer) m

  -- `New`: the directory of the store
  unfoldable pub new : String → Exec D String
  new dir =
      if dir == ""
      then raise (plain "filestore: a directory is required")
      else wrapped (concat ("filestore: could not create " ∷ dir ∷ ": " ∷ []))
          (disk.mkdir_all dir 448)
        >> pure dir

  module _ (dir : String) where
    abbrev pub path : String → String
    path pointer = disk.join dir pointer

    -- the calls that fill the temporary file and put it in its place
    abbrev pub commit : State → String → String → Exec D (Unit {0})
    commit state text temp =
        closing temp (labelled "could not write state " state.pointer) (disk.write temp text)
        >> (closing temp (labelled "could not flush state " state.pointer) (disk.sync temp)
            >> (wrapped (labelled "could not close state " state.pointer) (disk.close temp)
                >> (wrapped (labelled "could not set permissions on state " state.pointer)
                      (disk.chmod temp 384)
                    >> wrapped (labelled "could not commit state " state.pointer)
                        (disk.rename temp (path state.pointer)))))

    abbrev pub ended : {A : Type 0} → A ⊎ Err → Exec D A
    ended (inl a) = pure a
    ended (inr e) = raise e

    -- defer os.Remove(tempName)
    abbrev pub removing : String → Exec D (Unit {0}) → Exec D (Unit {0})
    removing temp m = attempt m >>= λ r. attempt (disk.remove temp) >>= λ _. ended r

    abbrev pub store_text : State → String → Exec D (Unit {0})
    store_text state text =
        wrapped "filestore: could not create a temporary file: " (disk.create_temp dir ".tmp-*")
        >>= λ temp. removing temp (commit state text temp)

    unfoldable pub save : State → Exec D (Unit {0})
    save state = with_pointer state.pointer (
        decoded (labelled "could not encode state " state.pointer) (disk.marshal state)
        >>= store_text state)

    unfoldable pub load : String → Exec D State
    load pointer = with_pointer pointer (
        or_missing (labelled "could not read state " pointer) pointer
          (disk.read_file (path pointer))
        >>= λ text.
            decoded (concat ("filestore: state " ∷ quote pointer ∷ " is corrupt: " ∷ []))
              (disk.unmarshal text))

    unfoldable pub delete : String → Exec D (Unit {0})
    delete pointer = with_pointer pointer (
        or_missing (labelled "could not delete state " pointer) pointer
          (disk.remove (path pointer)))

    unfoldable pub claim_suffix : Exec D String
    claim_suffix = wrapped "filestore: could not generate a claim suffix: " disk.random_hex

    abbrev pub claim_path : String → String → String
    claim_path pointer suffix = concat (path pointer ∷ "." ∷ suffix ∷ claim_ext ∷ [])

    -- the file under its new name is read
    abbrev pub read_claim : String → String → Exec D State
    read_claim pointer claim =
        wrapped (labelled "could not read claimed state " pointer) (disk.read_file claim)
        >>= λ text.
            decoded (concat ("filestore: state " ∷ quote pointer ∷ " is corrupt: " ∷ []))
              (disk.unmarshal text)

    abbrev pub take_claim : String → String → Exec D State
    take_claim pointer suffix =
        or_missing (labelled "could not claim state " pointer) pointer
          (disk.rename (path pointer) (claim_path pointer suffix))
        >> read_claim pointer (claim_path pointer suffix)

    unfoldable pub consume : String → Exec D State
    unfolding claim_suffix
    consume pointer = with_pointer pointer (claim_suffix >>= take_claim pointer)

    -- an error of a claim that is gone already is passed over
    abbrev pub released : String → (Unit {0}) ⊎ Err → Exec D (Unit {0})
    released pointer (inl _) = pure tt
    released pointer (inr e) =
        if disk.is_not_exist e
        then pure tt
        else raise (wrap (labelled "could not release claim for " pointer) e)

    unfoldable pub remove_claims : String → List String → Exec D (Unit {0})
    remove_claims pointer [] = pure tt
    remove_claims pointer (claim ∷ claims) =
        (attempt (disk.remove claim) >>= released pointer) >> remove_claims pointer claims

    unfoldable pub release : String → Exec D (Unit {0})
    unfolding remove_claims
    release pointer = with_pointer pointer (
        wrapped (labelled "could not look up claims for " pointer)
          (disk.glob (concat (path pointer ∷ ".*" ∷ claim_ext ∷ [])))
        >>= remove_claims pointer)

    -- The state, where the text decodes as a whole. Go keeps of another text what it has decoded.
    abbrev pub read_back : String ⊎ Err → Option State
    read_back (inr e) = none
    read_back (inl text) = elim (disk.unmarshal text) [ inl state ↦ some state | inr e ↦ none ]

    abbrev pub orphan_of : String → ℕ → String ⊎ Err → List Orphan
    orphan_of claim claimed_at text =
        record {
          pointer = pointer_from_claim (disk.base claim);
          claimed_at = claimed_at;
          state = read_back text;
        }
        ∷ []

    -- a claim that cannot be looked at, or that is younger, is passed over
    abbrev pub old_orphan : ℕ → String → ℕ ⊎ Err → Exec D (List Orphan)
    old_orphan cutoff claim (inr e) = pure []
    old_orphan cutoff claim (inl at) =
        if ltb cutoff at
        then pure []
        else attempt (disk.read_file claim) >>= λ text. pure (orphan_of claim at text)

    unfoldable pub orphans_among : ℕ → List String → Exec D (List Orphan)
    orphans_among cutoff [] = pure []
    orphans_among cutoff (claim ∷ claims) =
        (attempt (disk.mod_time claim) >>= old_orphan cutoff claim) >>= λ found.
        orphans_among cutoff claims >>= λ rest. pure (found ++ rest)

    unfoldable pub orphaned : (min_age : ℕ) → Exec D (List Orphan)
    unfolding orphans_among
    orphaned min_age =
        wrapped "filestore: could not list claims: "
          (disk.glob (disk.join dir (concat ("*" ∷ claim_ext ∷ []))))
        >>= λ claims. disk.now >>= λ now. orphans_among (now - min_age) claims

    abbrev pub state_of : Option State → List State
    state_of none = []
    state_of (some state) = state ∷ []

    abbrev pub is_state_file : Entry → Bool
    is_state_file entry = elim (check_pointer entry.name) [
      | none ↦ not entry.is_dir
      | some e ↦ false
    ]

    unfoldable pub states_among : List Entry → Exec D (List State)
    states_among [] = pure []
    states_among (entry ∷ entries) = elim (is_state_file entry) [
      | false ↦ states_among entries
      | true ↦ attempt (disk.read_file (path entry.name)) >>= λ text.
          states_among entries >>= λ rest. pure (state_of (read_back text) ++ rest)
    ]

    unfoldable pub pending : Exec D (List State)
    unfolding states_among
    pending =
        wrapped (concat ("filestore: could not list " ∷ dir ∷ ": " ∷ [])) (disk.read_dir dir)
        >>= states_among

    -- The store as the engine sees it.
    abbrev pub as_store : Store D
    as_store = record { save = save; load = load; consume = consume; release = release }
