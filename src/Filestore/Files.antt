-- ===== src/Filestore/Files.antt =====
-- What filestore/filestore.go uses of Go's library, and what it relies on. A directory holds files by
-- name; `file` is the content that stands under a path.
use Prim.Native.String.{◌++◌ as ◌<>◌}
use cee.Prelude.{
  ℕ, String, ◌≡◌, ◌≢◌, Bool, true, false, Option, none, some, List, [], ◌∷◌, ◌⊎◌, inl, has_char,
  all_chars, leb, ◌&&◌, ◌||◌, concat,
}
use cee.Execution.Errors.{Err}
use cee.Execution.Exec.{Exec, ok, err}
use cee.Execution.Types.{State}

pub record Entry : Type 0 where
  pub name : String
  pub is_dir : Bool

pub record Disk (D : Type 0) : Type 0 where
  pub mkdir_all : String → ℕ → Exec D (Unit {0})
  pub create_temp : (dir pattern : String) → Exec D String
  pub write : (path text : String) → Exec D (Unit {0})
  pub sync : String → Exec D (Unit {0})
  pub close : String → Exec D (Unit {0})
  pub chmod : String → ℕ → Exec D (Unit {0})
  pub rename : (from to : String) → Exec D (Unit {0})
  pub read_file : String → Exec D String
  pub remove : String → Exec D (Unit {0})
  pub glob : String → Exec D (List String)
  pub read_dir : String → Exec D (List Entry)
  pub mod_time : String → Exec D ℕ
  pub now : Exec D ℕ
  pub random_hex : Exec D String
  pub is_not_exist : Err → Bool
  pub join : (dir name : String) → String
  pub base : String → String
  pub marshal : State → String ⊎ Err
  pub unmarshal : String → State ⊎ Err

-- A name of a file in a directory.
abbrev pub IsFileName : String → Type 0
IsFileName name = (has_char 47 name ≡ false) × (name ≢ "") × (name ≢ ".") × (name ≢ "..")

abbrev pub AllPaths : (String → Type 0) → List String → Type 0
AllPaths P [] = Unit
AllPaths P (path ∷ paths) = P path × AllPaths P paths

-- the digits of `hex.EncodeToString`
abbrev pub is_hex : ℕ → Bool
is_hex r = (leb 48 r && leb r 57) || (leb 97 r && leb r 102)

module _ {D : Type 0} (disk : Disk D) (file : D → String → Option String) where
  -- the same files
  abbrev pub Same : D → D → Type 0
  Same d d' = (path : String) → file d' path ≡ file d path

  abbrev pub Keeps : {A : Type 0} → Exec D A → Type 0
  Keeps m = (d : D) → Same d (m d).1

  -- no file changes but this one
  abbrev pub ChangesOnly : String → D → D → Type 0
  ChangesOnly changed d d' = (path : String) → path ≢ changed → file d' path ≡ file d path

  -- What is documented of the calls: in a directory whose path has no special characters of `Glob`.
  pub record IsLawful (dir : String) : Type 0 where
    pub sync_keeps : (path : String) → Keeps (disk.sync path)
    pub close_keeps : (path : String) → Keeps (disk.close path)
    pub chmod_keeps : (path : String) (mode : ℕ) → Keeps (disk.chmod path mode)
    pub read_keeps : (path : String) → Keeps (disk.read_file path)
    pub random_keeps : Keeps disk.random_hex
    pub glob_keeps : (pattern : String) → Keeps (disk.glob pattern)
    pub random_hex_ok :
        (d : D) (suffix : String)
        → (disk.random_hex d).0 ≡ ok suffix
        → all_chars is_hex suffix ≡ true
    pub create_temp_ok :
        (d : D) (temp : String)
        → (disk.create_temp dir ".tmp-*" d).0 ≡ ok temp
        → (x : String) × (has_char 47 x ≡ false)
          × (temp ≡ disk.join dir (".tmp-" <> x))
          × ChangesOnly temp d (disk.create_temp dir ".tmp-*" d).1
    pub create_temp_err :
        (d : D) (e : Err)
        → (disk.create_temp dir ".tmp-*" d).0 ≡ err e
        → Same d (disk.create_temp dir ".tmp-*" d).1
    pub write_ok :
        (path text : String) (d : D)
        → (disk.write path text d).0 ≡ ok tt
        → file (disk.write path text d).1 path ≡ some text
    pub write_changes : (path text : String) (d : D) → ChangesOnly path d (disk.write path text d).1
    pub remove_changes : (path : String) (d : D) → ChangesOnly path d (disk.remove path d).1
    pub rename_ok :
        (from to : String) (d : D)
        → (disk.rename from to d).0 ≡ ok tt
        → from ≢ to
        → (text : String) × (file d from ≡ some text)
          × (file (disk.rename from to d).1 to ≡ some text)
          × (file (disk.rename from to d).1 from ≡ none)
          × ((path : String)
              → path ≢ from
              → path ≢ to
              → file (disk.rename from to d).1 path ≡ file d path)
    pub rename_err :
        (from to : String) (d : D) (e : Err)
        → (disk.rename from to d).0 ≡ err e
        → Same d (disk.rename from to d).1
    pub rename_missing :
        (from to : String) (d : D)
        → file d from ≡ none
        → (e : Err) × ((disk.rename from to d).0 ≡ err e) × (disk.is_not_exist e ≡ true)
    pub read_ok :
        (path : String) (d : D) (text : String)
        → (disk.read_file path d).0 ≡ ok text
        → file d path ≡ some text
    pub glob_ok :
        (pointer : String) (d : D) (paths : List String)
        → IsFileName pointer
        → (disk.glob (concat (disk.join dir pointer ∷ ".*" ∷ ".claimed" ∷ [])) d).0 ≡ ok paths
        → AllPaths
            (λ path.
              (x : String) × (has_char 47 x ≡ false)
              × (path ≡ disk.join dir pointer <> ("." <> (x <> ".claimed"))))
            paths
    pub join_injective :
        (a b : String) → IsFileName a → IsFileName b → disk.join dir a ≡ disk.join dir b → a ≡ b
    pub join_append :
        (a b : String)
        → IsFileName a
        → has_char 47 b ≡ false
        → disk.join dir a <> b ≡ disk.join dir (a <> b)
    pub marshal_ok :
        (state : State) (text : String)
        → disk.marshal state ≡ inl text
        → (read : State) × (disk.unmarshal text ≡ inl read) × (read.pointer ≡ state.pointer)
