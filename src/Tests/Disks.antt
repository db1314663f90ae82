-- ===== src/Tests/Disks.antt =====
-- A directory in memory: a disk on which states are saved, claimed and looked for.
pub mod Lawful
use Prim.Native.String.{◌++◌ as ◌<>◌}
use Prim.Native.Char.{code}
use Prim.Native.String.{[] as empty, ◌∷◌ as ◌then_char◌}
use cee.Prelude.{eqb, String, true, Option, none, some, List, [], ◌∷◌, inl, ◌==◌, if◌then◌else◌}
use cee.Maps.{Map, lookup, insert, remove}
use cee.Execution.Errors.{Err, plain}
use cee.Execution.Exec.{Exec, ok, err}
use cee.Execution.Types.{State}
use cee.Filestore.Files.{Disk}

-- the contents by path
abbrev pub Folder : Type 0
Folder = Map String

abbrev pub content : Folder → String → Option String
content d path = lookup path d

abbrev pub not_there : Err
not_there = plain "file does not exist"

abbrev pub moved : Option String → (from to : String) → Exec Folder (Unit {0})
moved none from to d = (err not_there, d)
moved (some text) from to d = (ok tt, insert to text (remove from d))

abbrev pub read : Option String → Exec Folder String
read none d = (err not_there, d)
read (some text) d = (ok text, d)

abbrev pub waiting : String → State
waiting pointer = record {
  pointer = pointer;
  workflow_id = "w";
  step_id = "wait";
  reason = "manager";
  audience = "";
  ctx = [];
  trace = [];
}

abbrev pub claims_pattern : String
claims_pattern = "runs/*.claimed"

-- one claim is there
abbrev pub found : String → List String
found pattern = if pattern == claims_pattern then "runs/a1.0af3.claimed" ∷ [] else []

unfoldable pub after_slash : String → String
after_slash empty = ""
after_slash (c then_char s) = let rest = after_slash s in if eqb (code c) 47 then s else rest

-- a state is kept by its pointer
abbrev pub folder : Disk Folder
folder = record {
  mkdir_all = λ path mode d. (ok tt, d);
  create_temp = λ dir pattern d. let temp = dir <> ("/" <> ".tmp-1") in (ok temp, insert temp "" d);
  write = λ path text d. (ok tt, insert path text d);
  sync = λ path d. (ok tt, d);
  close = λ path d. (ok tt, d);
  chmod = λ path mode d. (ok tt, d);
  rename = λ from to d. moved (content d from) from to d;
  read_file = λ path d. read (content d path) d;
  remove = λ path d. (ok tt, remove path d);
  glob = λ pattern d. (ok (found pattern), d);
  read_dir = λ path d. (ok [], d);
  mod_time = λ path d. (ok 3, d);
  now = λ d. (ok 10, d);
  random_hex = λ d. (ok "0af3", d);
  is_not_exist = λ e. true;
  join = λ dir name. dir <> ("/" <> name);
  base = after_slash;
  marshal = λ state. inl state.pointer;
  unmarshal = λ text. inl (waiting text);
}
