-- ===== src/Filestore/Healthy.antt =====
-- A disk whose calls do not fail, as filestore/filestore.go uses it.
use cee.Prelude.{String, ◌≡◌, Option, some, ◌⊎◌}
use cee.Execution.Errors.{Err}
use cee.Execution.Exec.{ok, attempt}
use cee.Filestore.Files.{Disk}

module _ {D : Type 0} (disk : Disk D) (file : D → String → Option String) where
  -- The calls that the store makes do not fail where there is what they ask for, and a removal does not
  -- panic.
  pub record IsHealthy (dir : String) : Type 0 where
    pub create_temp_works :
        (d : D) → (temp : String) × ((disk.create_temp dir ".tmp-*" d).0 ≡ ok temp)
    pub write_works : (path text : String) (d : D) → (disk.write path text d).0 ≡ ok tt
    pub sync_works : (path : String) (d : D) → (disk.sync path d).0 ≡ ok tt
    pub close_works : (path : String) (d : D) → (disk.close path d).0 ≡ ok tt
    pub chmod_works : (path : String) (d : D) → (disk.chmod path 384 d).0 ≡ ok tt
    pub rename_works :
        (from to text : String) (d : D)
        → file d from ≡ some text
        → (disk.rename from to d).0 ≡ ok tt
    pub read_works :
        (path text : String) (d : D) → file d path ≡ some text → (disk.read_file path d).0 ≡ ok text
    pub random_works : (d : D) → (suffix : String) × ((disk.random_hex d).0 ≡ ok suffix)
    pub remove_ends :
        (path : String) (d : D) → (r : (Unit {0}) ⊎ Err) × ((attempt (disk.remove path) d).0 ≡ ok r)
