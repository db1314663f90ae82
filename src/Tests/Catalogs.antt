-- ===== src/Tests/Catalogs.antt =====
-- A catalog with one plugin, over files that are a map of paths.
use cee.Prelude.{
  ◌≡◌, refl, false, none, some, Option, [], ◌∷◌, ◌⊎◌, inl, inr, concat, has, has_prefix,
}
use cee.Maps.{Map, lookup, insert}
use cee.Execution.Errors.{Err, plain}
use cee.Execution.Exec.{ok}
use cee.Manifest.Specs.{File}
use cee.Manifest.Validate.{is_ok, validate_step}
use cee.Manifest.ValidateFile.{validate}
use cee.Manifest.Graph.{validate_step_graph, validate_sub_workflow_acyclic}
use cee.Manifest.FindCycle.{find_cycle}
use cee.Manifest.Reach.{walk}
use cee.Catalog.{Catalog, Entry, Os, install, read_manifest, resolve, safe_name}
use cee.Catalog.Install.{Installs, Refuses, install_lem}
use cee.Stdlib.Actions.{Library}
use cee.Tests.Joins.{show}
use cee.Tests.Data.{World}
use cee.Tests.Validation.{two_files}

abbrev Files : Type 0
Files = Map File

abbrev read_back : Option File → File ⊎ Err
read_back none = inr (plain "no such file")
read_back (some file) = inl file

abbrev map_os : Os Files File
map_os = record {
  is_abs = λ path. false;
  abs = λ path. inl path;
  join = λ dir name. concat (dir ∷ "/" ∷ name ∷ []);
  clean = λ path. path;
  read_file = λ path d. read_back (lookup path d);
  mkdir_all = λ dir d. (ok tt, d);
  write_file = λ path file d. (ok tt, insert path file d);
  unmarshal = λ file. inl file;
  unmarshal_index = λ file. inl [];
  unmarshal_name = λ file. inl file.name;
}

abbrev shop_entry : Entry
shop_entry = record {
  name = "shop";
  description = "payments";
  version = "1";
  tier = "L1";
  domain = "shop";
  manifest = "shop.json";
  benchmark = "";
  tags = [];
}

abbrev plugins : Catalog
plugins = record { root = "plugins"; entries = shop_entry ∷ [] }

abbrev disk : Files
disk = ("plugins/shop.json", two_files) ∷ []

abbrev std : Library World
std = []

install_lem_example :
    Installs map_os show std plugins shop_entry "out" disk
    ⊎ Refuses map_os show std plugins shop_entry "out" disk
install_lem_example = install_lem map_os show std plugins shop_entry "out" disk

-- the manifest has no error and is installed
installed_shop : (install map_os show std plugins shop_entry "out" disk).0 ≡ ok "out/shop.json"
unfolding install safe_name read_manifest resolve lookup has_prefix concat is_ok validate has
    validate_step_graph find_cycle insert walk validate_step validate_sub_workflow_acyclic
installed_shop = refl
