-- ===== src/Catalog.antt =====
-- internal/storecatalog: the stores below the user's configuration directory.
pub mod Paths
pub mod Within
pub mod Created
use thimble.Base.{
  ℕ, Bool, true, false, not, ◌&&◌, ◌||◌, Option, none, some, List, [], ◌∷◌, ◌++◌, ◌==◌,
  if◌then◌else◌, Bytes, codes, equal, has_prefix,
}
use thimble.Errors.{
  Error, Result, ok, err, ◌>>=◌, ◌>>◌, require, invalid_store_name, no_config_directory,
  path_escapes_root, not_related, lstat_failed, not_a_directory, write_failed,
}
use thimble.World.{File, missing, corrupt, holds, next_fails, later_faults, write_file}
use thimble.Store.Manifest.{Manifest, empty_manifest}
use thimble.Store.Validate.{validate_name}
use thimble.Catalog.Paths.{dot, dots, is_absolute, segments, clean, join, rel}

pub data Status : Type 0 where
  missing_store empty_store valid_store invalid_store : Status

pub record Entry : Type 0 where
  pub name : Bytes
  pub path : Bytes
  pub status : Status

pub record Selection : Type 0 where
  pub name : Bytes
  pub path : Bytes
  pub source : Bytes
  pub managed : Bool

-- What os.Lstat says of a path that is there; `unreadable` is any other error.
pub data Node : Type 0 where
  directory symlink regular unreadable : Node

-- The files, and the manifest at each store's path. A fault makes the next write fail.
pub record Tree : Type 0 where
  pub nodes : Bytes → Option Node
  pub manifests : Bytes → File Manifest
  pub faults : List Bool

-- the raw segments that the first loop of cleanManagedName refuses
unfoldable pub is_special : Bytes → Bool
is_special s = equal s [] || equal s dot || equal s dots

unfoldable pub check_raw : Bytes → List Bytes → Result (Unit {0})
unfolding is_special
check_raw value [] = ok tt
check_raw value (s ∷ ss) = do
  require (not (is_special s)) (invalid_store_name value)
  check_raw value ss

-- the second loop
unfoldable pub check_segments : Bytes → List Bytes → Result (Unit {0})
unfolding is_special
check_segments value [] = ok tt
check_segments value (s ∷ ss) = do
  require (not (is_special s)) (invalid_store_name value)
  validate_name (codes "store name") s
  check_segments value ss

unfoldable pub clean_managed_name : Bytes → Result Bytes
unfolding check_raw check_segments
clean_managed_name value = do
  check_raw value (segments value)
  require (not (equal (clean value) dot || equal (clean value) dots || is_absolute (clean value)))
      (invalid_store_name value)
  check_segments value (segments (clean value))
  ok (clean value)

unfoldable pub check_rel : Option Bytes → Result (Unit {0})
check_rel none = err not_related
check_rel (some way) =
    require (not (equal way dots || has_prefix way (codes "../"))) path_escapes_root

unfoldable pub ensure_within_root : Bytes → Bytes → Result (Unit {0})
unfolding check_rel
ensure_within_root root path = check_rel (rel root path)

-- resolveName, and the managed case of Resolve
unfoldable pub resolve_name : Bytes → Bytes → Bytes → Result Selection
unfolding ensure_within_root
resolve_name root source value = do
  name ← clean_managed_name value
  ensure_within_root root (join root name)
  ok (record { name = name; path = join root name; source = source; managed = true })

-- Root, for os.UserConfigDir
unfoldable pub root_of : Option Bytes → Result Bytes
root_of none = err no_config_directory
root_of (some config) = ok (join config (codes "thimble/stores"))

unfoldable pub resolve_value : Option Bytes → Bytes → Bytes → Result Selection
unfolding resolve_name root_of
resolve_value config value source =
    if is_absolute value
    then ok (record { name = []; path = clean value; source = source; managed = false })
    else do root ← root_of config; resolve_name root source value

-- Resolve; the empty value stands for the default name
unfoldable pub resolve : Option Bytes → Bytes → Bytes → Result Selection
unfolding resolve_value
resolve config value source =
    resolve_value config (if equal value [] then codes "default" else value) source

-- os.Mkdir
unfoldable pub make_directory : Bytes → Tree → Result (Unit {0}) × Tree
make_directory path t =
    let t' = record t { faults = later_faults t.faults } in
    if next_fails t.faults
    then (err write_failed, t')
    else (ok tt, record t' { nodes = write_file t.nodes path (some directory) })

abbrev pub then_continue :
    Result (Unit {0}) × Tree → (Tree → Result (Unit {0}) × Tree) → Result (Unit {0}) × Tree
then_continue (ok done, t) rest = rest t
then_continue (err e, t) rest = (err e, t)

-- the switch of makeManagedPath's loop
unfoldable pub enter : Bytes → Tree → Result (Unit {0}) × Tree
unfolding make_directory
enter path t = elim (t.nodes path) [
  | none ↦ make_directory path t
  | some directory ↦ (ok tt, t)
  | some unreadable ↦ (err lstat_failed, t)
  | some symlink ↦ (err (not_a_directory path), t)
  | some regular ↦ (err (not_a_directory path), t)
]

unfoldable pub walk : Bytes → List Bytes → Tree → Result (Unit {0}) × Tree
unfolding enter
walk current [] t = (ok tt, t)
walk current (s ∷ ss) t = then_continue (enter (join current s) t) (walk (join current s) ss)

-- os.MkdirAll of the root: a link that leads to a directory is left as it is
unfoldable pub make_root : Bytes → Tree → Result (Unit {0}) × Tree
unfolding make_directory
make_root root t = elim (t.nodes root) [
  | none ↦ make_directory root t
  | some directory ↦ (ok tt, t)
  | some symlink ↦ (ok tt, t)
  | some regular ↦ (err (not_a_directory root), t)
  | some unreadable ↦ (err lstat_failed, t)
]

-- splitPath, on a path that Rel has cleaned
unfoldable pub split_path : Bytes → List Bytes
split_path path = if equal path dot || equal path [] then [] else segments path

unfoldable pub walk_way : Bytes → Option Bytes → Tree → Result (Unit {0}) × Tree
unfolding walk split_path
walk_way root none t = (err not_related, t)
walk_way root (some way) t = walk root (split_path way) t

unfoldable pub make_managed_path : Bytes → Bytes → Tree → Result (Unit {0}) × Tree
unfolding make_root walk_way
make_managed_path root path t = then_continue (make_root root t) (walk_way root (rel root path))

-- The file is made first and written then: a write that fails leaves it empty.
unfoldable pub write_manifest : Bytes → Tree → Result (Unit {0}) × Tree
write_manifest path t =
    let opened = record t {
      faults = later_faults t.faults;
      manifests = write_file t.manifests path corrupt;
    } in
    let last = record opened { faults = later_faults opened.faults } in
    if next_fails t.faults
    then (err write_failed, record t { faults = later_faults t.faults })
    else if next_fails opened.faults
    then (err write_failed, last)
    else (ok tt, record last { manifests = write_file t.manifests path (holds empty_manifest) })

unfoldable pub initialize_manifest : Bytes → Tree → Result (Unit {0}) × Tree
unfolding write_manifest
initialize_manifest path t = elim (t.manifests path) [
  | missing ↦ write_manifest path t
  | corrupt ↦ (ok tt, t)
  | holds m ↦ (ok tt, t)
]

-- Create, whose source is the web's
unfoldable pub create : Bytes → Bytes → Tree → Result Selection × Tree
unfolding make_managed_path initialize_manifest resolve_name
create root name t = elim (resolve_name root (codes "web UI") name) [
  | err e ↦ (err e, t)
  | ok selection ↦
      let (r, last) =
        then_continue (make_managed_path root selection.path t)
          (initialize_manifest selection.path) in
      (r >> ok selection, last)
]

unfoldable pub inspect_manifest : File Manifest → Status
inspect_manifest missing = empty_store
inspect_manifest corrupt = invalid_store
inspect_manifest (holds m) = if m.version == 0 then invalid_store else valid_store

unfoldable pub status_of : Option Node → File Manifest → Status
unfolding inspect_manifest
status_of none file = missing_store
status_of (some directory) file = inspect_manifest file
status_of (some symlink) file = invalid_store
status_of (some regular) file = invalid_store
status_of (some unreadable) file = invalid_store

unfoldable pub inspect : Selection → Tree → Entry
unfolding status_of
inspect s t = record {
  name = s.name;
  path = s.path;
  status = status_of (t.nodes s.path) (t.manifests s.path);
}
