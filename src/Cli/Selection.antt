-- ===== src/Cli/Selection.antt =====
-- internal/cli/store_selection.go, and requireManagedStore of run_store.go: the store that a command
-- is about, and the identity file.
use thimble.Base.{
  Bool, true, false, not, ◌&&◌, ◌||◌, Option, none, some, [], if◌then◌else◌, Bytes, codes, equal,
}
use thimble.Errors.{Result, ok, err, lstat_failed, store_not_found}
use thimble.Catalog.{Selection, Node, directory, symlink, regular, unreadable, resolve}
use thimble.Catalog.Paths.{clean, join}
use thimble.Cli.Dispatch.{is_mutating_command}

-- What the program asks of the operating system to choose its files.
pub record Places : Type 0 where
  pub getenv : Bytes → Bytes
  -- filepath.Abs, where the working directory is known
  pub abs : Bytes → Option Bytes
  -- os.UserHomeDir and os.UserConfigDir
  pub home : Option Bytes
  pub config : Option Bytes
  -- os.Lstat
  pub lstat : Bytes → Option Node

abbrev is_directory : Option Node → Bool
is_directory (some directory) = true
is_directory (some symlink) = false
is_directory (some regular) = false
is_directory (some unreadable) = false
is_directory none = false

abbrev is_regular : Option Node → Bool
is_regular (some regular) = true
is_regular (some directory) = false
is_regular (some symlink) = false
is_regular (some unreadable) = false
is_regular none = false

unfoldable pub existing_store : Places → Bytes → Bytes → Option Selection
existing_store os path source =
    if is_directory (os.lstat path) && is_regular (os.lstat (join path (codes "thimble.json")))
    then some (record { name = []; path = clean path; source = source; managed = false })
    else none

abbrev legacy : Bytes
legacy = codes "legacy ./secrets"

unfoldable pub existing_legacy_store : Places → Result (Option Selection)
unfolding existing_store
existing_legacy_store os = elim (os.abs (codes "secrets")) [
  | none ↦ err store_not_found
  | some path ↦ ok (existing_store os path legacy)
]

unfoldable pub existing_home_store : Places → Option Selection
unfolding existing_store
existing_home_store os = elim os.home [
  | none ↦ none
  | some home ↦
      if equal home []
      then none
      else existing_store os (join home (codes ".config/thimble/store"))
          (codes "~/.config/thimble/store")
]

unfoldable pub legacy_store_fallback : Places → Result Selection
legacy_store_fallback os = elim (os.abs (codes "secrets")) [
  | none ↦ err store_not_found
  | some path ↦ ok (record { name = []; path = path; source = legacy; managed = false })
]

abbrev or_fallback : Places → Result Selection → Result Selection
or_fallback os (ok s) = ok s
or_fallback os (err e) = legacy_store_fallback os

abbrev by_default : Places → Bytes → Option Selection → Option Selection → Result Selection
by_default os value (some s) home = ok s
by_default os value none (some s) = ok s
by_default os value none none = or_fallback os (resolve os.config value (codes "default"))

abbrev from_legacy : Places → Bytes → Result (Option Selection) → Result Selection
from_legacy os value (err e) = err e
from_legacy os value (ok found) = by_default os value found (existing_home_store os)

unfoldable pub resolve_store_selection : Places → Bytes → Bytes → Result Selection
unfolding existing_legacy_store existing_home_store legacy_store_fallback
resolve_store_selection os value source =
    if equal source (codes "default")
    then from_legacy os value (existing_legacy_store os)
    else resolve os.config value source

unfoldable pub default_identity_path : Places → Bytes
default_identity_path os =
    let configured = os.getenv (codes "THIMBLE_AGE_IDENTITY") in
    if not (equal configured [])
    then configured
    else elim os.home [ none ↦ [] | some home ↦ below home ]
  where
    below : Bytes → Bytes
    below home =
        let first = join home (codes ".config/thimble/identity") in
        let second = join home (codes ".config/thimble/identity.txt") in
        if equal home []
        then []
        else if is_regular (os.lstat first)
        then first
        else if is_regular (os.lstat second)
        then second
        else []

-- The message, which names an existing store, is left out.
unfoldable pub require_managed_store : Places → Selection → Bytes → Result (Unit {0})
require_managed_store os selection command =
    if not selection.managed || not (is_mutating_command command)
    then ok tt
    else elim (os.lstat selection.path) [
      | none ↦ err store_not_found
      | some directory ↦ ok tt
      | some symlink ↦ err store_not_found
      | some regular ↦ err store_not_found
      | some unreadable ↦ err lstat_failed
    ]
