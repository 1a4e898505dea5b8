-- ===== src/Store/Commit.antt =====
-- internal/store/store.go and origins_rewrite.go: the commit of an edited namespace.
pub mod Files
pub mod Atomic
pub mod Written
pub mod Conflict
pub mod ReadBack
use thimble.Base.{
  ℕ, ◌+◌, ◌*◌, ◌%◌, ◌==◌, Bool, true, false, not, ◌&&◌, Option, none, some, List, [], ◌∷◌, Bytes,
  equal, if◌then◌else◌,
}
use thimble.Outside.{Outside}
use thimble.Errors.{Error, another_writer, save_origins_failed, save_manifest_failed}
use thimble.World.{
  World, File, missing, corrupt, holds, Origins, Io, pure, raise, lift, gets, ◌>>=◌, ◌>>◌, check,
  on_failure, notify, acquire_lock, sha_populated, bundle_not_rolled_back, origins_not_rolled_back,
}
use thimble.Store.Manifest.{EnvManifest, Manifest, env_from, merge_into}
use thimble.Store.Bundle.{
  load_manifest, save_manifest, origins_path, put_origins, save_origins, put_bundle,
  encrypt_and_write,
}

-- !ok || cur.Version == loadedVersion, for `cur, ok := envFrom(disk, app, env)`
abbrev pub unchanged : Option EnvManifest → ℕ → Bool
unchanged none loaded_version = true
unchanged (some cur) loaded_version = cur.version == loaded_version

unfoldable pub announce : Bytes → Bytes → Bytes → EnvManifest → Io (Unit {0})
announce app env prior_sha meta =
    if equal prior_sha [] && not (equal meta.bundle_sha256 [])
    then notify (sha_populated app env meta.bundle_sha256)
    else pure tt

-- The manifest that the edit loaded is overwritten by the one on the disk, so it is no argument.
unfoldable pub commit_env :
    Outside → Bytes → Bytes → EnvManifest → ℕ → Bytes → Bytes → Io (Unit {0})
commit_env o app env meta loaded_version prior_sha plain = do
  acquire_lock
  disk ← load_manifest
  check (unchanged (env_from disk app env) loaded_version) (another_writer app env)
  written ← encrypt_and_write o meta plain
  announce app env prior_sha written
  save_manifest (merge_into disk app env written)

pub record CommitInputs : Type 0 where
  pub app : Bytes
  pub env : Bytes
  pub meta : EnvManifest
  pub loaded_version : ℕ
  pub prior_sha : Bytes
  pub plain : Bytes
  pub origins : Origins

unfoldable pub rollback_bundle : Bytes → Option Bytes → Io (Unit {0})
rollback_bundle path prior = on_failure (put_bundle path prior) (λ e. notify bundle_not_rolled_back)

-- restoreOriginsBytesIgnoreErr
unfoldable pub restore_origins : Bytes → File Origins → Io (Unit {0})
restore_origins path prior =
    on_failure (put_origins path prior) (λ e. notify origins_not_rolled_back)

-- rollbackBundle and restoreOriginsBytesIgnoreErr, with the error that the commit returns
unfoldable pub roll_back : Bytes → Option Bytes → Bytes → File Origins → Error → Io (Unit {0})
roll_back file prior_bundle origins_file prior_origins e = do
  rollback_bundle file prior_bundle
  restore_origins origins_file prior_origins
  raise e

unfoldable pub commit_env_with_origins : Outside → CommitInputs → Io (Unit {0})
commit_env_with_origins o c = do
  acquire_lock
  disk ← load_manifest
  check (unchanged (env_from disk c.app c.env) c.loaded_version) (another_writer c.app c.env)
  prior_bundle ← gets (λ w. w.bundles c.meta.file)
  prior_origins ← gets (λ w. w.origins (origins_path c.app c.env))
  let undo = roll_back c.meta.file prior_bundle (origins_path c.app c.env) prior_origins
  written ← encrypt_and_write o c.meta c.plain
  on_failure (save_origins c.app c.env c.origins) (λ e. undo (save_origins_failed e))
  announce c.app c.env c.prior_sha written
  on_failure (save_manifest (merge_into disk c.app c.env written))
      (λ e. undo (save_manifest_failed e))
