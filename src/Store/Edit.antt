-- ===== src/Store/Edit.antt =====
-- internal/store/store.go and origins_rewrite.go: reading a namespace, and editing it.
pub mod Inverse
use thimble.Base.{ℕ, ◌+◌, ◌%◌, ◌^◌, [], ◌∷◌, Bytes, codes, if◌then◌else◌}
use thimble.Base.Dict.{has}
use thimble.Outside.{Outside}
use thimble.Errors.{Result, not_initialized}
use thimble.World.{Origins, Io, pure, lift, ◌>>=◌, ◌>>◌, require_some, tick, acquire_lock}
use thimble.Dotenv.{Values, parse, encode}
use thimble.Store.Validate.{validate_name}
use thimble.Store.Manifest.{EnvManifest, env_from}
use thimble.Store.Bundle.{load_manifest, load_origins, decrypt}
use thimble.Store.Commit.{commit_env, commit_env_with_origins}

unfoldable pub validate_names : Bytes → Bytes → Io (Unit {0})
validate_names app env = do
  lift (validate_name (codes "app") app)
  lift (validate_name (codes "environment") env)

-- loadEnvForEdit; the manifest that it also returns is overwritten by the commit
unfoldable pub load_env_for_edit : Bytes → Bytes → Io EnvManifest
load_env_for_edit app env = do
  acquire_lock
  m ← load_manifest
  require_some (env_from m app env) (not_initialized app env)

unfoldable pub find : Bytes → Bytes → Io EnvManifest
find app env = do validate_names app env; load_env_for_edit app env

unfoldable pub read_env : Outside → Bytes → Bytes → Io (Values × EnvManifest)
read_env o app env = do
  meta ← find app env
  plain ← decrypt o meta
  values ← lift (parse plain)
  pure (values, meta)

-- now().UTC().Format(time.RFC3339)
unfoldable pub now : Outside → Io Bytes
now o = do n ← tick; pure (o.clock n)

-- loadedVersion + 1 on uint64
abbrev pub next_version : ℕ → ℕ
next_version v = (v + 1) % 2 ^ 64

abbrev pub stamped : EnvManifest → Bytes → ℕ → EnvManifest
stamped meta time loaded_version = record meta {
  updated_at = time;
  version = next_version loaded_version;
}

-- The edits that rewriteEnv is given change the entry and leave the values alone.
unfoldable pub rewrite_env :
    Outside → Bytes → Bytes → (EnvManifest → Result EnvManifest) → Io (Unit {0})
rewrite_env o app env edit = do
  validate_names app env
  meta ← load_env_for_edit app env
  plain ← decrypt o meta
  values ← lift (parse plain)
  edited ← lift (edit meta)
  time ← now o
  commit_env o app env (stamped edited time meta.version) meta.version meta.bundle_sha256
      (encode values)

-- pruneOriginsToValues
unfoldable pub prune_origins : Origins → Values → Origins
prune_origins [] values = []
prune_origins ((k, origin) ∷ rest) values =
    let kept = prune_origins rest values in if has values k then (k, origin) ∷ kept else kept

-- what an edit of a namespace works on
pub record Draft : Type 0 where
  pub meta : EnvManifest
  pub values : Values
  pub origins : Origins

-- The result of the edit is what the closure leaves in the variables of its caller.
unfoldable pub rewrite_env_with_origins {ℓ} :
    {A : Type ℓ} → Outside → Bytes → Bytes → (Draft → Io (A × Draft)) → Io A
rewrite_env_with_origins o app env edit = do
  validate_names app env
  meta ← load_env_for_edit app env
  plain ← decrypt o meta
  values ← lift (parse plain)
  origins ← load_origins app env
  edited ← edit (record { meta = meta; values = values; origins = origins })
  let (outcome, draft) = edited
  time ← now o
  commit_env_with_origins o (record {
    app = app;
    env = env;
    meta = stamped draft.meta time meta.version;
    loaded_version = meta.version;
    prior_sha = meta.bundle_sha256;
    plain = encode draft.values;
    origins = prune_origins draft.origins draft.values;
  })
  pure outcome
