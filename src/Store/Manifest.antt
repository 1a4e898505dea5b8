-- ===== src/Store/Manifest.antt =====
-- internal/store/manifest.go: the manifest, and the lookup of a namespace in it.
pub mod Merge
use thimble.Base.{ℕ, Option, none, some, List, [], Bytes}
use thimble.Base.Dict.{Dict, get, put}

pub record EnvManifest : Type 0 where
  pub format : Bytes
  pub file : Bytes
  pub recipients : List Bytes
  pub created_at : Bytes
  pub updated_at : Bytes
  pub version : ℕ
  pub bundle_sha256 : Bytes

pub record AppManifest : Type 0 where
  pub environments : Dict EnvManifest

pub record Manifest : Type 0 where
  pub version : ℕ
  pub apps : Dict AppManifest

abbrev pub empty_manifest : Manifest
empty_manifest = record { version = 1; apps = [] }

abbrev pub environment_of : Bytes → Option AppManifest → Option EnvManifest
environment_of env none = none
environment_of env (some app_meta) = get app_meta.environments env

-- envFrom
unfoldable pub env_from : Manifest → Bytes → Bytes → Option EnvManifest
env_from m app env = environment_of env (get m.apps app)

abbrev pub app_or_empty : Option AppManifest → AppManifest
app_or_empty none = record { environments = [] }
app_or_empty (some app_meta) = app_meta

-- mergeInto: the entry of (app, env) put into the manifest just read
unfoldable pub merge_into : Manifest → Bytes → Bytes → EnvManifest → Manifest
merge_into disk app env meta =
    let app_meta = app_or_empty (get disk.apps app) in
    record disk {
      apps = put disk.apps app (record { environments = put app_meta.environments env meta });
    }
