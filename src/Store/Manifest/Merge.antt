-- ===== src/Store/Manifest/Merge.antt =====
-- mergeInto and envFrom: an edit of one namespace and the others.
use thimble.Base.{
  ◌≡◌, refl, sym, ap, ◌∙◌, Bool, true, false, ◌&&◌, Option, none, some, Bytes, equal, equal_iff,
  equal_refl, if◌then◌else◌,
}
use thimble.Base.Dict.{get, put, get-put}
use thimble.Store.Manifest.{
  EnvManifest, AppManifest, Manifest, environment_of, env_from, app_or_empty, merge_into,
}

-- The entry that a lookup in the environments of an application finds.
pub environment_of-app :
    (env : Bytes) (a : Option AppManifest)
    → environment_of env a ≡ get (app_or_empty a).environments env
unfolding get
environment_of-app env none = refl
environment_of-app env (some a) = refl

entry_of :
    (b : Bool) (old here : Option AppManifest) (env e : Bytes) (meta : EnvManifest)
    → (b ≡ true → here ≡ old)
    → environment_of e (
        if b
        then some (record { environments = put (app_or_empty old).environments env meta })
        else here)
      ≡ (if b && equal env e then some meta else environment_of e here)
entry_of true old here env e meta same =
    get-put (app_or_empty old).environments env e meta
    ∙ ap (λ x. if equal env e then some meta else x)
        (sym (environment_of-app e old) ∙ ap (environment_of e) (sym (same refl)))
entry_of false old here env e meta same = refl

-- In the manifest that an edit of (app, env) writes, the namespace (app, env) has the edited entry,
-- and every other namespace has the entry it had on the disk.
pub env_from-merge_into :
    (disk : Manifest) (app env : Bytes) (meta : EnvManifest) (a e : Bytes)
    → env_from (merge_into disk app env meta) a e
      ≡ (if equal app a && equal env e then some meta else env_from disk a e)
unfolding merge_into env_from
env_from-merge_into disk app env meta a e =
    ap (environment_of e) (get-put disk.apps app a _)
    ∙ entry_of (equal app a) (get disk.apps app) (get disk.apps a) env e meta
        (λ same. ap (get disk.apps) (sym ((equal_iff app a).0 same)))

pub env_from-merge_into_self :
    (disk : Manifest) (app env : Bytes) (meta : EnvManifest)
    → env_from (merge_into disk app env meta) app env ≡ some meta
env_from-merge_into_self disk app env meta =
    env_from-merge_into disk app env meta app env ∙ rw (equal_refl app, equal_refl env) refl
