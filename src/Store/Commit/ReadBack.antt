-- ===== src/Store/Commit/ReadBack.antt =====
-- Reading a namespace behind a commit.
use thimble.Base.{
  ℕ, ◌≡◌, refl, ap, ◌∙◌, true, false, Option, none, some, Bytes, codes, All, equal_iff, arith,
}
use thimble.Base.Dict.{get, keys}
use thimble.Outside.{Outside, sha256_hex}
use thimble.Errors.{Error, Result, ok, lock_failed}
use thimble.World.{World, Io, pure, lift, gets, ◌>>=◌, require_some, acquire_lock, next_fails}
use thimble.World.Ends.{after_write}
use thimble.World.Steps.{bind_run, lift_run, check_pass, attempt_passes, require_some_run}
use thimble.Dotenv.{Values, parse, encode}
use thimble.Dotenv.RoundTrip.{Fits, parse-encode}
use thimble.Store.Validate.{validate_name}
use thimble.Store.Manifest.{EnvManifest, Manifest, env_from}
use thimble.Store.Manifest.Merge.{env_from-merge_into_self}
use thimble.Store.Bundle.{decode_manifest, load_manifest, decrypt, sha_accepts}
use thimble.Store.Edit.{validate_names, load_env_for_edit, find, read_env}
use thimble.Store.Commit.{CommitInputs, commit_env_with_origins}
use thimble.Store.Commit.Written.{Committed, commit_env_with_origins-Committed}
use thimble.Store.Commit.Conflict.{ended_ok}

module _ {A : Type 0} {B : Type 0} where
  some_run :
      (r : Option A) (a : A) (e : Error) (f : A → Io B) (w : World)
      → r ≡ some a
      → (require_some r e >>= f) w ≡ f a w
  some_run r a e f w same =
      ap (λ (x : Option A). (require_some x e >>= f) w) same ∙ require_some_run a e f w

  gets_run : (g : World → A) (f : A → Io B) (w : World) → (gets g >>= f) w ≡ f (g w) w
  unfolding gets ◌>>=◌
  gets_run g f w = refl

-- A bundle that holds the encryption that the entry names is read.
decrypt_run :
    (o : Outside) (meta : EnvManifest) (w : World) (cipher plain : Bytes)
    → w.bundles meta.file ≡ some cipher
    → meta.bundle_sha256 ≡ sha256_hex o cipher
    → o.decrypt cipher ≡ ok plain
    → decrypt o meta w ≡ (ok plain, w)
unfolding decrypt
decrypt_run o meta w cipher plain stored named decrypted =
    gets_run (λ v. v.bundles) _ w
    ∙ some_run (w.bundles meta.file) cipher _ _ w stored
    ∙ check_pass _ _ _ w (accepts _ _ named)
    ∙ (unfold lift in ap (λ (r : Result Bytes). (r, w)) decrypted)
  where
    accepts : (stored actual : Bytes) → stored ≡ actual → sha_accepts stored actual ≡ true
    accepts stored actual e = ground (arith, (equal_iff stored actual).1 e)

validate_names_run :
    (app env : Bytes) (w : World)
    → validate_name (codes "app") app ≡ ok tt
    → validate_name (codes "environment") env ≡ ok tt
    → validate_names app env w ≡ (ok tt, w)
unfolding validate_names
validate_names_run app env w app_ok env_ok =
    lift_run _ tt _ w app_ok ∙ (unfold lift in ap (λ (r : Result (Unit {0})). (r, w)) env_ok)

some_end :
    (r : Option EnvManifest) (meta : EnvManifest) (e : Error) (w : World)
    → r ≡ some meta
    → require_some r e w ≡ (ok meta, w)
unfolding require_some pure
some_end (some x) meta e w h = ap (λ (r : Option EnvManifest). require_some r e w) h
some_end none meta e w h = cc

load_env_for_edit_run :
    (app env : Bytes) (w : World) (m : Manifest) (meta : EnvManifest)
    → next_fails w.faults ≡ false
    → decode_manifest w.manifest ≡ ok m
    → env_from m app env ≡ some meta
    → load_env_for_edit app env w ≡ (ok meta, after_write w)
unfolding load_env_for_edit acquire_lock load_manifest
load_env_for_edit_run app env w m meta free read entry =
    bind_run _ _ w (after_write w) tt (attempt_passes lock_failed (λ v. v) w free)
    ∙ bind_run load_manifest _ (after_write w) (after_write w) m
        (ap (λ (r : Result Manifest). (r, after_write w)) read)
    ∙ some_end (env_from m app env) meta _ (after_write w) entry

find_run :
    (app env : Bytes) (w : World) (m : Manifest) (meta : EnvManifest)
    → validate_name (codes "app") app ≡ ok tt
    → validate_name (codes "environment") env ≡ ok tt
    → next_fails w.faults ≡ false
    → decode_manifest w.manifest ≡ ok m
    → env_from m app env ≡ some meta
    → find app env w ≡ (ok meta, after_write w)
unfolding find
find_run app env w m meta app_ok env_ok free read entry =
    bind_run (validate_names app env) _ w w tt (validate_names_run app env w app_ok env_ok)
    ∙ load_env_for_edit_run app env w m meta free read entry

-- What ReadEnv returns in a world that has the files of a commit.
pub read_env-Committed :
    (o : Outside) (c : CommitInputs) (w v : World) (values : Values)
    → ((n : ℕ) (plain cipher : Bytes)
        → o.encrypt n c.meta.recipients plain ≡ ok cipher
        → o.decrypt cipher ≡ ok plain)
    → validate_name (codes "app") c.app ≡ ok tt
    → validate_name (codes "environment") c.env ≡ ok tt
    → c.plain ≡ encode values
    → All (Fits values) (keys values)
    → Committed o c w v
    → next_fails v.faults ≡ false
    → (m : Values) × (meta : EnvManifest) × (read_env o c.app c.env v
        ≡ (ok (m, meta), after_write v))
      × (meta.version ≡ c.meta.version)
      × ((k : Bytes) → get m k ≡ get values k)
unfolding read_env decode_manifest
read_env-Committed o c w v values inverse app_ok env_ok plain_is fits done free = (
  parsed.0,
  written,
  bind_run (find c.app c.env) _ v (after_write v) written (
        find_run c.app c.env v _ written app_ok env_ok free (ap decode_manifest done.manifest)
          (env_from-merge_into_self done.disk c.app c.env written))
      ∙ bind_run (decrypt o written) _ (after_write v) (after_write v) c.plain (
          decrypt_run o written (after_write v) done.cipher c.plain done.bundle refl
            (inverse done.run c.plain done.cipher done.encrypted))
      ∙ lift_run (parse c.plain) parsed.0 _ (after_write v) (ap parse plain_is ∙ parsed.1)
      ∙ (unfold pure in refl),
  refl,
  parsed.2,
)
  where
    written : EnvManifest
    written = record c.meta { bundle_sha256 = sha256_hex o done.cipher }

    parsed : (m : Values) × (parse (encode values) ≡ ok m) × ((k : Bytes) → get m k ≡ get values k)
    parsed = parse-encode values fits

-- Behind a commit that succeeded, ReadEnv returns the values whose encoding was committed, and the
-- committed version. The names are valid, the reader's lock is granted, the keys match KeyPattern
-- with lines shorter than the scanner's buffer, and the reader's identity decrypts what age
-- encrypts to the recipients of the entry.
pub read_env-commit_env_with_origins :
    (o : Outside) (c : CommitInputs) (w w1 : World) (values : Values)
    → ((n : ℕ) (plain cipher : Bytes)
        → o.encrypt n c.meta.recipients plain ≡ ok cipher
        → o.decrypt cipher ≡ ok plain)
    → validate_name (codes "app") c.app ≡ ok tt
    → validate_name (codes "environment") c.env ≡ ok tt
    → c.plain ≡ encode values
    → All (Fits values) (keys values)
    → commit_env_with_origins o c w ≡ (ok tt, w1)
    → next_fails w1.faults ≡ false
    → (m : Values) × (meta : EnvManifest) × (read_env o c.app c.env w1
        ≡ (ok (m, meta), after_write w1))
      × (meta.version ≡ c.meta.version)
      × ((k : Bytes) → get m k ≡ get values k)
read_env-commit_env_with_origins o c w w1 values inverse app_ok env_ok plain_is fits run free =
    read_env-Committed o c w w1 values inverse app_ok env_ok plain_is fits
      (ended_ok (λ _ v. Committed o c w v) _ w1 run (commit_env_with_origins-Committed o c w)) free
