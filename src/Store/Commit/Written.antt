-- ===== src/Store/Commit/Written.antt =====
-- What a commit that succeeds has written.
use thimble.Base.{
  ℕ, suc, ◌≡◌, refl, sym, ap, ◌∙◌, Bool, true, false, if◌then◌else◌, Bytes, equal_refl, Option,
  some,
}
use thimble.Outside.{Outside, sha256_hex}
use thimble.Errors.{Error, Result, ok, err, lock_failed}
use thimble.World.{
  World, File, holds, Origins, Io, pure, lift, ◌>>=◌, on_failure, notify, Notice, tick,
  acquire_lock, write_file,
}
use thimble.World.Ends.{
  Ends, Ended, Ends-bind, Ends-lift, Ends-gets, Ends-check, Ends-on_failure, Ends-attempt,
  Ends-pure, Ends-raise,
}
use thimble.Quorum.Protocol.{age_encrypt}
use thimble.Store.Validate.{validate_recipients}
use thimble.Store.Manifest.{EnvManifest, Manifest, env_from, merge_into}
use thimble.Store.Bundle.{
  decode_manifest, load_manifest, save_manifest, origins_path, put_origins, save_origins,
  put_bundle, encrypt_and_write,
}
use thimble.Store.Commit.{
  unchanged, announce, CommitInputs, rollback_bundle, restore_origins, roll_back,
  commit_env_with_origins,
}

abbrev Any : World → Type 0
Any w = Unit {0}

write_self :
    {A : Type 0} (files : Bytes → A) (path : Bytes) (content : A)
    → write_file files path content path ≡ content
write_self files path content = rw (equal_refl path) refl

-- The bundle holds a run of age on the text of the edit, the manifest read from the disk has the
-- edited entry with that bundle's SHA-256, and the disk had no entry or one with the version that
-- the edit loaded.
pub record Committed (o : Outside) (c : CommitInputs) (before after : World) : Type 0 where
  pub run : ℕ
  pub cipher : Bytes
  pub disk : Manifest
  pub read : decode_manifest before.manifest ≡ ok disk
  pub agreed : unchanged (env_from disk c.app c.env) c.loaded_version ≡ true
  pub valid : validate_recipients c.meta.recipients ≡ ok tt
  pub encrypted : o.encrypt run c.meta.recipients c.plain ≡ ok cipher
  pub bundle : after.bundles c.meta.file ≡ some cipher
  pub origins : after.origins (origins_path c.app c.env) ≡ holds c.origins
  pub manifest :
      after.manifest
      ≡ holds (merge_into disk c.app c.env (record c.meta { bundle_sha256 = sha256_hex o cipher }))

module _ (o : Outside) (c : CommitInputs) (w0 : World) where
  abbrev Kept : World → Type 0
  Kept w = w.manifest ≡ w0.manifest

  record Encrypted (written : EnvManifest) (w : World) : Type 0 where
    run : ℕ
    cipher : Bytes
    kept : Kept w
    valid : validate_recipients c.meta.recipients ≡ ok tt
    encrypted : o.encrypt run c.meta.recipients c.plain ≡ ok cipher
    bundle : w.bundles c.meta.file ≡ some cipher
    entry : written ≡ record c.meta { bundle_sha256 = sha256_hex o cipher }

  record WithOrigins (written : EnvManifest) (w : World) : Type 0 where
    encrypted : Encrypted written w
    origins : w.origins (origins_path c.app c.env) ≡ holds c.origins

  age_encrypt-Ends :
      (w : World)
      → Kept w
      → Ends Any
          (λ cipher v. Kept v × ((n : ℕ) × (o.encrypt n c.meta.recipients c.plain ≡ ok cipher)))
          (age_encrypt o c.meta.recipients c.plain)
          w
  unfolding age_encrypt tick lift ◌>>=◌
  age_encrypt-Ends w kept = encrypted_at (o.encrypt w.effects c.meta.recipients c.plain) refl
    where
      encrypted_at :
          (r : Result Bytes)
          → o.encrypt w.effects c.meta.recipients c.plain ≡ r
          → Ended Any
              (λ cipher v. Kept v × ((n : ℕ) × (o.encrypt n c.meta.recipients c.plain ≡ ok cipher)))
              r
              (record w { effects = suc w.effects })
      encrypted_at (ok cipher) e = (kept, (w.effects, e))
      encrypted_at (err e') e = tt

  encrypt_and_write-Ends :
      (w : World) → Kept w → Ends Any Encrypted (encrypt_and_write o c.meta c.plain) w
  unfolding encrypt_and_write put_bundle
  encrypt_and_write-Ends w kept =
      Ends-lift Any Encrypted (validate_recipients c.meta.recipients) _ w tt λ u valid.
        Ends-bind Any Encrypted _ _ _ w (age_encrypt-Ends w kept) λ cipher w1 aged.
          Ends-bind Any Encrypted (λ _ v. Kept v × (v.bundles c.meta.file ≡ some cipher)) _ _ w1
            (Ends-attempt Any (λ _ v. Kept v × (v.bundles c.meta.file ≡ some cipher)) _ _ w1
              (λ _. tt) (λ _. (aged.0, write_self w1.bundles c.meta.file (some cipher))))
            λ _ w2 stored. Ends-pure Any Encrypted _ w2 (record {
              run = aged.1.0;
              cipher = cipher;
              kept = stored.0;
              valid = valid;
              encrypted = aged.1.1;
              bundle = stored.1;
              entry = refl;
            })

  roll_back-Ends :
      (Q : Unit {0} → World → Type 0) (file : Bytes) (prior : Option Bytes) (path : Bytes)
      (prior_origins : File Origins) (e : Error) (w : World)
      → Ends Any Q (roll_back file prior path prior_origins e) w
  unfolding roll_back rollback_bundle restore_origins put_bundle put_origins notify
  roll_back-Ends Q file prior path prior_origins e w =
      Ends-bind Any Q (λ _ _. Unit {0}) _ _ w
        (Ends-on_failure Any (λ _ _. Unit {0}) Any _ _ w
          (Ends-attempt Any (λ _ _. Unit {0}) _ _ w (λ _. tt) (λ _. tt)) (λ _ _ _. tt))
        λ _ w1 _.
          Ends-bind Any Q (λ _ _. Unit {0}) _ _ w1
            (Ends-on_failure Any (λ _ _. Unit {0}) Any _ _ w1
              (Ends-attempt Any (λ _ _. Unit {0}) _ _ w1 (λ _. tt) (λ _. tt)) (λ _ _ _. tt))
            λ _ w2 _. Ends-raise Any Q e w2 tt

  notify_if :
      (written : EnvManifest) (b : Bool) (n : Notice) (w : World)
      → WithOrigins written w
      → Ends Any (λ _ v. WithOrigins written v) (if b then notify n else pure tt) w
  unfolding notify pure
  notify_if written true n w s = record {
    encrypted = record {
      run = s.encrypted.run;
      cipher = s.encrypted.cipher;
      kept = s.encrypted.kept;
      valid = s.encrypted.valid;
      encrypted = s.encrypted.encrypted;
      bundle = s.encrypted.bundle;
      entry = s.encrypted.entry;
    };
    origins = s.origins;
  }
  notify_if written false n w s = s

  announce-Ends :
      (written : EnvManifest) (w : World)
      → WithOrigins written w
      → Ends Any (λ _ v. WithOrigins written v) (announce c.app c.env c.prior_sha written) w
  unfolding announce
  announce-Ends written w s = notify_if written _ _ w s

  save_origins-Ends :
      (written : EnvManifest) (handle : Error → Io (Unit {0})) (w : World)
      → ((e : Error) (v : World) → Ends Any (λ _ v'. WithOrigins written v') (handle e) v)
      → Encrypted written w
      → Ends Any
          (λ _ v. WithOrigins written v)
          (on_failure (save_origins c.app c.env c.origins) handle)
          w
  unfolding save_origins put_origins
  save_origins-Ends written handle w undone s =
      Ends-on_failure Any (λ _ v. WithOrigins written v) Any _ handle w
        (Ends-attempt Any (λ _ v. WithOrigins written v) _ _ w (λ _. tt)
          (λ _. record {
            encrypted = record {
              run = s.run;
              cipher = s.cipher;
              kept = s.kept;
              valid = s.valid;
              encrypted = s.encrypted;
              bundle = s.bundle;
              entry = s.entry;
            };
            origins = write_self w.origins (origins_path c.app c.env) (holds c.origins);
          }))
        (λ e v _. undone e v)

  save_manifest-Ends :
      (written : EnvManifest) (disk : Manifest) (handle : Error → Io (Unit {0})) (w : World)
      → decode_manifest w0.manifest ≡ ok disk
      → unchanged (env_from disk c.app c.env) c.loaded_version ≡ true
      → ((e : Error) (v : World) → Ends Any (λ _ v'. Committed o c w0 v') (handle e) v)
      → WithOrigins written w
      → Ends Any
          (λ _ v. Committed o c w0 v)
          (on_failure (save_manifest (merge_into disk c.app c.env written)) handle)
          w
  unfolding save_manifest
  save_manifest-Ends written disk handle w read agreed undone s =
      Ends-on_failure Any (λ _ v. Committed o c w0 v) Any _ handle w
        (Ends-attempt Any (λ _ v. Committed o c w0 v) _ _ w (λ _. tt)
          (λ _. record {
            run = s.encrypted.run;
            cipher = s.encrypted.cipher;
            disk = disk;
            read = read;
            agreed = agreed;
            valid = s.encrypted.valid;
            encrypted = s.encrypted.encrypted;
            bundle = s.encrypted.bundle;
            origins = s.origins;
            manifest = ap (λ e. holds (merge_into disk c.app c.env e)) s.encrypted.entry;
          }))
        (λ e v _. undone e v)

-- A commit of a value edit that succeeds has found, on the disk, no entry of the namespace or one
-- with the version that the edit loaded, and has written the bundle, the origins, and the manifest
-- with the entry that names the bundle.
pub commit_env_with_origins-Committed :
    (o : Outside) (c : CommitInputs) (w : World)
    → Ends (λ _. Unit {0}) (λ _ after. Committed o c w after) (commit_env_with_origins o c) w
unfolding commit_env_with_origins acquire_lock load_manifest
commit_env_with_origins-Committed o c w =
    Ends-bind Any Done (λ _ v. Kept o c w v) _ _ w
      (Ends-attempt Any (λ _ v. Kept o c w v) lock_failed (λ v. v) w (λ _. tt) (λ _. refl))
      λ _ w1 kept.
        Ends-bind Any Done (λ disk v. Kept o c w v × (decode_manifest w.manifest ≡ ok disk)) _ _ w1
          (read_disk w1 (decode_manifest w1.manifest) kept refl)
          λ disk w2 found. Ends-check Any Done _ _ _ w2 tt λ agreed. Ends-gets Any Done _ _ w2 (
            Ends-gets Any Done _ _ w2 (
              Ends-bind Any Done (Encrypted o c w) _ _ w2 (encrypt_and_write-Ends o c w w2 found.0)
                λ written w3 s.
                  Ends-bind Any Done (λ _ v. WithOrigins o c w written v) _ _ w3
                    (save_origins-Ends o c w written _ w3
                      (λ e v.
                        roll_back-Ends o c w (λ _ v'. WithOrigins o c w written v') _ _ _ _ _ v)
                      s)
                    λ _ w4 s4.
                      Ends-bind Any Done (λ _ v. WithOrigins o c w written v) _ _ w4
                        (announce-Ends o c w written w4 s4)
                        λ _ w5 s5.
                          save_manifest-Ends o c w written disk _ w5 found.1 agreed
                            (λ e v. roll_back-Ends o c w Done _ _ _ _ _ v) s5))
  where
    Done : Unit {0} → World → Type 0
    Done _ after = Committed o c w after

    read_disk :
        (v : World) (r : Result Manifest)
        → Kept o c w v
        → decode_manifest v.manifest ≡ r
        → Ended Any (λ disk u. Kept o c w u × (decode_manifest w.manifest ≡ ok disk)) r v
    read_disk v (ok disk) kept e = (kept, ap decode_manifest (sym kept) ∙ e)
    read_disk v (err x) kept e = tt
