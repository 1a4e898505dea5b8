-- ===== src/Store/Commit/Atomic.antt =====
-- What commitEnvWithOrigins leaves on the disk when it fails.
use thimble.Base.{
  suc, ◌≡◌, refl, sym, ◌∙◌, Bool, true, false, List, if◌then◌else◌, Bytes, Option, some,
}
use mathlib.Core.Path.{subst}
use thimble.Outside.{Outside}
use thimble.Errors.{
  Error, Result, lock_failed, save_origins_failed, save_manifest_failed, write_failed,
}
use thimble.World.{
  World, File, holds, Origins, Io, pure, raise, lift, ◌>>=◌, ◌>>◌, on_failure, notify, Notice, tick,
  later_faults, acquire_lock,
}
use thimble.World.Ends.{
  Ends, Ended, after_write, Ends-bind, Ends-lift, Ends-gets, Ends-check, Ends-on_failure,
  Ends-attempt, Ends-pure, Ended-either,
}
use thimble.World.Steps.{bind_run, attempt_passes, on_failure_passes}
use thimble.Quorum.Protocol.{age_encrypt}
use thimble.Store.Validate.{validate_recipients}
use thimble.Store.Manifest.{EnvManifest, Manifest}
use thimble.Store.Bundle.{
  decode_manifest, load_manifest, save_manifest, origins_path, put_origins, save_origins,
  put_bundle, encrypt_and_write,
}
use thimble.Store.Commit.{
  announce, CommitInputs, rollback_bundle, restore_origins, roll_back, commit_env_with_origins,
}
use thimble.Store.Commit.Files.{
  AtMostOneFault, NoFault, one_fault, fewer_faults, no_fault, no_faults, SameFiles, Touched,
  write_other, put_back,
}

module _ (o : Outside) (c : CommitInputs) (w0 : World) where
  -- before the first failure, with what the writes so far have touched
  abbrev Good : World → Type 0
  Good w = Touched c.meta.file (origins_path c.app c.env) w0 w × AtMostOneFault w.faults

  -- behind the failure
  abbrev Failing : World → Type 0
  Failing w = Touched c.meta.file (origins_path c.app c.env) w0 w × NoFault w.faults

  rollback-SameFiles :
      (Q : Unit {0} → World → Type 0) (e : Error) (w : World)
      → Failing w
      → Ends
          (SameFiles w0)
          Q
          (roll_back c.meta.file
            (w0.bundles c.meta.file)
            (origins_path c.app c.env)
            (w0.origins (origins_path c.app c.env))
            e)
          w
  unfolding roll_back rollback_bundle restore_origins put_bundle put_origins raise
  rollback-SameFiles Q e w (touched, good) =
      subst (λ (p : Result (Unit {0}) × World). Ended (SameFiles w0) Q p.0 p.1)
        (sym (
          bind_run _ _ w _ tt
            (on_failure_passes _ _ w _ (attempt_passes write_failed _ w (no_fault w.faults good)))
          ∙ bind_run _ _ _ _ tt (
              on_failure_passes _ _ _ _ (
                attempt_passes write_failed _ _
                  (no_fault (later_faults w.faults) (no_faults w.faults good))))))
        (record {
          manifest = touched.manifest;
          bundles = λ p. put_back w.bundles w0.bundles c.meta.file p touched.bundles;
          origins = λ p. put_back w.origins w0.origins (origins_path c.app c.env) p touched.origins;
          log = touched.log;
        })

  abbrev Finished : Unit {0} → World → Type 0
  Finished _ w = Unit {0}

  -- before anything is written
  abbrev Untouched : World → Type 0
  Untouched w = SameFiles w0 w × AtMostOneFault w.faults

  acquire_lock-Ends :
      (w : World) → Untouched w → Ends (SameFiles w0) (λ _ v. Untouched v) acquire_lock w
  unfolding acquire_lock
  acquire_lock-Ends w (same, faults) =
      Ends-attempt (SameFiles w0) (λ _ v. Untouched v) lock_failed (λ v. v) w (λ _. keep)
        (λ passes. (keep, fewer_faults w.faults passes faults))
    where
      keep : SameFiles w0 (after_write w)
      keep = record {
        manifest = same.manifest;
        bundles = same.bundles;
        origins = same.origins;
        log = same.log;
      }

  load_manifest-Ends :
      (w : World) → Untouched w → Ends (SameFiles w0) (λ _ v. Untouched v) load_manifest w
  unfolding load_manifest
  load_manifest-Ends w u =
      Ended-either (SameFiles w0) (λ _ v. Untouched v) (decode_manifest w.manifest) w u.0 (λ _. u)

  age_encrypt-Ends :
      (recipients : List Bytes) (plain : Bytes) (w : World)
      → Untouched w
      → Ends (SameFiles w0) (λ _ v. Untouched v) (age_encrypt o recipients plain) w
  unfolding age_encrypt tick lift ◌>>=◌
  age_encrypt-Ends recipients plain w u =
      Ended-either (SameFiles w0) (λ _ v. Untouched v) (o.encrypt w.effects recipients plain)
        (record w { effects = suc w.effects }) (same_untouched u).0 (λ _. same_untouched u)
    where
      same_untouched : Untouched w → Untouched (record w { effects = suc w.effects })
      same_untouched (same, faults) = (
        record {
          manifest = same.manifest;
          bundles = same.bundles;
          origins = same.origins;
          log = same.log;
        },
        faults,
      )

  put_bundle-Ends :
      (contents : Option Bytes) (w : World)
      → Untouched w
      → Ends (SameFiles w0) (λ _ v. Good v) (put_bundle c.meta.file contents) w
  unfolding put_bundle
  put_bundle-Ends contents w (same, faults) =
      Ends-attempt (SameFiles w0) (λ _ v. Good v) _ _ w
        (λ _. record {
          manifest = same.manifest;
          bundles = same.bundles;
          origins = same.origins;
          log = same.log;
        })
        (λ passes. (
          record {
            manifest = same.manifest;
            bundles = λ p h. write_other w.bundles c.meta.file contents p h ∙ same.bundles p;
            origins = λ p h. same.origins p;
            log = same.log;
          },
          fewer_faults w.faults passes faults,
        ))

  encrypt_and_write-Ends :
      (w : World)
      → Untouched w
      → Ends (SameFiles w0) (λ _ v. Good v) (encrypt_and_write o c.meta c.plain) w
  unfolding encrypt_and_write
  encrypt_and_write-Ends w u = Ends-lift _ _ (validate_recipients c.meta.recipients) _ w u.0 λ _ _.
      Ends-bind _ _ (λ _ v. Untouched v) _ _ w (age_encrypt-Ends c.meta.recipients c.plain w u)
        λ cipher w1 u1.
          Ends-bind _ _ (λ _ v. Good v) _ _ w1 (put_bundle-Ends (some cipher) w1 u1)
            λ _ w2 good. Ends-pure (SameFiles w0) (λ _ v. Good v) _ w2 good

  save_origins-Ends :
      (w : World) → Good w → Ends Failing (λ _ v. Good v) (save_origins c.app c.env c.origins) w
  unfolding save_origins put_origins
  save_origins-Ends w (touched, faults) =
      Ends-attempt Failing (λ _ v. Good v) _ _ w
        (λ fails. (
          record {
            manifest = touched.manifest;
            bundles = touched.bundles;
            origins = touched.origins;
            log = touched.log;
          },
          one_fault w.faults fails faults,
        ))
        (λ passes. (
          record {
            manifest = touched.manifest;
            bundles = touched.bundles;
            origins = λ p h.
                write_other w.origins (origins_path c.app c.env) (holds c.origins) p h
                ∙ touched.origins p h;
            log = touched.log;
          },
          fewer_faults w.faults passes faults,
        ))

  save_manifest-Ends :
      (m : Manifest) (w : World) → Good w → Ends Failing Finished (save_manifest m) w
  unfolding save_manifest
  save_manifest-Ends m w (touched, faults) =
      Ends-attempt Failing Finished _ _ w
        (λ fails. (
          record {
            manifest = touched.manifest;
            bundles = touched.bundles;
            origins = touched.origins;
            log = touched.log;
          },
          one_fault w.faults fails faults,
        ))
        (λ _. tt)

  notify_if :
      (b : Bool) (n : Notice) (w : World)
      → Good w
      → Ends (SameFiles w0) (λ _ v. Good v) (if b then notify n else pure tt) w
  unfolding notify pure
  notify_if true n w (touched, faults) = (
    record {
      manifest = touched.manifest;
      bundles = touched.bundles;
      origins = touched.origins;
      log = touched.log;
    },
    faults,
  )
  notify_if false n w good = good

  announce-Ends :
      (written : EnvManifest) (w : World)
      → Good w
      → Ends (SameFiles w0) (λ _ v. Good v) (announce c.app c.env c.prior_sha written) w
  unfolding announce
  announce-Ends written w good = notify_if _ _ w good

  undo_prior :
      (Q : Unit {0} → World → Type 0) (w : World) (prior : Option Bytes)
      (prior_origins : File Origins) (wrap : Error → Error) (m : Io (Unit {0}))
      → prior ≡ w0.bundles c.meta.file
      → prior_origins ≡ w0.origins (origins_path c.app c.env)
      → Ends Failing Q m w
      → Ends
          (SameFiles w0)
          Q
          (on_failure m
            (λ e. roll_back c.meta.file prior (origins_path c.app c.env) prior_origins (wrap e)))
          w
  undo_prior Q w prior prior_origins wrap m same_bundle same_origins ends =
      rw (same_bundle, same_origins)
        (Ends-on_failure (SameFiles w0) Q Failing m _ w ends
          λ e w' failing. rollback-SameFiles Q (wrap e) w' failing)

  write_all : EnvManifest → Option Bytes → File Origins → Manifest → Io (Unit {0})
  write_all written prior prior_origins m =
      let undo = roll_back c.meta.file prior (origins_path c.app c.env) prior_origins in
      on_failure (save_origins c.app c.env c.origins) (λ e. undo (save_origins_failed e))
      >> (announce c.app c.env c.prior_sha written
          >> on_failure (save_manifest m) (λ e. undo (save_manifest_failed e)))

  write_all-Ends :
      (written : EnvManifest) (prior : Option Bytes) (prior_origins : File Origins) (m : Manifest)
      (w : World)
      → prior ≡ w0.bundles c.meta.file
      → prior_origins ≡ w0.origins (origins_path c.app c.env)
      → Good w
      → Ends (SameFiles w0) Finished (write_all written prior prior_origins m) w
  unfolding write_all
  write_all-Ends written prior prior_origins m w same_bundle same_origins good =
      Ends-bind (SameFiles w0) Finished (λ _ v. Good v) _ _ w
        (undo_prior (λ _ v. Good v) w prior prior_origins save_origins_failed _ same_bundle
          same_origins (save_origins-Ends w good))
        λ _ w1 good1.
          Ends-bind (SameFiles w0) Finished (λ _ v. Good v) _ _ w1 (announce-Ends written w1 good1)
            λ _ w2 good2.
              undo_prior Finished w2 prior prior_origins save_manifest_failed _ same_bundle
                same_origins (save_manifest-Ends m w2 good2)

-- If at most one of the writes to come fails, then a commit of a value edit that ends with an error
-- leaves every bundle, every file of origins, the manifest and the ledger as they were.
pub commit_env_with_origins-SameFiles :
    (o : Outside) (c : CommitInputs) (w : World)
    → AtMostOneFault w.faults
    → Ends (SameFiles w) (λ _ _. Unit {0}) (commit_env_with_origins o c) w
unfolding commit_env_with_origins write_all
commit_env_with_origins-SameFiles o c w faults =
    Ends-bind (SameFiles w) Finish (λ _ v. Untouched o c w v) _ _ w
      (acquire_lock-Ends o c w w
        (record { manifest = refl; bundles = λ _. refl; origins = λ _. refl; log = refl }, faults))
      λ _ w1 u1.
        Ends-bind (SameFiles w) Finish (λ _ v. Untouched o c w v) _ _ w1
          (load_manifest-Ends o c w w1 u1)
          λ disk w2 u2. Ends-check (SameFiles w) Finish _ _ _ w2 u2.0 λ _.
            Ends-gets (SameFiles w) Finish _ _ w2 (
              Ends-gets (SameFiles w) Finish _ _ w2 (
                Ends-bind (SameFiles w) Finish (λ _ v. Good o c w v) _ _ w2
                  (encrypt_and_write-Ends o c w w2 u2)
                  λ written w3 good.
                    write_all-Ends o c w written _ _ _ w3 (u2.0.bundles c.meta.file)
                      (u2.0.origins (origins_path c.app c.env)) good))
  where
    Finish : Unit {0} → World → Type 0
    Finish _ _ = Unit {0}
