-- ===== src/Store/Commit/Conflict.antt =====
-- Two writers that loaded the same version of a namespace, and a reader behind a writer.
use mathlib.Core.Path.{subst}
use thimble.Base.{ℕ, ◌≡◌, sym, ap, ◌∙◌, true, ◌==◌, some, arith}
use thimble.Outside.{Outside, sha256_hex}
use thimble.Errors.{Result, ok, err, ok_inverse}
use thimble.World.{World}
use thimble.World.Ends.{Ends, Ended}
use thimble.Store.Manifest.{EnvManifest, Manifest, env_from, merge_into}
use thimble.Store.Manifest.Merge.{env_from-merge_into_self}
use thimble.Store.Bundle.{decode_manifest}
use thimble.Store.Edit.{next_version}
use thimble.Store.Commit.{unchanged, CommitInputs, commit_env_with_origins}
use thimble.Store.Commit.Written.{Committed, commit_env_with_origins-Committed}

next_version-ne : (v : ℕ) → next_version v ≡ v → ⊥
next_version-ne v h = omega arith

pub ended_ok :
    (Q : Unit {0} → World → Type 0) (r : Result (Unit {0}) × World) (w : World)
    → r ≡ (ok tt, w)
    → Ended (λ _. Unit {0}) Q r.0 r.1
    → Q tt w
ended_ok Q r w e h = subst (λ p. Ended (λ _. Unit {0}) Q p.0 p.1) e h

Ended-imp :
    (Q R : Unit {0} → World → Type 0) (r : Result (Unit {0})) (w : World)
    → Ended (λ _. Unit {0}) Q r w
    → (Q tt w → R tt w)
    → Ended (λ _. Unit {0}) R r w
Ended-imp Q R (ok u) w q f = f q
Ended-imp Q R (err e) w q f = tt

-- The entry that a successful commit leaves has the version of the edit.
Committed-version :
    (o : Outside) (c : CommitInputs) (before after : World) (disk : Manifest)
    → Committed o c before after
    → decode_manifest after.manifest ≡ ok disk
    → (loaded : ℕ) → unchanged (env_from disk c.app c.env) loaded ≡ true
    → c.meta.version ≡ loaded
unfolding decode_manifest
Committed-version o c before after disk done read loaded h =
    same_version ((ap (λ e. unchanged e loaded) entry) ∙ h)
  where
    written : EnvManifest
    written = record c.meta { bundle_sha256 = sha256_hex o done.cipher }

    same_disk : ok (merge_into done.disk c.app c.env written) ≡ ok disk
    same_disk = sym (ap decode_manifest done.manifest) ∙ read

    entry : some written ≡ env_from disk c.app c.env
    entry =
        sym (env_from-merge_into_self done.disk c.app c.env written)
        ∙ ap (λ m. env_from m c.app c.env) (ok_inverse same_disk)

    same_version : (c.meta.version == loaded) ≡ true → c.meta.version ≡ loaded
    same_version e = ground arith

-- Of two edits of a namespace that loaded the same version, the second never commits, if the first
-- has, with the version that an edit gives.
pub second_commit_refused :
    (o : Outside) (first second : CommitInputs) (w w1 : World)
    → second.app ≡ first.app
    → second.env ≡ first.env
    → second.loaded_version ≡ first.loaded_version
    → first.meta.version ≡ next_version first.loaded_version
    → commit_env_with_origins o first w ≡ (ok tt, w1)
    → Ends (λ _. Unit {0}) (λ _ _. ⊥) (commit_env_with_origins o second) w1
second_commit_refused o first second w w1 same_app same_env same_version stamped run =
    Ended-imp (λ _ v. Committed o second w1 v) (λ _ _. ⊥) _ _
      (commit_env_with_origins-Committed o second w1)
      λ done. next_version-ne first.loaded_version (
        sym stamped
        ∙ Committed-version o first w w1 done.disk
            (ended_ok (λ _ v. Committed o first w v) _ w1 run
              (commit_env_with_origins-Committed o first w))
            done.read first.loaded_version
            (ap (λ v. unchanged (env_from done.disk first.app first.env) v) (sym same_version)
              ∙ ap (λ e. unchanged (env_from done.disk first.app e) second.loaded_version)
                  (sym same_env)
              ∙ ap (λ a. unchanged (env_from done.disk a second.env) second.loaded_version)
                  (sym same_app)
              ∙ done.agreed))
