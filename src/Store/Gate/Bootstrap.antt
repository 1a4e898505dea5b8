-- ===== src/Store/Gate/Bootstrap.antt =====
-- The bootstrap flag of AddRecipientV2: it passes over the quorum only for a new namespace.
use thimble.Base.{
  ℕ, ◌<◌, ◌≡◌, refl, sym, ap, ◌∙◌, true, not, Option, some, Bytes, length, leb, arith,
}
use thimble.Outside.{Outside}
use thimble.Errors.{Result, ok, lock_failed}
use thimble.World.{World, acquire_lock}
use thimble.World.Ends.{
  Ends, Ends-equal, Ends-bind, Ends-lift, Ends-check, Ends-attempt, Ends-skip, Ends-pure,
  Ended-found, Ends-lift_last, Ends-require_some_found,
}
use thimble.World.Steps.{bind_run, lift_run}
use thimble.Quorum.Policy.{Policy, load_policy}
use thimble.Store.Validate.{clean_recipient}
use thimble.Store.Manifest.{EnvManifest, Manifest, env_from}
use thimble.Store.Bundle.{load_manifest, decode_manifest}
use thimble.Store.Edit.{validate_names, load_env_for_edit, find}
use thimble.Store.Gate.{
  AddOutcome, validate_policy_recipients, add_under, read_policy, add_recipient_v2, bootstrap_add,
  recipient_count,
}

abbrev Any : World → Type 0
Any w = Unit {0}

-- The manifest that `w` holds has an entry for the namespace with these recipients.
pub record HasEntry (w : World) (app env : Bytes) (meta : EnvManifest) : Type 0 where
  pub manifest : Manifest
  pub read : decode_manifest w.manifest ≡ ok manifest
  pub entry : env_from manifest app env ≡ some meta

-- What Find returns is the entry of the manifest.
pub find-HasEntry :
    (app env : Bytes) (w : World) → Ends Any (λ meta _. HasEntry w app env meta) (find app env) w
unfolding find validate_names load_env_for_edit acquire_lock load_manifest
find-HasEntry app env w =
    Ends-bind Any Found (λ _ v. v ≡ w) _ _ w
      (Ends-lift Any (λ _ v. v ≡ w) _ _ w tt
        λ _ _. Ends-lift_last Any (λ _ v. v ≡ w) _ w tt (λ _. refl))
      λ _ w1 same.
        Ends-bind Any Found (λ _ v. v.manifest ≡ w.manifest) _ _ w1
          (Ends-attempt Any (λ _ v. v.manifest ≡ w.manifest) lock_failed (λ v. v) w1 (λ _. tt)
            (λ _. ap (λ v. v.manifest) same))
          λ _ w2 kept.
            Ends-bind Any Found (λ m _. decode_manifest w.manifest ≡ ok m) _ _ w2
              (Ended-found Any (λ m _. decode_manifest w.manifest ≡ ok m)
                (decode_manifest w2.manifest) w2 tt (λ m e. ap decode_manifest (sym kept) ∙ e))
              λ m w3 read.
                Ends-require_some_found Any Found (env_from m app env) _ w3 tt
                  (λ meta entry. record { manifest = m; read = read; entry = entry })
  where
    Found : EnvManifest → World → Type 0
    Found meta _ = HasEntry w app env meta

fewer_than_two : (n : ℕ) → not (leb 2 n) ≡ true → n < 2
fewer_than_two n h = ground arith

-- The entry of the namespace, with fewer than two recipients.
pub record IsNew (w : World) (app env : Bytes) : Type 0 where
  pub meta : EnvManifest
  pub found : HasEntry w app env meta
  pub few : length meta.recipients < 2

bootstrap_add-IsNew :
    (o : Outside) (app env cleaned : Bytes) (w : World)
    → Ends Any (λ _ _. IsNew w app env) (bootstrap_add o app env cleaned) w
unfolding bootstrap_add recipient_count
bootstrap_add-IsNew o app env cleaned w =
    Ends-bind Any New
      (λ n _. (meta : EnvManifest) × HasEntry w app env meta × (n ≡ length meta.recipients)) _ _ w
      (Ends-bind Any Count (λ meta _. HasEntry w app env meta) (find app env) _ w
        (find-HasEntry app env w) λ meta w1 found. Ends-pure Any Count _ w1 (meta, found, refl))
      λ n w1 (meta, found, same). Ends-check Any New _ _ _ w1 tt λ few. Ends-skip New _ _ w1 λ _ w2.
        Ends-skip New _ _ w2 λ _ w3.
          Ends-pure Any New _ w3
            (record { meta = meta; found = found; few = rw same at (fewer_than_two n few) })
  where
    New : AddOutcome → World → Type 0
    New _ _ = IsNew w app env

    Count : ℕ → World → Type 0
    Count n _ = (meta : EnvManifest) × HasEntry w app env meta × (n ≡ length meta.recipients)

-- When a quorum policy is in place, AddRecipientV2 with the bootstrap flag succeeds only for a
-- namespace whose entry in the manifest has fewer than two recipients.
pub add_recipient_v2-IsNew :
    (o : Outside) (app env recipient cleaned : Bytes) (policy : Policy) (w : World)
    → clean_recipient recipient ≡ ok cleaned
    → load_policy w.policy ≡ ok (some policy)
    → Ends (λ _. Unit {0}) (λ _ _. IsNew w app env) (add_recipient_v2 o app env recipient true) w
unfolding add_recipient_v2 read_policy add_under
add_recipient_v2-IsNew o app env recipient cleaned policy w clean policy_is =
    Ends-equal Any (λ _ _. IsNew w app env) _ _
      (lift_run (clean_recipient recipient) cleaned _ w clean
        ∙ bind_run read_policy _ w w (some policy)
            (ap (λ (r : Result (Option Policy)). (r, w)) policy_is))
      (Ends-lift Any (λ _ _. IsNew w app env) (validate_policy_recipients policy.operators) _ w tt
        λ _ _. bootstrap_add-IsNew o app env cleaned w)
