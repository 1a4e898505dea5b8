-- ===== src/Store/Gate/Approval.antt =====
-- What AddRecipientV2 requires of the signatures before it adds a recipient.
use thimble.Base.{◌≡◌, refl, ap, ◌∙◌, false, Option, none, some, List, Bytes}
use thimble.Outside.{Outside}
use thimble.Errors.{Result, ok, lock_failed}
use thimble.World.{World, acquire_lock}
use thimble.World.Ends.{
  Ends, Ends-equal, Ends-bind, Ends-lift, Ends-check, Ends-attempt, Ends-pure, Ended-either,
  Ends-lift_last, Ends-require_some_last, Ends-run, Ends-skip, Ends-check_last,
}
use thimble.World.Steps.{bind_run, lift_run}
use thimble.Quorum.Policy.{Policy, load_policy}
use thimble.Quorum.Meta.{Meta}
use thimble.Quorum.Protocol.{load_meta, decode_meta, VerifyInputs}
use thimble.Quorum.Verify.{VerifyResult, verify}
use thimble.Quorum.Verify.Gate.{Opened, verify-Opened}
use thimble.Store.Validate.{clean_recipient}
use thimble.Store.Bundle.{load_manifest, decode_manifest}
use thimble.Store.Edit.{validate_names, load_env_for_edit, find}
use thimble.Store.Gate.{
  added, AddOutcome, prepare_phase, finish_add, verify_phase, matches_pending, continue_add,
  quorum_add, validate_policy_recipients, add_under, read_policy, add_recipient_v2,
}

abbrev Any : World → Type 0
Any w = Unit {0}

-- The pending directory, and the metadata in it, are as they were.
record SamePending (before after : World) : Type 0 where
  same_meta : after.meta ≡ before.meta
  same_files : after.pending ≡ before.pending

abbrev Pending {ℓ} : {A : Type ℓ} → World → A → World → Type 0
Pending before a after = SamePending before after

find-SamePending : (app env : Bytes) (w : World) → Ends Any (Pending w) (find app env) w
unfolding find validate_names load_env_for_edit acquire_lock load_manifest
find-SamePending app env w =
    Ends-bind Any (Pending w) (λ _ v. v ≡ w) _ _ w
      (Ends-lift Any (λ _ v. v ≡ w) _ _ w tt
        λ _ _. Ends-lift_last Any (λ _ v. v ≡ w) _ w tt (λ _. refl))
      λ _ w1 same.
        Ends-bind Any (Pending w) (Pending w) _ _ w1
          (Ends-attempt Any (Pending w) lock_failed (λ v. v) w1 (λ _. tt)
            (λ _. record {
              same_meta = ap (λ v. v.meta) same;
              same_files = ap (λ v. v.pending) same;
            }))
          λ _ w2 s.
            Ends-bind Any (Pending w) (Pending w) _ _ w2
              (Ended-either Any (Pending w) (decode_manifest w2.manifest) w2 tt (λ _. s))
              λ m w3 s3. Ends-require_some_last Any (Pending w) _ _ w3 tt (λ _. s3)

-- What the operators had approved when the recipient was added: a successful Verify, for this
-- recipient of this namespace, with the pending directory of the state before.
pub record GateOpened (o : Outside) (app env cleaned : Bytes) (policy : Policy) (w : World)
    (out : AddOutcome) : Type 0 where
  pub bundle_sha : Bytes
  pub state : World
  pub same_meta : state.meta ≡ w.meta
  pub same_files : state.pending ≡ w.pending
  pub result : VerifyResult
  pub opened :
      Opened o
        (record {
          app = app;
          env = env;
          new_recipient = cleaned;
          bundle_sha = bundle_sha;
          policy = policy;
        })
        state
        result
  pub signers : out.signer_thumbs ≡ result.signer_thumbs

module _ (o : Outside) (app env cleaned : Bytes) (policy : Policy) (w0 : World) where
  abbrev Gated : AddOutcome → World → Type 0
  Gated out _ = out.stage ≡ added → GateOpened o app env cleaned policy w0 out

  prepare_phase-Gated : (w : World) → Ends Any Gated (prepare_phase o app env cleaned policy) w
  unfolding prepare_phase
  prepare_phase-Gated w = Ends-skip Gated _ _ w λ _ w1.
      Ends-skip Gated _ _ w1
        λ _ w2. Ends-skip Gated _ _ w2 λ _ w3. Ends-pure Any Gated _ w3 (λ h. cc)

  finish_add-Gated :
      (thumbs names : List Bytes) (w : World)
      → ((out : AddOutcome)
          → out.signer_thumbs ≡ thumbs
          → GateOpened o app env cleaned policy w0 out)
      → Ends Any Gated (finish_add o app env cleaned policy thumbs names) w
  unfolding finish_add
  finish_add-Gated thumbs names w opened = Ends-skip Gated _ _ w λ _ w1.
      Ends-skip Gated _ _ w1
        λ _ w2. Ends-skip Gated _ _ w2 λ _ w3. Ends-pure Any Gated _ w3 (λ _. opened _ refl)

  verify_phase-Gated :
      (w : World) → SamePending w0 w → Ends Any Gated (verify_phase o app env cleaned policy) w
  unfolding verify_phase
  verify_phase-Gated w pending =
      Ends-bind Any Gated (λ _ v. SamePending w v) _ _ w (find-SamePending app env w)
        λ meta w1 found.
          Ends-bind Any Gated (λ r v. Opened o (inputs meta.bundle_sha256) w1 r × (v ≡ w1)) _ _ w1
            (Ends-run _ (verify o (inputs meta.bundle_sha256)) w1
              (λ r v run. verify-Opened o (inputs meta.bundle_sha256) w1 v r run))
            λ r w2 (opened, same). finish_add-Gated r.signer_thumbs r.signer_names w2 λ out thumbs.
              record {
                bundle_sha = meta.bundle_sha256;
                state = w1;
                same_meta = found.same_meta ∙ pending.same_meta;
                same_files = found.same_files ∙ pending.same_files;
                result = r;
                opened = opened;
                signers = thumbs;
              }
    where
      inputs : Bytes → VerifyInputs
      inputs sha = record {
        app = app;
        env = env;
        new_recipient = cleaned;
        bundle_sha = sha;
        policy = policy;
      }

  continue_add-Gated :
      (present : Option Meta) (w : World)
      → SamePending w0 w
      → Ends Any Gated (continue_add o app env cleaned policy present) w
  unfolding continue_add matches_pending
  continue_add-Gated none w pending = prepare_phase-Gated w
  continue_add-Gated (some m) w pending =
      Ends-bind Any Gated (Pending w0) _ _ w
        (Ends-check Any (Pending w0) _ _ _ w tt
          λ _. Ends-check_last Any (Pending w0) _ _ w tt pending)
        λ _ w1 s. verify_phase-Gated w1 s

  quorum_add-Gated : Ends Any Gated (quorum_add o app env cleaned policy) w0
  unfolding quorum_add load_meta
  quorum_add-Gated =
      Ends-bind Any Gated (Pending w0) _ _ w0
        (Ended-either Any (Pending w0) (decode_meta w0.meta) w0 tt
          (λ _. record { same_meta = refl; same_files = refl }))
        continue_add-Gated

-- When a quorum policy is in place and the bootstrap flag is not given, AddRecipientV2 reports the
-- recipient as added only if Verify has succeeded for it, in a state with the pending directory of
-- the state before, and the signers it reports are those that Verify found.
pub add_recipient_v2-GateOpened :
    (o : Outside) (app env recipient cleaned : Bytes) (policy : Policy) (w : World)
    → clean_recipient recipient ≡ ok cleaned
    → load_policy w.policy ≡ ok (some policy)
    → Ends
        (λ _. Unit {0})
        (λ out _. out.stage ≡ added → GateOpened o app env cleaned policy w out)
        (add_recipient_v2 o app env recipient false)
        w
unfolding add_recipient_v2 read_policy add_under
add_recipient_v2-GateOpened o app env recipient cleaned policy w clean policy_is =
    Ends-equal Any Gate _ _
      (lift_run (clean_recipient recipient) cleaned _ w clean
        ∙ bind_run read_policy _ w w (some policy)
            (ap (λ (r : Result (Option Policy)). (r, w)) policy_is))
      (Ends-lift Any Gate (validate_policy_recipients policy.operators) _ w tt
        λ _ _. quorum_add-Gated o app env cleaned policy w)
  where
    Gate : AddOutcome → World → Type 0
    Gate out _ = out.stage ≡ added → GateOpened o app env cleaned policy w out
