-- ===== src/Store/Gate.antt =====
-- internal/store/quorum_gate.go and quorum_sign.go: recipients under a quorum policy.
pub mod Approval
pub mod Bootstrap
use thimble.Base.{
  ℕ, ◌==◌, leb, Bool, true, false, not, ◌&&◌, Option, none, some, List, [], ◌∷◌, Bytes, codes,
  length, equal, if◌then◌else◌,
}
use thimble.Base.Number.{ℤ, pos}
use thimble.Outside.{Outside, thumbprint}
use thimble.Errors.{
  Error, Result, ok, err, bootstrap_rejected, no_identity, no_policy, unknown_operator,
  wrong_recipient, wrong_namespace,
}
use thimble.World.{
  World, Io, pure, raise, lift, ◌>>=◌, ◌>>◌, check, require_some, on_failure, notify,
  pending_not_cleared,
}
use thimble.Audit.{recipient_add}
use thimble.Audit.Ledger.{public_recipient, record_event_with_signers}
use thimble.Quorum.Policy.{Operator, Policy, load_policy, find_by_recipient}
use thimble.Quorum.Meta.{Meta}
use thimble.Quorum.Protocol.{load_meta, prepare_add, sign_add, clear_pending}
use thimble.Quorum.Verify.{verify}
use thimble.Store.Validate.{clean_recipient}
use thimble.Store.Edit.{find, rewrite_env}
use thimble.Store.Access.{grant}

pub data Stage : Type 0 where
  added prepared : Stage

-- AddOutcome; OperatorsCount is the length of the operators
pub record AddOutcome : Type 0 where
  pub stage : Stage
  pub signer_thumbs : List Bytes
  pub signer_names : List Bytes
  pub quorum_m : ℤ
  pub new_recipient : Bytes
  pub policy_operators : List Operator

abbrev pub plain_add : Bytes → AddOutcome
plain_add cleaned = record {
  stage = added;
  signer_thumbs = [];
  signer_names = [];
  quorum_m = pos 0;
  new_recipient = cleaned;
  policy_operators = [];
}

-- applyAdd
unfoldable pub apply_add : Outside → Bytes → Bytes → Bytes → Io (Unit {0})
apply_add o app env cleaned = rewrite_env o app env (grant cleaned)

unfoldable pub legacy_add : Outside → Bytes → Bytes → Bytes → Bool → Io AddOutcome
legacy_add o app env cleaned bootstrap = do
  apply_add o app env cleaned
  record_event_with_signers o recipient_add app env (thumbprint o cleaned) [] bootstrap
  pure (plain_add cleaned)

-- recipientCount
unfoldable pub recipient_count : Bytes → Bytes → Io ℕ
recipient_count app env = do meta ← find app env; pure (length meta.recipients)

unfoldable pub bootstrap_add : Outside → Bytes → Bytes → Bytes → Io AddOutcome
bootstrap_add o app env cleaned = do
  count ← recipient_count app env
  check (not (leb 2 count)) (bootstrap_rejected count)
  apply_add o app env cleaned
  record_event_with_signers o recipient_add app env (thumbprint o cleaned) [] true
  pure (plain_add cleaned)

unfoldable pub prepare_phase : Outside → Bytes → Bytes → Bytes → Policy → Io AddOutcome
prepare_phase o app env cleaned policy = do
  meta ← find app env
  verifier ← require_some (public_recipient o.identity_file) no_identity
  prepare_add o (record {
    app = app;
    env = env;
    new_recipient = cleaned;
    bundle_sha = meta.bundle_sha256;
    policy = policy;
    verifier_recipient = verifier;
  })
  pure (record {
    stage = prepared;
    signer_thumbs = [];
    signer_names = [];
    quorum_m = policy.m;
    new_recipient = cleaned;
    policy_operators = policy.operators;
  })

-- The end of verifyPhase, with the operators who signed.
unfoldable pub finish_add :
    Outside → Bytes → Bytes → Bytes → Policy → List Bytes → List Bytes → Io AddOutcome
finish_add o app env cleaned policy signer_thumbs signer_names = do
  apply_add o app env cleaned
  record_event_with_signers o recipient_add app env (thumbprint o cleaned) signer_thumbs false
  on_failure clear_pending (λ e. notify pending_not_cleared)
  pure (record {
    stage = added;
    signer_thumbs = signer_thumbs;
    signer_names = signer_names;
    quorum_m = policy.m;
    new_recipient = cleaned;
    policy_operators = [];
  })

unfoldable pub verify_phase : Outside → Bytes → Bytes → Bytes → Policy → Io AddOutcome
verify_phase o app env cleaned policy = do
  env_meta ← find app env
  result ← verify o (record {
    app = app;
    env = env;
    new_recipient = cleaned;
    bundle_sha = env_meta.bundle_sha256;
    policy = policy;
  })
  finish_add o app env cleaned policy result.signer_thumbs result.signer_names

-- matchesPending
unfoldable pub matches_pending : Meta → Bytes → Bytes → Bytes → Io (Unit {0})
matches_pending m app env cleaned = do
  check (equal m.new_recipient cleaned) wrong_recipient
  check (equal m.app app && equal m.env env) wrong_namespace

-- the choice of quorumAdd
unfoldable pub continue_add : Outside → Bytes → Bytes → Bytes → Policy → Option Meta → Io AddOutcome
continue_add o app env cleaned policy none = prepare_phase o app env cleaned policy
continue_add o app env cleaned policy (some m) = do
  matches_pending m app env cleaned
  verify_phase o app env cleaned policy

unfoldable pub quorum_add : Outside → Bytes → Bytes → Bytes → Policy → Io AddOutcome
quorum_add o app env cleaned policy = do
  present ← load_meta
  continue_add o app env cleaned policy present

-- validatePolicyAgainstStore
unfoldable pub validate_policy_recipients : List Operator → Result (Unit {0})
validate_policy_recipients [] = ok tt
validate_policy_recipients (op ∷ rest) = elim (clean_recipient op.recipient) [
  | err e ↦ err e
  | ok cleaned ↦ validate_policy_recipients rest
]

-- the choice of AddRecipientV2
unfoldable pub add_under : Outside → Bytes → Bytes → Bytes → Bool → Option Policy → Io AddOutcome
add_under o app env cleaned bootstrap none = legacy_add o app env cleaned bootstrap
add_under o app env cleaned bootstrap (some policy) = do
  lift (validate_policy_recipients policy.operators)
  elim bootstrap [
    | true ↦ bootstrap_add o app env cleaned
    | false ↦ quorum_add o app env cleaned policy
  ]

unfoldable pub read_policy : Io (Option Policy)
read_policy w = (load_policy w.policy, w)

unfoldable pub add_recipient_v2 : Outside → Bytes → Bytes → Bytes → Bool → Io AddOutcome
add_recipient_v2 o app env recipient bootstrap = do
  cleaned ← lift (clean_recipient recipient)
  policy ← read_policy
  add_under o app env cleaned bootstrap policy

-- requireOperatorIdentity
unfoldable pub require_operator_identity : Outside → Policy → Io Operator
require_operator_identity o policy = do
  pub_key ← require_some (public_recipient o.identity_file) no_identity
  require_some (find_by_recipient policy pub_key) unknown_operator

-- SignAddSummary, without the path of the signature's file
pub record SignAddSummary : Type 0 where
  pub operator_thumb : Bytes
  pub operator_name : Bytes
  pub quorum_m : ℤ

unfoldable pub sign_add_recipient : Outside → Bytes → Bytes → Bytes → Io SignAddSummary
sign_add_recipient o app env new_recipient = do
  cleaned ← lift (clean_recipient new_recipient)
  present ← read_policy
  policy ← require_some present no_policy
  op ← require_operator_identity o policy
  thumb ← sign_add o app env cleaned op.recipient
  pure (record { operator_thumb = thumb; operator_name = op.name; quorum_m = policy.m })
