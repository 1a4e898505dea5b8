-- ===== src/Quorum/Protocol.antt =====
-- internal/quorum: prepare.go, sign.go and verify.go, over the files of the pending directory.
use thimble.Base.{
  ◌==◌, Bool, true, false, not, ◌&&◌, Option, none, some, List, [], ◌∷◌, ◌++◌, if◌then◌else◌, Bytes,
  codes, length, equal, has_prefix, reverse, drop,
}
use thimble.Base.Dict.{Dict, get, put}
use thimble.Base.Number.{ℤ, pos, negsuc}
use thimble.Outside.{Outside, hex, thumbprint}
use thimble.Errors.{
  Result, ok, err, no_pending, wrong_recipient, wrong_namespace, stale_bundle, quorum_changed,
  unknown_operator, challenge_missing, undecodable_meta, unsupported_version, names_required,
  new_recipient_empty, bundle_sha_empty, verifier_empty, operator_empty, no_operators,
  operator_is_new_recipient, write_failed,
}
use thimble.World.{
  File, missing, corrupt, holds, Io, pure, raise, lift, gets, ◌>>=◌, ◌>>◌, attempt, tick, check,
  require_some,
}
use thimble.Quorum.Policy.{Operator, Policy}
use thimble.Quorum.Meta.{Meta}
use thimble.Quorum.Message.{canonical_message, check_canonical}

-- LoadMeta on the decoded file. A version below zero is refused as any other but 1 is, and is left
-- out.
unfoldable pub decode_meta : File Meta → Result (Option Meta)
decode_meta missing = ok none
decode_meta corrupt = err undecodable_meta
decode_meta (holds m) = if m.version == 1 then ok (some m) else err (unsupported_version m.version)

unfoldable pub load_meta : Io (Option Meta)
unfolding decode_meta
load_meta w = (decode_meta w.meta, w)

unfoldable pub save_meta : Meta → Io (Unit {0})
save_meta m = attempt write_failed (λ w. record w { meta = holds m })

-- os.RemoveAll of the pending directory; a removal that fails half-way is left out
unfoldable pub clear_pending : Io (Unit {0})
clear_pending = attempt write_failed (λ w. record w { meta = missing; pending = [] })

-- writePending: a file of the pending directory; a write that fails half-way is left out
unfoldable pub write_pending : Bytes → Bytes → Io (Unit {0})
write_pending name contents =
    attempt write_failed (λ w. record w { pending = put w.pending name contents })

abbrev pub challenge_suffix : Bytes
challenge_suffix = codes ".challenge"

abbrev pub sig_suffix : Bytes
sig_suffix = codes ".sig"

-- strings.HasSuffix with strings.TrimSuffix: what stands before ".sig"
unfoldable pub signature_thumb : Bytes → Option Bytes
signature_thumb name =
    if has_prefix (reverse name) (reverse sig_suffix)
    then some (reverse (drop (length sig_suffix) (reverse name)))
    else none

abbrev pub given : Bytes → Bool
given s = not (equal s [])

-- the effects of age and of the random source
unfoldable pub age_encrypt : Outside → List Bytes → Bytes → Io Bytes
age_encrypt o recipients plain = do n ← tick; lift (o.encrypt n recipients plain)

-- NewNonce
unfoldable pub new_nonce : Outside → Io Bytes
new_nonce o = do n ← tick; bytes ← lift (o.random n 16); pure (hex bytes)

unfoldable pub none_is_new : List Operator → Bytes → Io (Unit {0})
none_is_new [] new_recipient = pure tt
none_is_new (op ∷ rest) new_recipient =
    let later = none_is_new rest new_recipient in
    if equal op.recipient new_recipient then raise (operator_is_new_recipient op.name) else later

pub record PrepareInputs : Type 0 where
  pub app : Bytes
  pub env : Bytes
  pub new_recipient : Bytes
  pub bundle_sha : Bytes
  pub policy : Policy
  pub verifier_recipient : Bytes

-- The tests for a missing store root and a missing age tool are on pointers that are always set.
unfoldable pub validate_prepare_inputs : PrepareInputs → Io (Unit {0})
validate_prepare_inputs i = do
  check (given i.app && given i.env) names_required
  check (given i.new_recipient) new_recipient_empty
  check (given i.bundle_sha) bundle_sha_empty
  check (given i.verifier_recipient) verifier_empty
  check (not (length i.policy.operators == 0)) no_operators
  none_is_new i.policy.operators i.new_recipient

-- the loop of PrepareAdd: one challenge for each operator
unfoldable pub write_challenges : Outside → Bytes → List Operator → Io (Unit {0})
write_challenges o canonical [] = pure tt
write_challenges o canonical (op ∷ rest) = do
  ciphertext ← age_encrypt o (op.recipient ∷ []) canonical
  write_pending (thumbprint o op.recipient ++ challenge_suffix) ciphertext
  write_challenges o canonical rest

abbrev pub meta_of : PrepareInputs → Bytes → Meta
meta_of i nonce = record {
  version = 1;
  app = i.app;
  env = i.env;
  new_recipient = i.new_recipient;
  bundle_sha = i.bundle_sha;
  nonce = nonce;
  verifier_recipient = i.verifier_recipient;
  policy_operators = i.policy.operators;
  quorum_m = i.policy.m;
}

unfoldable pub prepare_add : Outside → PrepareInputs → Io (Unit {0})
prepare_add o i = do
  validate_prepare_inputs i
  nonce ← new_nonce o
  let canonical = canonical_message i.app i.env i.new_recipient i.bundle_sha nonce
  write_challenges o canonical i.policy.operators
  save_meta (meta_of i nonce)

-- findOperatorByThumb
unfoldable pub find_by_thumb : Outside → List Operator → Bytes → Option Operator
find_by_thumb o [] thumb = none
find_by_thumb o (op ∷ rest) thumb =
    if equal (thumbprint o op.recipient) thumb then some op else find_by_thumb o rest thumb

-- the plaintext of a pending file against the message of the pending addition
unfoldable pub check_message : Meta → Bytes → Result (Unit {0})
check_message m plain = check_canonical plain m.app m.env m.new_recipient m.bundle_sha m.nonce

-- checkSignMatchesMeta
unfoldable pub check_sign_matches_meta : Meta → Bytes → Bytes → Bytes → Io (Unit {0})
check_sign_matches_meta m app env new_recipient = do
  check (equal m.new_recipient new_recipient) wrong_recipient
  check (equal m.app app && equal m.env env) wrong_namespace

-- SignAdd; the result is the operator's thumbprint
unfoldable pub sign_add : Outside → Bytes → Bytes → Bytes → Bytes → Io Bytes
sign_add o app env new_recipient operator_recipient = do
  check (given operator_recipient) operator_empty
  check (given new_recipient) new_recipient_empty
  present ← load_meta
  m ← require_some present no_pending
  check_sign_matches_meta m app env new_recipient
  let thumb = thumbprint o operator_recipient
  _ ← require_some (find_by_thumb o m.policy_operators thumb) unknown_operator
  files ← gets (λ w. w.pending)
  challenge ← require_some (get files (thumb ++ challenge_suffix)) challenge_missing
  plain ← lift (o.decrypt challenge)
  lift (check_message m plain)
  sig ← age_encrypt o (m.verifier_recipient ∷ []) plain
  write_pending (thumb ++ sig_suffix) sig
  pure thumb

pub record VerifyInputs : Type 0 where
  pub app : Bytes
  pub env : Bytes
  pub new_recipient : Bytes
  pub bundle_sha : Bytes
  pub policy : Policy

-- a != b on two integers
abbrev pub same_integer : ℤ → ℤ → Bool
same_integer (pos a) (pos b) = a == b
same_integer (negsuc a) (negsuc b) = a == b
same_integer _ _ = false

unfoldable pub check_meta_matches : Meta → VerifyInputs → Io (Unit {0})
check_meta_matches m i = do
  check (equal m.app i.app && equal m.env i.env) wrong_namespace
  check (equal m.new_recipient i.new_recipient) wrong_recipient
  check (equal m.bundle_sha i.bundle_sha) stale_bundle
  check (same_integer m.quorum_m i.policy.m) quorum_changed

-- whether a signature file holds the message
unfoldable pub signature_valid : Outside → Meta → Dict Bytes → Bytes → Bool
signature_valid o m files name = elim (get files name) [
  | none ↦ false
  | some cipher ↦ elim (o.decrypt cipher) [
    | err e ↦ false
    | ok plain ↦ elim (check_message m plain) [ err e ↦ false | ok u ↦ true ]
  ]
]
