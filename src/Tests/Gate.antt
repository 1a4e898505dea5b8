-- ===== src/Tests/Gate.antt =====
-- Verify and the quorum gate on a pending addition that two operators have signed.
use thimble.Base.{
  true, ◌≡◌, refl, false, some, [], ◌∷◌, ◌++◌, Bytes, codes, mem, equal, has_prefix, contains,
  all_of, split_at, cut_at, IsUnique, arith,
}
use thimble.Base.Dict.{get, keys}
use thimble.Base.Number.{pos, atoi}
use thimble.Base.Space.{trim_space, trim_line_end}
use thimble.Base.Sort.{sort_strings}
use thimble.Outside.{thumbprint}
use thimble.Errors.{ok}
use thimble.World.{World, holds, pure, raise, lift, gets, check, require_some, ◌>>=◌}
use thimble.Quorum.Policy.{Operator, Policy, load_policy, validate_policy, parse_policy}
use thimble.Quorum.Toml.{strip_comment, split_assignment, unquote}
use thimble.Quorum.Message.{canonical_message, check_canonical}
use thimble.Quorum.Protocol.{
  load_meta, decode_meta, check_meta_matches, signature_thumb, find_by_thumb, signature_valid,
  check_message, sig_suffix, challenge_suffix, sign_add,
}
use thimble.Quorum.Verify.{
  verify, VerifyResult, signer_of, collect, collect_valid_signatures, count_signers, thumbs_of,
}
use thimble.Quorum.Verify.Match.{Matches}
use thimble.Quorum.Verify.Gate.{Opened, verify-Opened, verify_succeeds}
use thimble.Quorum.Verify.Signing.{sign_add-HasSigned}
use thimble.Quorum.Verify.Enough.{HasSigned}
use thimble.World.Ends.{Ends}
use thimble.Store.Validate.{clean_recipient, check_recipient, is_age_recipient}
use thimble.Store.Gate.{added, add_recipient_v2}
use thimble.Store.Gate.Bootstrap.{IsNew, add_recipient_v2-IsNew}
use thimble.Store.Gate.Approval.{GateOpened, add_recipient_v2-GateOpened}
use thimble.Tests.{
  message, plain_outside, ada, bob, pending_meta, ada_thumb, bob_thumb, inputs, world,
}

abbrev result : VerifyResult
result = record {
  signer_thumbs = ada_thumb ∷ bob_thumb ∷ [];
  signer_names = codes "ada" ∷ codes "bob" ∷ [];
}

verified : verify plain_outside inputs world ≡ (ok result, world)
unfolding verify load_meta decode_meta require_some check pure raise check_meta_matches gets lift
    ◌>>=◌ count_signers collect_valid_signatures collect signer_of signature_thumb find_by_thumb
    signature_valid check_message check_canonical canonical_message sort_strings keys get thumbs_of
    thumbprint equal has_prefix mem trim_space trim_line_end
verified = refl

verify-Opened_example : Opened plain_outside inputs world result × (world ≡ world)
verify-Opened_example = verify-Opened plain_outside inputs world world result verified

matches : Matches pending_meta inputs
matches = record {
  same_app = refl;
  same_env = refl;
  same_recipient = refl;
  same_bundle = refl;
  same_quorum = refl;
}

ada_signed : HasSigned plain_outside pending_meta world.pending (keys world.pending) ada_thumb
unfolding signature_thumb find_by_thumb signature_valid check_message check_canonical
    canonical_message keys get thumbprint equal has_prefix mem trim_space trim_line_end
ada_signed = record {
  file = ada_thumb ++ sig_suffix;
  present = refl;
  named_for = refl;
  operator = ada;
  found = refl;
  valid = refl;
}

bob_signed : HasSigned plain_outside pending_meta world.pending (keys world.pending) bob_thumb
unfolding signature_thumb find_by_thumb signature_valid check_message check_canonical
    canonical_message keys get thumbprint equal has_prefix mem trim_space trim_line_end
bob_signed = record {
  file = bob_thumb ++ sig_suffix;
  present = refl;
  named_for = refl;
  operator = bob;
  found = refl;
  valid = refl;
}

distinct : IsUnique (ada_thumb ∷ bob_thumb ∷ [])
unfolding mem equal
distinct = (refl, (refl, tt))

verify_succeeds_example : (r : VerifyResult) × (verify plain_outside inputs world ≡ (ok r, world))
verify_succeeds_example =
    verify_succeeds plain_outside inputs world pending_meta (ada_thumb ∷ bob_thumb ∷ []) refl refl
      matches distinct (ada_signed, (bob_signed, tt)) (omega arith)

abbrev pub long_recipient : Bytes
long_recipient = codes "age1qqqqqqqqqqqqqqqqqqqqqqqqqqqqqqqqqqqqqqqqqqqqqqqqqqqqqqq"

cleaned_recipient : clean_recipient long_recipient ≡ ok long_recipient
unfolding clean_recipient check_recipient trim_line_end contains is_age_recipient has_prefix all_of
cleaned_recipient = refl

abbrev carol : Operator
carol = record {
  name = codes "carol";
  recipient = codes "age1cccccccccccccccccccccccccccccccccccccccccccccccccccccc";
}

abbrev pub solo : Policy
solo = record { m = pos 1; operators = carol ∷ [] }

-- the addition of `long_recipient`, which carol has signed
abbrev pub signed_world : World
signed_world = record world {
  meta = holds (record pending_meta {
    new_recipient = long_recipient;
    bundle_sha = [];
    policy_operators = carol ∷ [];
    quorum_m = pos 1;
  });
  pending =
      (
        codes "6167653163636363.sig",
        canonical_message (codes "web") (codes "prod") long_recipient [] (codes "00"),
      )
      ∷ [];
}

pub loaded : load_policy signed_world.policy ≡ ok (some solo)
unfolding load_policy parse_policy split_at trim_space strip_comment cut_at equal has_prefix
    split_assignment atoi unquote contains validate_policy mem
loaded = refl

add_recipient_v2-GateOpened_example :
    Ends
      (λ _. Unit {0})
      (λ out _.
        out.stage ≡ added
        → GateOpened plain_outside
            (codes "web")
            (codes "prod")
            long_recipient
            solo
            signed_world
            out)
      (add_recipient_v2 plain_outside (codes "web") (codes "prod") long_recipient false)
      signed_world
add_recipient_v2-GateOpened_example =
    add_recipient_v2-GateOpened plain_outside (codes "web") (codes "prod") long_recipient
      long_recipient solo signed_world cleaned_recipient loaded

add_recipient_v2-IsNew_example :
    Ends
      (λ _. Unit {0})
      (λ _ _. IsNew signed_world (codes "web") (codes "prod"))
      (add_recipient_v2 plain_outside (codes "web") (codes "prod") long_recipient true)
      signed_world
add_recipient_v2-IsNew_example =
    add_recipient_v2-IsNew plain_outside (codes "web") (codes "prod") long_recipient long_recipient
      solo signed_world cleaned_recipient loaded

-- the challenge that ada has to sign
abbrev signing_world : World
signing_world = record world { pending = (ada_thumb ++ challenge_suffix, message) ∷ [] }

sign_add-HasSigned_example :
    Ends
      (λ _. Unit {0})
      (λ thumb after. HasSigned plain_outside pending_meta after.pending (keys after.pending) thumb)
      (sign_add plain_outside (codes "web") (codes "prod") (codes "age1new3") (codes "age1ada1"))
      signing_world
sign_add-HasSigned_example =
    sign_add-HasSigned plain_outside (λ cipher. ok cipher) pending_meta (codes "web") (codes "prod")
      (codes "age1new3") (codes "age1ada1") signing_world refl refl (λ n plain cipher e. cc)
