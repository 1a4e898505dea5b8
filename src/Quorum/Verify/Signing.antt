-- ===== src/Quorum/Verify/Signing.antt =====
-- A signature that SignAdd leaves is one that Verify counts.
use mathlib.Core.List.{reverse-append, reverse-reverse}
use thimble.Base.{
  ℕ, suc, ◌≡◌, refl, ap, ◌∙◌, true, some, List, [], ◌∷◌, ◌++◌, Bytes, mem, has_prefix, equal,
  if◌then◌else◌,
}
use thimble.Base.Dict.{Dict, put, keys, has, get-put_self, mem-keys}
use thimble.Outside.{Outside, thumbprint}
use thimble.Errors.{Result, ok}
use thimble.World.{World, holds, lift, ◌>>=◌, tick}
use thimble.World.Ends.{
  Ends, Ends-bind, Ends-lift, Ends-gets, Ends-check, Ends-check_last, Ends-require_some,
  Ends-attempt, Ends-pure, Ended-found, Ends-equal,
}
use thimble.World.Steps.{bind_run, require_some_run}
use thimble.Quorum.Policy.{Operator}
use thimble.Quorum.Meta.{Meta}
use thimble.Quorum.Protocol.{
  load_meta, write_pending, sig_suffix, signature_thumb, age_encrypt, find_by_thumb, check_message,
  check_sign_matches_meta, sign_add, signature_valid,
}
use thimble.Quorum.Verify.Gate.{load_meta_holds}
use thimble.Quorum.Verify.Enough.{HasSigned}

abbrev Any : World → Type 0
Any w = Unit {0}

signature_thumb-append : (thumb : Bytes) → signature_thumb (thumb ++ sig_suffix) ≡ some thumb
unfolding signature_thumb has_prefix
signature_thumb-append thumb =
    rw (reverse-append thumb sig_suffix) (ap some (reverse-reverse thumb))

signature_valid-put :
    (o : Outside) (m : Meta) (files : Dict Bytes) (name cipher plain : Bytes)
    → o.decrypt cipher ≡ ok plain
    → check_message m plain ≡ ok tt
    → signature_valid o m (put files name cipher) name ≡ true
unfolding signature_valid
signature_valid-put o m files name cipher plain decrypted matches =
    rw (get-put_self files name cipher, signature_valid) (rw decrypted (rw matches refl))

present_put :
    (files : Dict Bytes) (name cipher : Bytes) → mem name (keys (put files name cipher)) ≡ true
present_put files name cipher =
    mem-keys (put files name cipher) name ∙ rw (get-put_self files name cipher, has) refl

module _ (o : Outside) (opened : Bytes → Result Bytes) (m : Meta) where
  -- the programs of the maintainer, whose identity decrypts other files than the operator's
  abbrev pub maintainer : Outside
  maintainer = record o { decrypt = opened }

  find_by_thumb-maintainer :
      (ops : List Operator) (thumb : Bytes)
      → find_by_thumb maintainer ops thumb ≡ find_by_thumb o ops thumb
  unfolding find_by_thumb thumbprint
  find_by_thumb-maintainer [] thumb = refl
  find_by_thumb-maintainer (op ∷ rest) thumb =
      ap (λ later. if equal (thumbprint o op.recipient) thumb then some op else later)
        (find_by_thumb-maintainer rest thumb)

  age_encrypt-found :
      (recipients : List Bytes) (plain : Bytes) (w : World)
      → Ends Any
          (λ cipher _. (n : ℕ) × (o.encrypt n recipients plain ≡ ok cipher))
          (age_encrypt o recipients plain)
          w
  unfolding age_encrypt tick lift ◌>>=◌
  age_encrypt-found recipients plain w =
      Ended-found Any (λ cipher _. (n : ℕ) × (o.encrypt n recipients plain ≡ ok cipher))
        (o.encrypt w.effects recipients plain) (record w { effects = suc w.effects }) tt
        (λ cipher e. (w.effects, e))

  abbrev Valid : Bytes → World → Type 0
  Valid thumb after = HasSigned maintainer m after.pending (keys after.pending) thumb

  write_signature :
      (thumb plain cipher : Bytes) (op : Operator) (w : World)
      → find_by_thumb o m.policy_operators thumb ≡ some op
      → opened cipher ≡ ok plain
      → check_message m plain ≡ ok tt
      → Ends Any (λ _ after. Valid thumb after) (write_pending (thumb ++ sig_suffix) cipher) w
  unfolding write_pending
  write_signature thumb plain cipher op w found decrypted matches =
      Ends-attempt Any (λ _ after. Valid thumb after) _ _ w (λ _. tt)
        (λ _. record {
          file = thumb ++ sig_suffix;
          present = present_put w.pending (thumb ++ sig_suffix) cipher;
          named_for = signature_thumb-append thumb;
          operator = op;
          found = find_by_thumb-maintainer m.policy_operators thumb ∙ found;
          valid =
              signature_valid-put maintainer m w.pending (thumb ++ sig_suffix) cipher plain
                decrypted matches;
        })

-- When the pending addition has the version that the program writes, and the maintainer's identity
-- decrypts what age encrypts to the verifier recipient, then SignAdd, if it succeeds, has left a
-- signature that counts for the maintainer's Verify, under the thumbprint that it returns.
pub sign_add-HasSigned :
    (o : Outside) (opened : Bytes → Result Bytes) (m : Meta)
    (app env new_recipient operator_recipient : Bytes) (w : World)
    → w.meta ≡ holds m
    → m.version ≡ 1
    → ((n : ℕ) (plain cipher : Bytes)
        → o.encrypt n (m.verifier_recipient ∷ []) plain ≡ ok cipher
        → opened cipher ≡ ok plain)
    → Ends
        (λ _. Unit {0})
        (λ thumb after.
          HasSigned (record o { decrypt = opened }) m after.pending (keys after.pending) thumb)
        (sign_add o app env new_recipient operator_recipient)
        w
unfolding sign_add check_sign_matches_meta
sign_add-HasSigned o opened m app env new_recipient operator_recipient w held version inverse =
    Ends-check Any Signs _ _ _ w tt λ _. Ends-check Any Signs _ _ _ w tt λ _.
      Ends-equal Any Signs _ _
        (bind_run load_meta _ w w (some m) (load_meta_holds w m held version)
          ∙ require_some_run m _ _ w)
        (Ends-bind Any Signs (λ _ _. Unit {0}) _ _ w
          (Ends-check Any (λ _ _. Unit {0}) _ _ _ w tt
            λ _. Ends-check_last Any (λ _ _. Unit {0}) _ _ w tt tt)
          λ _ w1 _.
            Ends-require_some Any Signs
              (find_by_thumb o m.policy_operators (thumbprint o operator_recipient)) _ _ w1 tt
              λ op found. Ends-gets Any Signs _ _ w1 (
                Ends-require_some Any Signs _ _ _ w1 tt λ challenge _.
                  Ends-lift Any Signs (o.decrypt challenge) _ w1 tt λ plain _.
                    Ends-lift Any Signs (check_message m plain) _ w1 tt λ _ matches.
                      Ends-bind Any Signs _ _ _ w1
                        (age_encrypt-found o opened m (m.verifier_recipient ∷ []) plain w1)
                        λ cipher w2 (n, encrypted).
                          Ends-bind Any Signs
                            (λ _ after. Signs (thumbprint o operator_recipient) after) _ _ w2
                            (write_signature o opened m (thumbprint o operator_recipient) plain
                              cipher op w2 found (inverse n plain cipher encrypted) matches)
                            λ _ w3 signed. Ends-pure Any Signs _ w3 signed))
  where
    Signs : Bytes → World → Type 0
    Signs thumb after =
        HasSigned (record o { decrypt = opened }) m after.pending (keys after.pending) thumb
