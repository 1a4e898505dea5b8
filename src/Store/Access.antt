-- ===== src/Store/Access.antt =====
-- internal/store/store.go, verify.go and quorum_sign.go: a new namespace, and who may read one.
pub mod Removal
use thimble.Base.{
  ℕ, Bool, true, false, not, ◌&&◌, Option, none, some, List, [], ◌∷◌, ◌++◌, Bytes, codes, length,
  ◌==◌, equal, has_prefix, map, if◌then◌else◌,
}
use thimble.Base.Dict.{Dict, get, put, has}
use thimble.Outside.{Outside, thumbprint, sha256_hex}
use thimble.Errors.{
  Error, Result, ok, err, already_exists_namespace, recipient_not_found, last_recipient,
  bundle_missing,
}
use thimble.World.{World, Io, pure, lift, gets, ◌>>=◌, ◌>>◌, check, require_some, acquire_lock}
use thimble.Audit.{init, recipient_add, recipient_remove}
use thimble.Audit.Ledger.{record_event}
use thimble.Store.Validate.{clean_recipient, clean_recipients, sorted_unique}
use thimble.Store.Manifest.{EnvManifest, env_from, merge_into}
use thimble.Store.Bundle.{load_manifest, save_manifest, bundle_file, encrypt_and_write}
use thimble.Store.Edit.{validate_names, find, now, rewrite_env}

abbrev pub new_env : Bytes → Bytes → List Bytes → Bytes → EnvManifest
new_env app env recipients time = record {
  format = codes "dotenv";
  file = bundle_file app env;
  recipients = recipients;
  created_at = time;
  updated_at = time;
  version = 1;
  bundle_sha256 = [];
}

abbrev pub is_none {ℓ} : {A : Type ℓ} → Option A → Bool
is_none none = true
is_none (some a) = false

-- Init
unfoldable pub init_namespace : Outside → Bytes → Bytes → List Bytes → Io (Unit {0})
init_namespace o app env recipients = do
  validate_names app env
  cleaned ← lift (clean_recipients recipients)
  acquire_lock
  m ← load_manifest
  check (is_none (env_from m app env)) (already_exists_namespace app env)
  time ← now o
  written ← encrypt_and_write o (new_env app env (sorted_unique cleaned) time) []
  save_manifest (merge_into m app env written)
  record_event o init app env []

-- the edit of AddRecipient and of applyAdd
unfoldable pub grant : Bytes → EnvManifest → Result EnvManifest
grant cleaned meta =
    ok (record meta { recipients = sorted_unique (meta.recipients ++ (cleaned ∷ [])) })

unfoldable pub add_recipient : Outside → Bytes → Bytes → Bytes → Io (Unit {0})
add_recipient o app env recipient = do
  cleaned ← lift (clean_recipient recipient)
  rewrite_env o app env (grant cleaned)
  record_event o recipient_add app env (thumbprint o cleaned)

-- the loop of dropRecipient
unfoldable pub without : Bytes → List Bytes → List Bytes
without cleaned [] = []
without cleaned (existing ∷ rest) =
    let next = without cleaned rest in if equal existing cleaned then next else existing ∷ next

-- dropRecipient, and the edit of RemoveRecipient, which is the same text
unfoldable pub drop_recipient : Bytes → EnvManifest → Result EnvManifest
unfolding without
drop_recipient cleaned meta =
    let next = without cleaned meta.recipients in
    if length next == length meta.recipients
    then err recipient_not_found
    else if length next == 0
    then err last_recipient
    else ok (record meta { recipients = sorted_unique next })

unfoldable pub remove_recipient : Outside → Bytes → Bytes → Bytes → Io (Unit {0})
remove_recipient o app env recipient = do
  cleaned ← lift (clean_recipient recipient)
  rewrite_env o app env (drop_recipient cleaned)
  record_event o recipient_remove app env (thumbprint o cleaned)

unfoldable pub recipient_prefix : Bytes → Bytes
recipient_prefix r =
    if has_prefix r (codes "age1")
    then codes "age1"
    else if has_prefix r (codes "ssh-ed25519 ")
    then codes "ssh-ed25519"
    else if has_prefix r (codes "ssh-rsa ")
    then codes "ssh-rsa"
    else codes "unknown"

pub record RecipientListEntry : Type 0 where
  pub prefix : Bytes
  pub recipient : Bytes
  pub opaque_id : Bytes

unfoldable pub list_recipients : Outside → Bytes → Bytes → Io (List RecipientListEntry)
list_recipients o app env = do
  meta ← find app env
  pure (
      map (λ r. record { prefix = recipient_prefix r; recipient = r; opaque_id = thumbprint o r })
        meta.recipients)

-- The size and the mode of the bundle are what the operating system reports, and are left out.
pub record VerifyReport : Type 0 where
  pub manifest_sha : Bytes
  pub actual_sha : Bytes
  pub matches : Bool
  pub recipients : List (Bytes × Bytes)
  pub stored_version : ℕ

-- Verify, the attestation of a bundle
unfoldable pub attest : Outside → Bytes → Bytes → Io VerifyReport
attest o app env = do
  meta ← find app env
  bundles ← gets (λ w. w.bundles)
  cipher ← require_some (bundles meta.file) bundle_missing
  let actual = sha256_hex o cipher
  pure (record {
    manifest_sha = meta.bundle_sha256;
    actual_sha = actual;
    matches = not (equal meta.bundle_sha256 []) && equal meta.bundle_sha256 actual;
    recipients = map (λ r. (recipient_prefix r, r)) meta.recipients;
    stored_version = meta.version;
  })
