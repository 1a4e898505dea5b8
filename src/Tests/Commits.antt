-- ===== src/Tests/Commits.antt =====
-- Commits of an edited namespace, a second writer, a reader, and edits of a draft.
use thimble.Base.{
  ◌≡◌, refl, true, false, ◌&&◌, [], ◌∷◌, Bytes, codes, mem, equal, all_of, contains, has_prefix,
  All, arith,
}
use thimble.Base.Dict.{get, put, keys, has}
use thimble.Base.Sort.{sort_strings}
use thimble.Outside.{sha256_hex}
use thimble.Errors.{ok}
use thimble.World.{
  World, provision, next_fails, ◌>>=◌, acquire_lock, check, pure, gets, lift, attempt, notify,
  on_failure, tick,
}
use thimble.World.Ends.{Ends, after_write}
use thimble.Dotenv.{Values, matches_key, encode, encode_keys, encode_line, quote_value}
use thimble.Dotenv.RoundTrip.{Fits}
use thimble.Quorum.Protocol.{age_encrypt}
use thimble.Base.Space.{trim_line_end}
use thimble.Store.Validate.{
  validate_name, validate_recipients, clean_recipients, clean_each, clean_recipient,
  check_recipient, is_age_recipient, sorted_unique, unique_from,
}
use thimble.Store.Bundle.{
  decode_manifest, load_manifest, save_manifest, origins_path, put_origins, save_origins,
  put_bundle, encrypt_and_write,
}
use thimble.Store.Manifest.{EnvManifest, env_from, merge_into}
use thimble.Store.Edit.{Draft, read_env}
use thimble.Store.Commit.{announce, commit_env_with_origins}
use thimble.Store.Commit.Files.{SameFiles}
use thimble.Store.Commit.Atomic.{commit_env_with_origins-SameFiles}
use thimble.Store.Commit.Written.{Committed, commit_env_with_origins-Committed}
use thimble.Store.Commit.Conflict.{second_commit_refused}
use thimble.Store.Commit.ReadBack.{read_env-commit_env_with_origins}
use thimble.Store.Access.{drop_recipient}
use thimble.Store.Rotate.{origin_or_default, is_provision, rotate_provisioned_keys}
use thimble.Store.Rotate.Provisioned.{rotate_provisioned_keys-rotated}
use thimble.Tests.{plain_outside, entry, world, world_with, commit_inputs}

-- the write of the manifest fails
abbrev faulty : World
faulty = world_with (false ∷ false ∷ false ∷ true ∷ [])

commit_env_with_origins-SameFiles_example :
    Ends
      (SameFiles faulty)
      (λ _ _. Unit {0})
      (commit_env_with_origins plain_outside commit_inputs)
      faulty
commit_env_with_origins-SameFiles_example =
    commit_env_with_origins-SameFiles plain_outside commit_inputs faulty tt

commit_env_with_origins-Committed_example :
    Ends
      (λ _. Unit {0})
      (λ _ after. Committed plain_outside commit_inputs world after)
      (commit_env_with_origins plain_outside commit_inputs)
      world
commit_env_with_origins-Committed_example =
    commit_env_with_origins-Committed plain_outside commit_inputs world

abbrev committed : World
committed = (commit_env_with_origins plain_outside commit_inputs world).1

committed_run : commit_env_with_origins plain_outside commit_inputs world ≡ (ok tt, committed)
unfolding commit_env_with_origins ◌>>=◌ acquire_lock load_manifest decode_manifest check env_from
    get equal pure gets encrypt_and_write lift validate_recipients clean_recipients clean_recipient
    check_recipient trim_line_end all_of contains has_prefix sha256_hex age_encrypt origins_path
    put_bundle put_origins save_manifest save_origins announce merge_into put is_age_recipient
    attempt notify on_failure tick clean_each
committed_run = refl

reader_free : next_fails committed.faults ≡ false
unfolding commit_env_with_origins ◌>>=◌ acquire_lock load_manifest decode_manifest check env_from
    get equal pure gets encrypt_and_write lift validate_recipients clean_recipients clean_recipient
    check_recipient trim_line_end all_of contains has_prefix sha256_hex age_encrypt origins_path
    put_bundle put_origins save_manifest save_origins announce merge_into put is_age_recipient
    attempt notify on_failure tick clean_each
reader_free = refl

names_valid :
    (validate_name (codes "app") (codes "web") ≡ ok tt)
    × (validate_name (codes "environment") (codes "prod") ≡ ok tt)
unfolding validate_name all_of
names_valid = (refl, refl)

second_commit_refused_example :
    Ends (λ _. Unit {0}) (λ _ _. ⊥) (commit_env_with_origins plain_outside commit_inputs) committed
second_commit_refused_example =
    second_commit_refused plain_outside commit_inputs commit_inputs world committed refl refl refl
      refl committed_run

abbrev values : Values
values = (codes "A", codes "2") ∷ []

encoded : commit_inputs.plain ≡ encode values
unfolding encode encode_keys sort_strings keys encode_line quote_value get equal all_of
encoded = refl

fits : All (Fits values) (keys values)
unfolding keys matches_key encode_line quote_value get equal all_of
fits = ((refl, omega arith), tt)

read_env-commit_env_with_origins_example :
    (m : Values) × (meta : EnvManifest) × (read_env plain_outside
        (codes "web")
        (codes "prod")
        committed
      ≡ (ok (m, meta), after_write committed))
    × (meta.version ≡ 8)
    × ((k : Bytes) → get m k ≡ get values k)
read_env-commit_env_with_origins_example =
    read_env-commit_env_with_origins plain_outside commit_inputs world committed values
      (λ n plain cipher e. cc) names_valid.0 names_valid.1 encoded fits committed_run reader_free

abbrev two_readers : EnvManifest
two_readers = record entry { recipients = codes "age1x" ∷ codes "age1y" ∷ [] }

abbrev one_reader : EnvManifest
one_reader = record entry { recipients = codes "age1y" ∷ [] }

dropped : drop_recipient (codes "age1x") two_readers ≡ ok one_reader
unfolding drop_recipient equal sorted_unique sort_strings unique_from mem
dropped = refl

abbrev draft : Draft
draft = record {
  meta = entry;
  values = (codes "A", codes "1") ∷ (codes "B", codes "2") ∷ [];
  origins = (codes "A", provision) ∷ [];
}

rotate_provisioned_keys-rotated_example :
    Ends
      (λ _. Unit {0})
      (λ (out, draft') _.
        (draft'.meta ≡ draft.meta)
        × ((k : Bytes) → get draft'.origins k ≡ get draft.origins k)
        × ((k : Bytes)
            → is_provision (origin_or_default draft.origins k) ≡ false
            → get draft'.values k ≡ get draft.values k)
        × ((k : Bytes)
            → mem k out.rotated
              ≡ (has draft.values k && is_provision (origin_or_default draft.origins k))))
      (rotate_provisioned_keys plain_outside false draft)
      world
rotate_provisioned_keys-rotated_example =
    rotate_provisioned_keys-rotated plain_outside false draft world
