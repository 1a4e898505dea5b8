-- ===== src/Store/Secrets.antt =====
-- internal/store/origins_secrets.go: creating, updating, setting and deleting secrets.
pub mod Stored
use thimble.Base.{not, List, [], ◌∷◌, Bytes, length, ◌==◌}
use thimble.Base.Dict.{put, remove, keys, has}
use thimble.Base.Sort.{sort_strings}
use thimble.Outside.{Outside}
use thimble.Errors.{Result, ok, err, key_exists, key_missing, empty_batch}
use thimble.World.{Origin, Io, pure, lift, ◌>>=◌, ◌>>◌, check}
use thimble.Dotenv.{Values, validate_key, value_of, encode}
use thimble.Audit.{Op, create, update, set, delete}
use thimble.Audit.Ledger.{record_event}
use thimble.Store.Edit.{Draft, read_env, rewrite_env_with_origins}

-- values[key] = value and origins[key] = origin
abbrev pub assign : Bytes → Bytes → Origin → Draft → Draft
assign key value origin draft = record draft {
  values = put draft.values key value;
  origins = put draft.origins key origin;
}

unfoldable pub create_edit : Bytes → Bytes → Origin → Draft → Io (Unit {0} × Draft)
create_edit key value origin draft = do
  lift (validate_key key)
  check (not (has draft.values key)) (key_exists key)
  pure (tt, assign key value origin draft)

unfoldable pub create_secret : Outside → Bytes → Bytes → Bytes → Bytes → Origin → Io (Unit {0})
create_secret o app env key value origin = do
  rewrite_env_with_origins o app env (create_edit key value origin)
  record_event o create app env key

unfoldable pub update_edit : Bytes → Bytes → Origin → Draft → Io (Unit {0} × Draft)
update_edit key value origin draft = do
  lift (validate_key key)
  check (has draft.values key) (key_missing key)
  pure (tt, assign key value origin draft)

unfoldable pub update_secret : Outside → Bytes → Bytes → Bytes → Bytes → Origin → Io (Unit {0})
update_secret o app env key value origin = do
  rewrite_env_with_origins o app env (update_edit key value origin)
  record_event o update app env key

unfoldable pub set_edit : Bytes → Bytes → Origin → Draft → Io (Unit {0} × Draft)
set_edit key value origin draft = do
  lift (validate_key key)
  pure (tt, assign key value origin draft)

unfoldable pub set_secret : Outside → Bytes → Bytes → Bytes → Bytes → Origin → Io (Unit {0})
set_secret o app env key value origin = do
  rewrite_env_with_origins o app env (set_edit key value origin)
  record_event o set app env key

unfoldable pub validate_keys : List Bytes → Result (Unit {0})
validate_keys [] = ok tt
validate_keys (key ∷ rest) = elim (validate_key key) [ err e ↦ err e | ok u ↦ validate_keys rest ]

unfoldable pub assign_all : List Bytes → Values → Origin → Draft → Draft
assign_all [] batch origin draft = draft
assign_all (key ∷ rest) batch origin draft =
    assign_all rest batch origin (assign key (value_of batch key) origin draft)

unfoldable pub record_each : Outside → Op → Bytes → Bytes → List Bytes → Io (Unit {0})
record_each o op app env [] = pure tt
record_each o op app env (key ∷ rest) = do
  record_event o op app env key
  record_each o op app env rest

unfoldable pub set_secrets : Outside → Bytes → Bytes → Values → Origin → Io (Unit {0})
set_secrets o app env batch origin = do
  check (not (length batch == 0)) empty_batch
  lift (validate_keys (keys batch))
  let names = sort_strings (keys batch)
  rewrite_env_with_origins o app env (λ draft. pure (tt, assign_all names batch origin draft))
  record_each o set app env names

unfoldable pub delete_edit : Bytes → Draft → Io (Unit {0} × Draft)
delete_edit key draft = do
  lift (validate_key key)
  check (has draft.values key) (key_missing key)
  pure (tt, record draft { values = remove draft.values key; origins = remove draft.origins key })

unfoldable pub delete_secret : Outside → Bytes → Bytes → Bytes → Io (Unit {0})
delete_secret o app env key = do
  rewrite_env_with_origins o app env (delete_edit key)
  record_event o delete app env key

unfoldable pub list_secrets : Outside → Bytes → Bytes → Io (List Bytes)
list_secrets o app env = do
  found ← read_env o app env
  let (values, meta) = found
  pure (sort_strings (keys values))

unfoldable pub render : Outside → Bytes → Bytes → Io Bytes
render o app env = do found ← read_env o app env; let (values, meta) = found; pure (encode values)
