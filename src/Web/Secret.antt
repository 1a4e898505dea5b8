-- ===== src/Web/Secret.antt =====
-- internal/web/server.go and server_secret.go: the routes that change the store.
use thimble.Base.{
  ℕ, Bool, not, ◌&&◌, ◌||◌, none, some, List, [], ◌∷◌, ltb, ◌==◌, if◌then◌else◌, Bytes, codes,
  equal, mem, length, reverse,
}
use thimble.Base.Dict.{Dict, get, put}
use thimble.Base.Space.{trim_space}
use thimble.Outside.{Outside}
use thimble.Errors.{
  Result, ok, err, value_empty, unsupported_generator, unknown_action, no_store, no_keys_staged,
  too_many_keys, set_unavailable, malformed_form,
}
use thimble.World.{World, Io, pure, raise, lift, tick, ◌>>=◌, ◌>>◌, set}
use thimble.Dotenv.{Values, validate_key}
use thimble.Passphrase.{Draw, generate_from}
use thimble.Store.Secrets.{set_secret, set_secrets, delete_secret}
use thimble.Store.Access.{init_namespace, add_recipient, remove_recipient}
use thimble.Web.{
  method_post, Request, Server, Current, selected, unselected, unavailable, Response,
  method_not_allowed, bad_form, redirect_error, redirect_notice, redirect_saved, form_value,
  require_session,
}

-- crypto/rand for the n-th phrase that is generated
abbrev pub Draws : Type 0
Draws = ℕ → Draw

abbrev Form : Type 0
Form = Dict (List Bytes)

abbrev pub max_generated_secrets : ℕ
max_generated_secrets = 50

abbrev with_key : Bytes → Result (List Bytes) → Result (List Bytes)
with_key key (err e) = err e
with_key key (ok keys) = ok (key ∷ keys)

-- the loop of uniqueSecretKeys; `seen` holds the keys taken so far
unfoldable pub take_keys : List Bytes → List Bytes → Result (List Bytes)
take_keys seen [] = ok []
take_keys seen (raw ∷ rest) =
    let key = trim_space raw in
    let skipped = take_keys seen rest in
    let more = take_keys (key ∷ seen) rest in
    elim (validate_key key) [
      | err e ↦ err e
      | ok fine ↦
          if mem key seen
          then skipped
          else if ltb max_generated_secrets (length (key ∷ seen))
          then err too_many_keys
          else with_key key more
    ]

unfoldable pub unique_secret_keys : List Bytes → Result (List Bytes)
unfolding take_keys
unique_secret_keys [] = err no_keys_staged
unique_secret_keys (raw ∷ rest) = take_keys [] (raw ∷ rest)

-- the loop of generatePassphrases
unfoldable pub generate_values : Draws → List Bytes → Values → Io Values
generate_values draws [] values = pure values
generate_values draws (key ∷ rest) values = do
  n ← tick
  value ← lift (generate_from (draws n) 0)
  generate_values draws rest (put values key value)

abbrev preset : Bytes
preset = codes "hyphenated-4w-gt30c"

unfoldable pub generate_passphrases :
    Outside → Draws → Bytes → Bytes → List Bytes → Bytes → Io (List Bytes)
unfolding generate_values
generate_passphrases o draws app env raw_keys generator =
    if not (equal generator preset) then raise unsupported_generator else do
      keys ← lift (unique_secret_keys raw_keys)
      values ← generate_values draws keys []
      set_secrets o app env values set
      pure keys

unfoldable pub set_value : Outside → Bytes → Bytes → Bytes → Bytes → Io (List Bytes)
set_value o app env key value =
    if equal (trim_space value) []
    then raise value_empty
    else do set_secret o app env key value set; pure (key ∷ [])

unfoldable pub generate_passphrase :
    Outside → Draws → Bytes → Bytes → Bytes → Bytes → Io (List Bytes)
generate_passphrase o draws app env key generator =
    if not (equal generator preset) then raise unsupported_generator else do
      n ← tick
      value ← lift (generate_from (draws n) 0)
      set_secret o app env key value set
      pure (key ∷ [])

-- r.Form["key"]
abbrev all_values : Form → Bytes → List Bytes
all_values form name = elim (get form name) [ none ↦ [] | some vs ↦ vs ]

-- st, _, err := s.stores.Current(), and what a handler does with the store
abbrev with_store {ℓ} : {A : Type ℓ} → Current → Io A → Io A
with_store selected m = m
with_store unselected m = raise no_store
with_store (unavailable e) m = raise e

-- the switch of runSecretAction
unfoldable pub act_on_secret : Outside → Draws → Form → Bytes → Io (List Bytes)
unfolding generate_passphrases set_value generate_passphrase
act_on_secret o draws form action =
    let app = form_value form (codes "app") in
    let env = form_value form (codes "env") in
    let key = form_value form (codes "key") in
    let generator = form_value form (codes "generator") in
    if equal action (codes "set")
    then set_value o app env key (form_value form (codes "value"))
    else if equal action (codes "generate-passphrase")
    then generate_passphrase o draws app env key generator
    else if equal action (codes "generate-passphrases")
    then generate_passphrases o draws app env (all_values form (codes "key")) generator
    else if equal action (codes "delete")
    then (do delete_secret o app env key; pure [])
    else raise unknown_action

unfoldable pub run_secret_action : Outside → Draws → Current → Form → Bytes → Io (List Bytes)
unfolding act_on_secret
run_secret_action o draws current form action =
    with_store current (act_on_secret o draws form action)

unfoldable pub is_secret_write_action : Bytes → Bool
is_secret_write_action action =
    equal action (codes "set")
    || equal action (codes "generate-passphrase")
    || equal action (codes "generate-passphrases")

-- The store behind an operation, and the answer that its result gives.
abbrev answer {ℓ} : {A : Type ℓ} → Server → (A → Response) → Result A × World → Response × Server
answer s respond (ok a, w) = (respond a, record s { world = w })
answer s respond (err e, w) = (redirect_error e, record s { world = w })

abbrev saved : Bytes → List Bytes → Response
saved action keys = if is_secret_write_action action then redirect_saved keys else redirect_notice

-- handleSecret, on a form that was parsed
unfoldable pub secret_form : Outside → Draws → Form → Server → Response × Server
unfolding run_secret_action is_secret_write_action
secret_form o draws form s =
    let action = form_value form (codes "action") in
    if is_secret_write_action action && (not s.loopback || not s.can_set)
    then (redirect_error set_unavailable, s)
    else answer s (saved action) (run_secret_action o draws s.current form action s.world)

-- The checks that the handlers share: the session, the method and the form.
unfoldable pub posted :
    Response → (Form → Server → Response × Server) → Request → Server → Response × Server
posted refusal rest r s = require_session r s (λ s'. elim r.method [
  | method_post ↦ elim r.form [ none ↦ (refusal, s') | some form ↦ rest form s' ]
  | _ ↦ (method_not_allowed, s')
])

unfoldable pub handle_secret : Outside → Draws → Request → Server → Response × Server
unfolding secret_form posted
handle_secret o draws = posted bad_form (secret_form o draws)

-- the switch of runRecipientAction
unfoldable pub run_recipient_action : Outside → Current → Form → Io (Unit {0})
run_recipient_action o current form =
    let app = form_value form (codes "app") in
    let env = form_value form (codes "env") in
    let recipient = form_value form (codes "recipient") in
    let action = form_value form (codes "action") in
    with_store current (
      if equal action (codes "add")
      then add_recipient o app env recipient
      else if equal action (codes "remove")
      then remove_recipient o app env recipient
      else raise unknown_action)

unfoldable pub handle_recipient : Outside → Request → Server → Response × Server
unfolding posted run_recipient_action
handle_recipient o =
    posted (redirect_error malformed_form)
      (λ form s. answer s (λ done. redirect_notice) (run_recipient_action o s.current form s.world))

abbrev is_separator : ℕ → Bool
is_separator c = c == b'\n' || c == b'\r' || c == b','

abbrev end_field : Bytes → List Bytes → List Bytes
end_field [] later = later
end_field (c ∷ cs) later = reverse (c ∷ cs) ∷ later

-- strings.FieldsFunc; `field` is the field being read, backwards
unfoldable pub fields : Bytes → Bytes → List Bytes
fields field [] = end_field field []
fields field (c ∷ cs) =
    let next = fields [] cs in
    let longer = fields (c ∷ field) cs in if is_separator c then end_field field next else longer

unfoldable pub handle_namespace : Outside → Request → Server → Response × Server
unfolding posted fields
handle_namespace o = posted (redirect_error malformed_form) (λ form s.
    answer s (λ done. redirect_notice)
      (with_store s.current
        (init_namespace o (form_value form (codes "app")) (form_value form (codes "env"))
          (fields [] (form_value form (codes "recipients"))))
        s.world))
