-- ===== src/Errors.antt =====
-- The errors that the modelled packages return, and the two ways a Go function ends. A Go error is
-- a text; here it is the case that the text names, with the parts that vary.
use thimble.Base.{ℕ, Bool, true, false, List, ◌≡◌, refl, ◌⊎◌, inl, inr, Bytes}

pub data Error : Type 0 where
  -- internal/dotenv
  invalid_key : Bytes → Error
  invalid_dotenv_line : ℕ → Error
  on_line : ℕ → Error → Error
  exceeds_limit : ℕ → Error
  unquoted_multiline trailing_content unterminated : Error
  -- internal/store/validate.go
  invalid_name dotted_name : Bytes → Bytes → Error
  no_recipients recipient_empty recipient_whitespace : Error
  unknown_recipient : Bytes → Error
  -- internal/quorum
  unknown_section : Bytes → Error
  expected_assignment : Error
  outside_section : Bytes → Error
  unknown_key : Bytes → Error
  not_integer : Bytes → Error
  expected_quoted escapes_unsupported : Bytes → Error
  missing_quorum_m no_operators quorum_below_one quorum_above_operators : Error
  operator_name_empty : ℕ → Error
  operator_recipient_empty : ℕ → Error
  duplicate_operator_name duplicate_operator_recipient : Bytes → Error
  message_mismatch no_pending wrong_recipient wrong_namespace stale_bundle : Error
  quorum_changed unknown_operator challenge_missing : Error
  undecodable_meta : Error
  unsupported_version : ℕ → Error
  signatures_missing : ℕ → ℕ → List Bytes → Error
  store_root_empty names_required new_recipient_empty bundle_sha_empty : Error
  verifier_empty operator_empty : Error
  operator_is_new_recipient : Bytes → Error
  -- internal/store
  undecodable_manifest undecodable_origins : Error
  not_initialized already_exists_namespace another_writer : Bytes → Bytes → Error
  bundle_missing sha_mismatch : Error
  key_exists key_missing : Bytes → Error
  empty_batch recipient_not_found last_recipient : Error
  bootstrap_rejected : ℕ → Error
  no_identity no_policy : Error
  save_origins_failed save_manifest_failed : Error → Error
  unknown_origin : Bytes → Error
  -- internal/peer
  peer_name_empty peer_name_illegal peer_target_empty target_forbidden : Error
  malformed_target target_dash undecodable_state : Error
  peer_without_name : ℕ → Error
  peer_without_target duplicate_peer peer_exists peer_not_found : Bytes → Error
  -- internal/storecatalog
  invalid_store_name : Bytes → Error
  no_config_directory path_escapes_root not_related lstat_failed : Error
  not_a_directory : Bytes → Error
  -- internal/web
  value_empty unsupported_generator unknown_action no_store no_keys_staged : Error
  too_many_keys set_unavailable malformed_form : Error
  -- internal/cli
  bad_flag shell_child no_separator no_command exec_usage : Error
  child_exited : ℕ → Error
  child_failed : Bytes → Error
  -- `usage` holds the command's name
  usage unknown_command unknown_flag : Bytes → Error
  flag_needs_value recipient_required value_as_argument secret_empty secret_not_piped : Error
  producer_failed : Bytes → Error
  producer_silent too_few_bytes terminal_refused bad_format limit_below_one : Error
  not_set : Bytes → Bytes → Bytes → Error
  bundle_unhashed : Bytes → Bytes → Error
  bundle_mismatch : Bytes → Bytes → Error
  store_populated glob_failed rsync_not_found store_not_found : Error
  rsync_failed : Bytes → Error
  pings_failed : ℕ → Error
  -- internal/age
  age_not_found age_unreadable no_age_recipient age_timed_out age_cancelled : Error
  age_pin_mismatch : Bytes → Bytes → Error
  identity_unreadable identity_exposed : Bytes → Error
  age_run_failed : Bytes → Error
  -- internal/passphrase, where an index out of range is Go's panic
  index_out_of_range phrase_too_short : Error
  -- age, the random source and the operating system
  age_failed random_failed lock_failed write_failed : Error
  audit_unreadable audit_line_too_long : Error

pub data Result {ℓ} (A : Type ℓ) : Type ℓ where
  err : Error → Result A
  ok : A → Result A

-- if !b { return err }
abbrev pub require : Bool → Error → Result (Unit {0})
require true e = ok tt
require false e = err e

-- fmt.Errorf("line %d: %w", n, err)
abbrev pub in_line {ℓ} : {A : Type ℓ} → ℕ → Result A → Result A
in_line n (ok a) = ok a
in_line n (err e) = err (on_line n e)

-- A step and the rest of a function, which an error skips.
module _ {ℓ κ} {A : Type ℓ} {B : Type κ} where
  infixl 5 ◌>>=◌
  abbrev pub ◌>>=◌ : Result A → (A → Result B) → Result B
  err e >>= rest = err e
  ok a >>= rest = rest a

  pub bind-eq-ok :
      (step : Result A) (rest : A → Result B) {last : B}
      → step >>= rest ≡ ok last
      → (first : A) × (step ≡ ok first) × (rest first ≡ ok last)
  bind-eq-ok (err e) rest h = cc
  bind-eq-ok (ok first) rest h = (first, refl, h)

module _ {ℓ} {B : Type ℓ} where
  infixl 5 ◌>>◌
  abbrev pub ◌>>◌ : Result (Unit {0}) → Result B → Result B
  step >> rest = step >>= λ _. rest

pub ok_inverse {ℓ} : {A : Type ℓ} {x y : A} → ok x ≡ ok y → x ≡ y
ok_inverse h = cc

pub require-eq-ok : (b : Bool) (e : Error) → require b e ≡ ok tt → b ≡ true
require-eq-ok true e h = refl
require-eq-ok false e h = cc

pub Result-cases {ℓ} :
    {A : Type ℓ} (r : Result A) → ((e : Error) × (r ≡ err e)) ⊎ ((a : A) × (r ≡ ok a))
Result-cases (err e) = inl (e, refl)
Result-cases (ok a) = inr (a, refl)

-- A guard that did not stop the function.
pub guard-eq-ok {ℓ} :
    {B : Type ℓ} (b : Bool) (e : Error) (rest : Result B) {last : B}
    → require b e >> rest ≡ ok last
    → (b ≡ true) × (rest ≡ ok last)
guard-eq-ok true e rest h = (refl, h)
guard-eq-ok false e rest h = cc

-- A property of the value that a function returns, if it returns no error.
abbrev pub Ensures {ℓ} : {A : Type ℓ} → (A → Type 0) → Result A → Type 0
Ensures P (ok a) = P a
Ensures P (err e) = Unit {0}

pub Ensures-bind {ℓ κ} :
    {A : Type ℓ} {B : Type κ} (P : A → Type 0) (Q : B → Type 0) (m : Result A) (f : A → Result B)
    → Ensures P m
    → ((a : A) → P a → Ensures Q (f a))
    → Ensures Q (m >>= f)
Ensures-bind P Q (ok a) f p q = q a p
Ensures-bind P Q (err e) f p q = tt
