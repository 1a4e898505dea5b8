-- ===== src/Cli/Recipient.antt =====
-- internal/cli/run_recipient.go: the recipients of a namespace.
pub mod Gated
use thimble.Base.{
  ℕ, Bool, true, false, not, Option, none, some, List, [], ◌∷◌, ◌++◌, ◌==◌, length, if◌then◌else◌,
  Bytes, codes, equal, has_prefix, join_with, map,
}
use thimble.Base.Decimal.{decimal, integer_text, pad_end}
use thimble.Errors.{Error, Result, ok, err, usage, unknown_flag}
use thimble.Outside.{Outside}
use thimble.World.{Origin, provision, and_set, set, other}
use thimble.Store.Access.{RecipientListEntry, list_recipients}
use thimble.Store.Rotate.{RotateOptions, RotateOutcome, remove_recipient_with_rotation}
use thimble.Store.Gate.{
  AddOutcome, added, prepared, SignAddSummary, add_recipient_v2, sign_add_recipient,
}
use thimble.Cli.Terminal.{Cmd, done, refuse, returns, on_store, ◌>>=◌, ◌>>◌, print, print_lines}

abbrev usage_error : Error
usage_error = usage (codes "recipient")

-- the texts of the arguments one behind the other, as Fprintf puts them
abbrev pub concat_texts : List Bytes → Bytes
concat_texts [] = []
concat_texts (t ∷ ts) = t ++ concat_texts ts

abbrev keep_positional {ℓ} :
    {A : Type ℓ} → Bytes → Result (A × List Bytes) → Result (A × List Bytes)
keep_positional a (err e) = err e
keep_positional a (ok (flags, positional)) = ok (flags, a ∷ positional)

abbrev with_bootstrap : Result (Bool × List Bytes) → Result (Bool × List Bytes)
with_bootstrap (err e) = err e
with_bootstrap (ok (bootstrap, positional)) = ok (true, positional)

unfoldable pub parse_add_args : List Bytes → Result (Bool × List Bytes)
parse_add_args [] = ok (false, [])
parse_add_args (a ∷ rest) =
    let later = parse_add_args rest in
    if equal a (codes "--bootstrap")
    then with_bootstrap later
    else if has_prefix a (codes "-")
    then err (unknown_flag a)
    else keep_positional a later

-- printAddedOutcome
unfoldable pub print_added_outcome : Bytes → Bytes → List Bytes → Cmd (Unit {0})
print_added_outcome app env [] =
    print (concat_texts (codes "added recipient to " ∷ app ∷ codes "/" ∷ env ∷ codes "\n" ∷ []))
print_added_outcome app env (n ∷ ns) = do
  print (concat_texts (codes "added recipient to " ∷ app ∷ codes "/" ∷ env ∷ codes "\n" ∷ []))
  print (
      concat_texts (
        codes "quorum satisfied: "
        ∷ decimal (length (n ∷ ns))
        ∷ codes " signatures from "
        ∷ join_with (codes ", ") (n ∷ ns)
        ∷ codes "\n"
        ∷ []))

unfoldable pub print_prepared_outcome : Bytes → Bytes → AddOutcome → Cmd (Unit {0})
print_prepared_outcome app env outcome = do
  let operators = decimal (length outcome.policy_operators)
  let whole = app ++ (codes " " ++ (env ++ (codes " " ++ (outcome.new_recipient ++ codes "\n"))))
  print (
      concat_texts (
        codes "prepared "
        ∷ operators
        ∷ codes " challenge files in secrets/.pending-recipient-adds\n"
        ∷ []))
  print (
      concat_texts (
        codes "need "
        ∷ integer_text outcome.quorum_m
        ∷ codes " of "
        ∷ operators
        ∷ codes " signatures from: "
        ∷ join_with (codes ", ") (map (λ op. op.name) outcome.policy_operators)
        ∷ codes "\n"
        ∷ []))
  print (codes "have operators run: thimble recipient sign-add " ++ whole)
  print (codes "then re-run: thimble recipient add " ++ whole)

unfoldable pub print_add_outcome : Bytes → Bytes → AddOutcome → Cmd (Unit {0})
unfolding print_added_outcome print_prepared_outcome
print_add_outcome app env outcome = elim outcome.stage [
  | added ↦ print_added_outcome app env outcome.signer_names
  | prepared ↦ print_prepared_outcome app env outcome
]

-- runRecipientAdd, behind its flags
unfoldable pub add_with : Outside → Bool × List Bytes → Cmd (Unit {0})
unfolding print_add_outcome
add_with o (bootstrap, []) = refuse usage_error
add_with o (bootstrap, a ∷ []) = refuse usage_error
add_with o (bootstrap, a ∷ b ∷ []) = refuse usage_error
add_with o (bootstrap, app ∷ env ∷ recipient ∷ []) = do
  outcome ← on_store (add_recipient_v2 o app env recipient bootstrap)
  print_add_outcome app env outcome
add_with o (bootstrap, a ∷ b ∷ c ∷ d ∷ rest) = refuse usage_error

unfoldable pub run_recipient_add : Outside → List Bytes → Cmd (Unit {0})
unfolding add_with parse_add_args
run_recipient_add o args = do parsed ← returns (parse_add_args args); add_with o parsed

abbrev with_options :
    (RotateOptions → RotateOptions)
    → Result (RotateOptions × List Bytes)
    → Result (RotateOptions × List Bytes)
with_options f (err e) = err e
with_options f (ok (opts, positional)) = ok (f opts, positional)

-- The flags only ever switch the options on, so that their order does not count.
unfoldable pub parse_remove_args : List Bytes → Result (RotateOptions × List Bytes)
parse_remove_args [] = ok (record { rotate = false; randoms_only = false }, [])
parse_remove_args (a ∷ rest) =
    let later = parse_remove_args rest in
    if equal a (codes "--rotate")
    then with_options (λ opts. record opts { rotate = true }) later
    else if equal a (codes "--rotate-randoms-only")
    then with_options (λ opts. record { rotate = true; randoms_only = true }) later
    else if has_prefix a (codes "-")
    then err (unknown_flag a)
    else keep_positional a later

unfoldable pub rotate_needs_hint : Origin → Bytes
rotate_needs_hint and_set = codes "rerun your producer command"
rotate_needs_hint set = codes "re-set the value"
rotate_needs_hint provision = codes "re-set the value"
rotate_needs_hint (other label) = codes "re-set the value"

abbrev origin_text : Origin → Bytes
origin_text provision = codes "provision"
origin_text and_set = codes "and-set"
origin_text set = codes "set"
origin_text (other label) = label

abbrev attention_line : Bytes × Origin → Bytes
attention_line (key, origin) = concat_texts (
    codes "manual rotate needed: "
    ∷ key
    ∷ codes " (origin: "
    ∷ origin_text origin
    ∷ codes "; "
    ∷ rotate_needs_hint origin
    ∷ codes ")"
    ∷ [])

unfoldable pub print_rotate_outcome : Bool → RotateOutcome → Cmd (Unit {0})
unfolding print_lines
print_rotate_outcome randoms_only outcome = do
  print_lines (map (λ key. codes "rotated " ++ (key ++ codes " (provisioned)")) outcome.rotated)
  print_lines (if randoms_only then [] else map attention_line outcome.needs_attention)
  print (
      concat_texts (
        decimal (length outcome.rotated)
        ∷ codes " rotated, "
        ∷ decimal (length outcome.needs_attention)
        ∷ codes " needs-attention\n"
        ∷ []))

-- runRecipientRemove, behind its flags
unfoldable pub remove_with : Outside → RotateOptions × List Bytes → Cmd (Unit {0})
unfolding print_rotate_outcome
remove_with o (opts, []) = refuse usage_error
remove_with o (opts, a ∷ []) = refuse usage_error
remove_with o (opts, a ∷ b ∷ []) = refuse usage_error
remove_with o (opts, app ∷ env ∷ recipient ∷ []) = do
  outcome ← on_store (remove_recipient_with_rotation o app env recipient opts)
  print (concat_texts (codes "removed recipient from " ∷ app ∷ codes "/" ∷ env ∷ codes "\n" ∷ []))
  if opts.rotate then print_rotate_outcome opts.randoms_only outcome else done tt
remove_with o (opts, a ∷ b ∷ c ∷ d ∷ rest) = refuse usage_error

unfoldable pub run_recipient_remove : Outside → List Bytes → Cmd (Unit {0})
unfolding remove_with parse_remove_args
run_recipient_remove o args = do parsed ← returns (parse_remove_args args); remove_with o parsed

abbrev entry_line : RecipientListEntry → Bytes
entry_line e = pad_end 12 e.prefix ++ (codes " " ++ (e.opaque_id ++ (codes " " ++ e.recipient)))

unfoldable pub run_recipient_list : Outside → List Bytes → Cmd (Unit {0})
run_recipient_list o [] = refuse usage_error
run_recipient_list o (a ∷ []) = refuse usage_error
run_recipient_list o (app ∷ env ∷ []) = do
  entries ← on_store (list_recipients o app env)
  print_lines (map entry_line entries)
run_recipient_list o (a ∷ b ∷ c ∷ rest) = refuse usage_error

-- What the command prints besides is the path of the signature's file.
unfoldable pub run_recipient_sign_add : Outside → List Bytes → Cmd (Unit {0})
run_recipient_sign_add o [] = refuse usage_error
run_recipient_sign_add o (a ∷ []) = refuse usage_error
run_recipient_sign_add o (a ∷ b ∷ []) = refuse usage_error
run_recipient_sign_add o (app ∷ env ∷ recipient ∷ []) = do
  summary ← on_store (sign_add_recipient o app env recipient)
  print (
      concat_texts (
        codes "signed by "
        ∷ summary.operator_name
        ∷ codes " ("
        ∷ summary.operator_thumb
        ∷ codes "); "
        ∷ integer_text summary.quorum_m
        ∷ codes " signatures required total\n"
        ∷ []))
run_recipient_sign_add o (a ∷ b ∷ c ∷ d ∷ rest) = refuse usage_error

-- runRecipientV2
unfoldable pub run_recipient : Outside → List Bytes → Cmd (Unit {0})
unfolding run_recipient_add run_recipient_remove run_recipient_list run_recipient_sign_add
run_recipient o [] = refuse usage_error
run_recipient o (verb ∷ args) =
    if equal verb (codes "add")
    then run_recipient_add o args
    else if equal verb (codes "remove")
    then run_recipient_remove o args
    else if equal verb (codes "list")
    then run_recipient_list o args
    else if equal verb (codes "sign-add")
    then run_recipient_sign_add o args
    else refuse usage_error
