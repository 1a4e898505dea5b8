-- ===== src/Cli/Basic.antt =====
-- internal/cli/run_basic.go, run_get.go and io.go: the commands on one namespace.
pub mod RoundTrip
use thimble.Base.{
  Bool, true, false, Option, none, some, List, [], ◌∷◌, ◌++◌, ◌==◌, leb, length, if◌then◌else◌,
  Bytes, codes, equal, has_prefix, drop,
}
use thimble.Base.Space.{trim_line_end}
use thimble.Base.Dict.{get}
use thimble.Errors.{
  Error, Result, ok, err, usage, unknown_flag, flag_needs_value, recipient_required,
  value_as_argument, secret_empty, secret_not_piped, not_set,
}
use thimble.Outside.{Outside}
use thimble.World.{Origin}
use thimble.Store.Rotate.{parse_origin}
use thimble.Store.Edit.{read_env}
use thimble.Store.Access.{init_namespace}
use thimble.Store.Secrets.{create_secret, update_secret, set_secret, delete_secret, list_secrets}
use thimble.Cli.Terminal.{
  Terminal, Cmd, done, refuse, returns, on_store, ◌>>=◌, ◌>>◌, print, complain, demand, print_lines,
}
use thimble.Cli.Flags.{ParseInt, parse_flags}

-- "<verb> KEY <link> app/env\n"
abbrev pub report : Bytes → Bytes → Bytes → Bytes → Bytes → Bytes
report verb key link app env =
    verb
    ++ (codes " "
        ++ (key
            ++ (codes " " ++ (link ++ (codes " " ++ (app ++ (codes "/" ++ (env ++ codes "\n"))))))))

abbrev put_recipient : Bytes → Result (List Bytes × List Bytes) → Result (List Bytes × List Bytes)
put_recipient r (err e) = err e
put_recipient r (ok (recipients, positional)) = ok (r ∷ recipients, positional)

abbrev put_positional : Bytes → Result (List Bytes × List Bytes) → Result (List Bytes × List Bytes)
put_positional a (err e) = err e
put_positional a (ok (recipients, positional)) = ok (recipients, a ∷ positional)

unfoldable pub parse_init_args : List Bytes → Result (List Bytes × List Bytes)
parse_init_args [] = ok ([], [])
parse_init_args (a ∷ []) =
    if equal a (codes "--recipient")
    then err flag_needs_value
    else if has_prefix a (codes "--recipient=")
    then ok (drop 12 a ∷ [], [])
    else if has_prefix a (codes "-")
    then err (unknown_flag a)
    else ok ([], a ∷ [])
parse_init_args (a ∷ b ∷ rest) =
    let behind = parse_init_args rest in
    let later = parse_init_args (b ∷ rest) in
    if equal a (codes "--recipient")
    then put_recipient b behind
    else if has_prefix a (codes "--recipient=")
    then put_recipient (drop 12 a) later
    else if has_prefix a (codes "-")
    then err (unknown_flag a)
    else put_positional a later

unfoldable pub init_with : Outside → List Bytes × List Bytes → Cmd (Unit {0})
init_with o (recipients, []) = refuse (usage (codes "init"))
init_with o (recipients, app ∷ []) = refuse (usage (codes "init"))
init_with o ([], app ∷ env ∷ []) = refuse recipient_required
init_with o (r ∷ rs, app ∷ env ∷ []) = do
  on_store (init_namespace o app env (r ∷ rs))
  print (codes "initialized " ++ (app ++ (codes "/" ++ (env ++ codes "\n"))))
init_with o (recipients, a ∷ b ∷ c ∷ rest) = refuse (usage (codes "init"))

unfoldable pub run_init : Outside → List Bytes → Cmd (Unit {0})
unfolding init_with parse_init_args
run_init o args = do parsed ← returns (parse_init_args args); init_with o parsed

-- What splitOriginFlag finds: the label of the last flag, and the other arguments.
abbrev pub Split : Type 0
Split = Result (Bytes × List Bytes)

abbrev keep_argument : Bytes → Split → Split
keep_argument a (err e) = err e
keep_argument a (ok (label, positional)) = ok (label, a ∷ positional)

-- the loop, behind the label that is found already
unfoldable pub split_origin_from : Bytes → List Bytes → Split
split_origin_from label [] = ok (label, [])
split_origin_from label (a ∷ []) =
    if equal a (codes "--origin")
    then err flag_needs_value
    else if has_prefix a (codes "--origin=")
    then ok (drop 9 a, [])
    else ok (label, a ∷ [])
split_origin_from label (a ∷ b ∷ rest) =
    let behind = split_origin_from b rest in
    let renamed = split_origin_from (drop 9 a) (b ∷ rest) in
    let later = split_origin_from label (b ∷ rest) in
    if equal a (codes "--origin")
    then behind
    else if has_prefix a (codes "--origin=")
    then renamed
    else keep_argument a later

-- A namespace and a key, which three arguments name.
pub record Target : Type 0 where
  pub app : Bytes
  pub env : Bytes
  pub key : Bytes

abbrev as_target : Error → List Bytes → Result Target
as_target few [] = err few
as_target few (a ∷ []) = err few
as_target few (a ∷ b ∷ []) = err few
as_target few (a ∷ b ∷ c ∷ []) = ok (record { app = a; env = b; key = c })
as_target few (a ∷ b ∷ c ∷ d ∷ rest) = err value_as_argument

abbrev with_origin : Result Target → Result Origin → Result (Origin × Target)
with_origin (err e) origin = err e
with_origin (ok t) (err e) = err e
with_origin (ok t) (ok origin) = ok (origin, t)

abbrev judge_split : Bytes → Split → Result (Origin × Target)
judge_split name (err e) = err e
judge_split name (ok (label, positional)) =
    with_origin (as_target (usage name) positional) (parse_origin label)

-- parseSecretArgs; `name` is the command whose usage secretUsageString prints
unfoldable pub parse_secret_args : Bytes → List Bytes → Result (Origin × Target)
unfolding split_origin_from
parse_secret_args name args = judge_split name (split_origin_from [] args)

abbrev pub unless_empty : Error → Bytes → Cmd Bytes
unless_empty e [] = refuse e
unless_empty e (c ∷ cs) = done (c ∷ cs)

-- secretInput
unfoldable pub secret_input : Terminal → Bytes → Cmd Bytes
secret_input t key =
    if t.stdin_is_terminal
    then (do
      complain (codes "Secret value for " ++ (key ++ codes ": "))
      complain (codes "\n")
      value ← returns t.password
      unless_empty secret_empty value)
    else (do raw ← returns t.piped; unless_empty secret_not_piped (trim_line_end raw))

-- runWrite, for create and for update
unfoldable pub run_write : Outside → Terminal → Bool → List Bytes → Cmd (Unit {0})
unfolding parse_secret_args secret_input
run_write o t require_existing args = do
  parsed ←
      returns (parse_secret_args (if require_existing then codes "update" else codes "create") args)
  let (origin, at) = parsed
  value ← secret_input t at.key
  on_store (
      if require_existing
      then update_secret o at.app at.env at.key value origin
      else create_secret o at.app at.env at.key value origin)
  print (report (codes "saved") at.key (codes "in") at.app at.env)

unfoldable pub run_set : Outside → Terminal → List Bytes → Cmd (Unit {0})
unfolding parse_secret_args secret_input
run_set o t args = do
  parsed ← returns (parse_secret_args (codes "set") args)
  let (origin, at) = parsed
  value ← secret_input t at.key
  on_store (set_secret o at.app at.env at.key value origin)
  print (report (codes "saved") at.key (codes "in") at.app at.env)

unfoldable pub run_delete : Outside → List Bytes → Cmd (Unit {0})
run_delete o [] = refuse (usage (codes "delete"))
run_delete o (a ∷ []) = refuse (usage (codes "delete"))
run_delete o (a ∷ b ∷ []) = refuse (usage (codes "delete"))
run_delete o (app ∷ env ∷ key ∷ []) = do
  on_store (delete_secret o app env key)
  print (report (codes "deleted") key (codes "from") app env)
run_delete o (a ∷ b ∷ c ∷ d ∷ rest) = refuse (usage (codes "delete"))

unfoldable pub print_key_names : Outside → Bytes → Bytes → Cmd (Unit {0})
unfolding print_lines
print_key_names o app env = do keys ← on_store (list_secrets o app env); print_lines keys

unfoldable pub run_list : Outside → List Bytes → Cmd (Unit {0})
unfolding print_key_names
run_list o [] = refuse (usage (codes "list"))
run_list o (a ∷ []) = refuse (usage (codes "list"))
run_list o (app ∷ env ∷ []) = print_key_names o app env
run_list o (a ∷ b ∷ c ∷ rest) = refuse (usage (codes "list"))

abbrev pub print_value : Bytes → Bytes → Bytes → Option Bytes → Cmd (Unit {0})
print_value app env key none = refuse (not_set key app env)
print_value app env key (some value) = print (value ++ codes "\n")

-- runGet, behind its flags
unfoldable pub get_from : Outside → List Bytes → Cmd (Unit {0})
unfolding print_key_names
get_from o [] = refuse (usage (codes "get"))
get_from o (a ∷ []) = refuse (usage (codes "get"))
get_from o (app ∷ env ∷ []) = print_key_names o app env
get_from o (app ∷ env ∷ key ∷ []) = do
  found ← on_store (read_env o app env)
  print_value app env key (get found.0 key)
get_from o (a ∷ b ∷ c ∷ d ∷ rest) = refuse (usage (codes "get"))

unfoldable pub run_get : Outside → ParseInt → List Bytes → Cmd (Unit {0})
unfolding get_from parse_flags
run_get o parse_int args = do
  parsed ← returns (parse_flags parse_int [] [] args)
  get_from o parsed.1
