-- ===== src/Cli/Main.antt =====
-- internal/cli/cli.go: the program, from its arguments to a command. The session's store and files of
-- the peers are those at the path that the arguments select.
pub mod Pinned
use thimble.Base.{
  Bool, true, false, not, ◌||◌, Option, none, some, List, [], ◌∷◌, ◌++◌, if◌then◌else◌, Bytes,
  codes, equal,
}
use thimble.Base.Dict.{get}
use thimble.Errors.{Error, Result, ok, err, unknown_command}
use thimble.Outside.{Outside}
use thimble.World.{World}
use thimble.Age.{Platform, resolve}
use thimble.Catalog.{Selection}
use thimble.Cli.{Fold}
use thimble.Cli.Terminal.{
  Terminal, Session, Cmd, done, refuse, returns, on_store, ◌>>=◌, ◌>>◌, print,
}
use thimble.Cli.Flags.{FlagSet, Given, ParseInt, switch, text, parse_flags, is_on, text_or}
use thimble.Cli.Arguments.{Child, ChildEnd}
use thimble.Cli.Exec.{run_exec}
use thimble.Cli.Basic.{run_init, run_write, run_set, run_delete, run_list, run_get}
use thimble.Cli.Secrets.{run_provision, run_and_set, run_and_get, run_render}
use thimble.Cli.Recipient.{run_recipient}
use thimble.Cli.Peers.{Neighbours}
use thimble.Cli.Heartbeat.{run_peer}
use thimble.Cli.Inspect.{Tabulate, run_verify, run_audit}
use thimble.Cli.Dispatch.{Command, dispatch}
use thimble.Cli.Selection.{
  Places, resolve_store_selection, default_identity_path, require_managed_store,
}

pub record CliConfig : Type 0 where
  pub store_dir : Bytes
  pub identity : Bytes
  pub age_binary : Bytes
  pub age_sha256 : Bytes
  pub verbose : Bool
  pub allow_unsafe_id_mode : Bool
  pub selection : Selection

-- Everything that stands around the program. The commands doctor, web and store, which are not
-- modelled, do what the fields of their names do, whatever that is.
pub record Host : Type 0 where
  pub os : Platform
  pub places : Places
  -- age with the program and the identity of the configuration
  pub age : CliConfig → Bytes → Outside
  pub terminal : Terminal
  pub around : CliConfig → Neighbours
  pub parse_int : ParseInt
  pub environ : List Bytes
  pub children : Child → ChildEnd
  pub tabulate : Tabulate
  -- the lines on a bundle's file
  pub file : World → List Bytes
  -- versionString and usageText
  pub version : Bytes
  pub usage_text : Bytes
  pub store : CliConfig → List Bytes → Cmd (Unit {0})
  pub doctor : CliConfig → List Bytes → Cmd (Unit {0})
  pub web : CliConfig → List Bytes → Cmd (Unit {0})

unfoldable pub is_version_flag : List Bytes → Bool
is_version_flag [] = false
is_version_flag (a ∷ []) = equal a (codes "--version") || equal a (codes "-version")
is_version_flag (a ∷ b ∷ rest) = false

abbrev pub top_flags : FlagSet
top_flags =
    (codes "store", text)
    ∷ (codes "identity", text)
    ∷ (codes "age-binary", text)
    ∷ (codes "verbose", switch)
    ∷ (codes "unsafe-allow-identity-mode", switch)
    ∷ []

-- what fs.Visit finds, on the environment's value
abbrev pub store_source : Option Bytes → Bytes → Bytes
store_source (some given) from_env = codes "--store"
store_source none from_env = if equal from_env [] then codes "default" else codes "THIMBLE_STORE"

abbrev pub configure :
    Host → Given → List Bytes → Result Selection → Result (CliConfig × List Bytes)
configure host given rest (err e) = err e
configure host given rest (ok selection) = ok (
  record {
    store_dir = selection.path;
    identity = text_or given (codes "identity") (default_identity_path host.places);
    age_binary =
        text_or given (codes "age-binary") (host.places.getenv (codes "THIMBLE_AGE_BINARY"));
    age_sha256 = host.places.getenv (codes "THIMBLE_AGE_SHA256");
    verbose = is_on given (codes "verbose");
    allow_unsafe_id_mode = is_on given (codes "unsafe-allow-identity-mode");
    selection = selection;
  },
  rest,
)

abbrev pub with_flags : Host → Result (Given × List Bytes) → Result (CliConfig × List Bytes)
with_flags host (err e) = err e
with_flags host (ok (given, rest)) =
    let from_env = host.places.getenv (codes "THIMBLE_STORE") in
    configure host given rest (
      resolve_store_selection host.places
        (text_or given (codes "store") (if equal from_env [] then codes "default" else from_env))
        (store_source (get given (codes "store")) from_env))

unfoldable pub parse_top_flags : Host → List Bytes → Result (CliConfig × List Bytes)
unfolding resolve_store_selection default_identity_path
parse_top_flags host args = with_flags host (parse_flags host.parse_int top_flags [] args)

-- the verbs that print or keep a secret of one namespace; the default continues with the others
abbrev dispatch_others : Host → CliConfig → Outside → Command
dispatch_others host cfg o cmd rest =
    if equal cmd (codes "verify")
    then run_verify o host.file rest
    else if equal cmd (codes "audit")
    then run_audit host.tabulate host.parse_int rest
    else if equal cmd (codes "doctor")
    then host.doctor cfg rest
    else if equal cmd (codes "web")
    then host.web cfg rest
    else if equal cmd (codes "peer")
    then run_peer o (host.around cfg) rest
    else if equal cmd (codes "help") || equal cmd (codes "-h") || equal cmd (codes "--help")
    then print (host.usage_text ++ codes "\n")
    else refuse (unknown_command cmd)

abbrev dispatch_reads : Host → CliConfig → Outside → Command
dispatch_reads host cfg o cmd rest =
    if equal cmd (codes "and-get")
    then run_and_get host.os.fold o host.terminal host.parse_int rest
    else if equal cmd (codes "exec")
    then on_store (run_exec host.os.fold o host.environ host.children rest)
    else if equal cmd (codes "delete") || equal cmd (codes "rm")
    then run_delete o rest
    else if equal cmd (codes "list") || equal cmd (codes "ls")
    then run_list o rest
    else if equal cmd (codes "get")
    then run_get o host.parse_int rest
    else if equal cmd (codes "render")
    then run_render o host.parse_int rest
    else dispatch_others host cfg o cmd rest

-- dispatchCommand, its switch in three parts
unfoldable pub dispatch_command : Host → CliConfig → Outside → Command
unfolding run_init run_recipient run_write run_set run_provision run_and_set run_and_get run_exec
    run_delete run_list run_get run_render run_verify run_audit run_peer
dispatch_command host cfg o cmd rest =
    if equal cmd (codes "init")
    then run_init o rest
    else if equal cmd (codes "recipient")
    then run_recipient o rest
    else if equal cmd (codes "create")
    then run_write o host.terminal false rest
    else if equal cmd (codes "update")
    then run_write o host.terminal true rest
    else if equal cmd (codes "set")
    then run_set o host.terminal rest
    else if equal cmd (codes "provision")
    then run_provision o host.terminal host.parse_int rest
    else if equal cmd (codes "and-set")
    then run_and_set o host.terminal host.parse_int rest
    else dispatch_reads host cfg o cmd rest

-- dispatch, with age at this path
unfoldable pub dispatch_with : Host → CliConfig → Bytes → Bytes → List Bytes → Cmd (Unit {0})
unfolding dispatch_command
dispatch_with host cfg path =
    dispatch host.os.fold (host.around cfg).net cfg.store_dir
      (dispatch_command host cfg (host.age cfg path))

-- buildStoreAndTool and dispatch, as Run calls them
unfoldable pub run_command : Host → CliConfig → Bytes → List Bytes → Cmd (Unit {0})
unfolding dispatch_with
run_command host cfg cmd args = do
  returns (require_managed_store host.places cfg.selection cmd)
  path ← returns (resolve host.os cfg.age_binary cfg.age_sha256)
  dispatch_with host cfg path cmd args

-- Run, behind the flags
unfoldable pub run_configured : Host → CliConfig × List Bytes → Cmd (Unit {0})
unfolding run_command
run_configured host (cfg, []) = print (host.usage_text ++ codes "\n")
run_configured host (cfg, cmd ∷ args) =
    if equal cmd (codes "version")
    then print (host.version ++ codes "\n")
    else if equal cmd (codes "store")
    then host.store cfg args
    else run_command host cfg cmd args

unfoldable pub run : Host → List Bytes → Cmd (Unit {0})
unfolding is_version_flag parse_top_flags run_configured
run host args =
    if is_version_flag args
    then print (host.version ++ codes "\n")
    else (do parsed ← returns (parse_top_flags host args); run_configured host parsed)
