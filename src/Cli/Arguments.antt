-- ===== src/Cli/Arguments.antt =====
-- internal/cli/run_exec.go: the arguments of exec, its guard, and the child that it runs.
use thimble.Base.{
  ℕ, Bool, true, false, not, ◌&&◌, ◌||◌, Option, none, some, List, [], ◌∷◌, ◌++◌, ◌==◌,
  if◌then◌else◌, Bytes, codes, equal, cut_at, mem,
}
use thimble.Errors.{Result, ok, err, ◌>>=◌, ◌>>◌, bad_flag, exec_usage, child_exited, child_failed}
use thimble.Dotenv.{Values, validate_key, encode}
use thimble.Cli.{Fold, guard_shell_env_all, command_after_dash}

-- The flags of exec, by flag.FlagSet of the standard library.
pub record ExecFlags : Type 0 where
  pub use_env : Bool
  pub allow_shell_env : Bool

-- strconv.ParseBool
unfoldable pub parse_bool : Bytes → Option Bool
parse_bool v =
    if mem v (codes "1" ∷ codes "t" ∷ codes "T" ∷ codes "TRUE" ∷ codes "true" ∷ codes "True" ∷ [])
    then some true
    else if mem v
        (codes "0" ∷ codes "f" ∷ codes "F" ∷ codes "FALSE" ∷ codes "false" ∷ codes "False" ∷ [])
    then some false
    else none

unfoldable pub set_flag : Bytes → Option Bool → ExecFlags → Result ExecFlags
set_flag name none flags = err bad_flag
set_flag name (some b) flags =
    if equal name (codes "env")
    then ok (record flags { use_env = b })
    else if equal name (codes "allow-shell-env")
    then ok (record flags { allow_shell_env = b })
    else err bad_flag

-- name, or name=value
abbrev parse_flag : Bytes → ExecFlags → Result ExecFlags
parse_flag [] flags = err bad_flag
parse_flag (c ∷ cs) flags =
    if c == b'-' || c == b'=' then err bad_flag else elim (cut_at b'=' (c ∷ cs)) [
      | none ↦ set_flag (c ∷ cs) (some true) flags
      | some (name, value) ↦ set_flag name (parse_bool value) flags
    ]

-- What stands behind one dash or two; `none` for an argument that is no flag.
abbrev flag_name : Bytes → Option Bytes
flag_name [] = none
flag_name (c ∷ []) = none
flag_name (c ∷ d ∷ cs) =
    if not (c == b'-') then none else if d == b'-' then some cs else some (d ∷ cs)

-- parseExecFlags
unfoldable pub parse_exec_flags : ExecFlags → List Bytes → Result (ExecFlags × List Bytes)
unfolding set_flag parse_bool
parse_exec_flags flags [] = ok (flags, [])
parse_exec_flags flags (a ∷ rest) = elim (flag_name a) [
  | none ↦ ok (flags, a ∷ rest)
  | some name ↦
      if equal a (codes "--")
      then ok (flags, rest)
      else elim (parse_flag name flags) [ err e ↦ err e | ok next ↦ parse_exec_flags next rest ]
]

-- How the child gets the values: as its environment, or on its standard input.
pub data Delivery : Type 0 where
  in_environment on_stdin : Delivery

pub record Child : Type 0 where
  pub argv : List Bytes
  pub delivery : Delivery
  -- the environment, when the values are in it
  pub environment : List Bytes
  pub stdin : Bytes

-- What running a child gives: its status, or the error of starting it.
pub data ChildEnd : Type 0 where
  exited : ℕ → ChildEnd
  failed : Bytes → ChildEnd

-- the loop of buildEnvBlock, behind the environment of this process
unfoldable pub build_env_block : List Bytes → Values → Result (List Bytes)
build_env_block out [] = ok out
build_env_block out ((key, value) ∷ rest) = do
  validate_key key
  build_env_block (out ++ ((key ++ (b'=' ∷ value)) ∷ [])) rest

-- runNamespaceConsumer, up to the start of the child
unfoldable pub prepare_child : List Bytes → List Bytes → Values → Bool → Result Child
unfolding build_env_block
prepare_child environ argv values use_env =
    if use_env
    then (do
      block ← build_env_block environ values
      ok (record { argv = argv; delivery = in_environment; environment = block; stdin = [] }))
    else ok
        (record { argv = argv; delivery = on_stdin; environment = environ; stdin = encode values })

-- runChildAndPropagate, on what the child did
unfoldable pub propagate : ChildEnd → Result (Unit {0})
propagate (exited n) = if n == 0 then ok tt else err (child_exited n)
propagate (failed e) = err (child_failed e)

abbrev pub run_with : (Child → ChildEnd) → Result Child → Result (Unit {0})
run_with children (err e) = err e
run_with children (ok child) = propagate (children child)

-- What the arguments ask for: the namespace, the command, and the way of the values.
pub record Request : Type 0 where
  pub flags : ExecFlags
  pub app : Bytes
  pub env : Bytes
  pub command : Bytes
  pub arguments : List Bytes

abbrev command_of : ExecFlags → Bytes → Bytes → List Bytes → Result Request
command_of flags app env [] = err exec_usage
command_of flags app env (command ∷ arguments) =
    ok (record { flags = flags; app = app; env = env; command = command; arguments = arguments })

abbrev namespace_of : ExecFlags → List Bytes → Result Request
namespace_of flags [] = err exec_usage
namespace_of flags (app ∷ []) = err exec_usage
namespace_of flags (app ∷ env ∷ []) = err exec_usage
namespace_of flags (app ∷ env ∷ dash ∷ []) = err exec_usage
namespace_of flags (app ∷ env ∷ dash ∷ c ∷ cs) = do
  argv ← command_after_dash (dash ∷ c ∷ cs)
  command_of flags app env argv

unfoldable pub parse_exec : List Bytes → Result Request
unfolding parse_exec_flags
parse_exec args = do
  (flags, rest) ← parse_exec_flags (record { use_env = false; allow_shell_env = false }) args
  namespace_of flags rest

unfoldable pub guard_exec : Fold → Request → Result (Unit {0})
guard_exec fold r =
    if r.flags.use_env && not r.flags.allow_shell_env
    then guard_shell_env_all fold (r.command ∷ r.arguments)
    else ok tt
