-- ===== src/Cli/Secrets.antt =====
-- internal/cli/run_secret.go: making a secret, and passing one on.
use thimble.Base.{
  ℕ, suc, Bool, false, not, ◌&&◌, Option, none, some, List, [], ◌∷◌, ◌++◌, leb, if◌then◌else◌,
  Bytes, codes, equal,
}
use thimble.Base.Space.{trim_line_end}
use thimble.Base.Dict.{get}
use thimble.Base.Number.{ℤ, pos, negsuc}
use thimble.Errors.{
  Result, ok, err, usage, too_few_bytes, terminal_refused, producer_failed, producer_silent,
  key_missing, bad_format, child_failed,
}
use thimble.Age.{redact}
use thimble.Outside.{Outside}
use thimble.World.{Io, and_set}
use thimble.Dotenv.{validate_key}
use thimble.Store.Rotate.{url_encode}
use thimble.Store.Edit.{read_env}
use thimble.Store.Secrets.{set_secret, render}
use thimble.Cli.{Fold, guard_shell_env, command_after_dash}
use thimble.Cli.Terminal.{
  Terminal, Cmd, done, refuse, returns, on_store, ◌>>=◌, ◌>>◌, print, complain, demand,
}
use thimble.Cli.Flags.{
  FlagSet, Given, ParseInt, switch, text, integer, parse_flags, is_on, text_or, integer_or,
}
use thimble.Cli.Basic.{unless_empty}

-- rand.Read
unfoldable pub draw : Outside → ℕ → Io Bytes
draw o size w = (o.random w.effects size, record w { effects = suc w.effects })

abbrev provision_flags : FlagSet
provision_flags = (codes "bytes", integer) ∷ (codes "show", switch) ∷ []

unfoldable pub generate : Outside → ℤ → Cmd (Unit {0})
generate o (negsuc n) = refuse too_few_bytes
generate o (pos n) = do b ← on_store (draw o n); print (url_encode b ++ codes "\n")

abbrev at_least_16 : ℤ → Bool
at_least_16 (pos n) = leb 16 n
at_least_16 (negsuc n) = false

-- runProvision, behind its flags
unfoldable pub provision_with : Outside → Terminal → ParseInt → Given × List Bytes → Cmd (Unit {0})
unfolding generate
provision_with o t parse_int (given, a ∷ rest) = refuse (usage (codes "provision"))
provision_with o t parse_int (given, []) = do
  let count = integer_or parse_int given (codes "bytes") (pos 32)
  demand (at_least_16 count) too_few_bytes
  demand (not (t.stdout_is_terminal && not (is_on given (codes "show")))) terminal_refused
  generate o count

unfoldable pub run_provision : Outside → Terminal → ParseInt → List Bytes → Cmd (Unit {0})
unfolding provision_with
run_provision o t parse_int args = do
  parsed ← returns (parse_flags parse_int provision_flags [] args)
  provision_with o t parse_int parsed

abbrev and_set_flags : FlagSet
and_set_flags = (codes "show-stderr", switch) ∷ []

-- runSecretProducer, on what the command did
unfoldable pub run_secret_producer : Terminal → List Bytes → Bool → Cmd Bytes
run_secret_producer t argv show_stderr = do
  let did = t.produce argv
  complain (if show_stderr then did.errors else [])
  demand did.succeeded (producer_failed (redact did.errors))
  unless_empty producer_silent (trim_line_end did.output)

-- The arguments of and-set and and-get behind the flags: a namespace, a key and a command.
pub record Piping : Type 0 where
  pub app : Bytes
  pub env : Bytes
  pub key : Bytes
  pub argv : List Bytes

abbrev with_argv : Bytes → Bytes → Bytes → Result (List Bytes) → Result Piping
with_argv app env key (err e) = err e
with_argv app env key (ok argv) = ok (record { app = app; env = env; key = key; argv = argv })

unfoldable pub read_piping : Bytes → List Bytes → Result Piping
read_piping name (app ∷ env ∷ key ∷ dash ∷ c ∷ cs) =
    with_argv app env key (command_after_dash (dash ∷ c ∷ cs))
read_piping name [] = err (usage name)
read_piping name (a ∷ []) = err (usage name)
read_piping name (a ∷ b ∷ []) = err (usage name)
read_piping name (a ∷ b ∷ c ∷ []) = err (usage name)
read_piping name (a ∷ b ∷ c ∷ d ∷ []) = err (usage name)

unfoldable pub run_and_set : Outside → Terminal → ParseInt → List Bytes → Cmd (Unit {0})
unfolding read_piping run_secret_producer
run_and_set o t parse_int args = do
  parsed ← returns (parse_flags parse_int and_set_flags [] args)
  at ← returns (read_piping (codes "and-set") parsed.1)
  value ← run_secret_producer t at.argv (is_on parsed.0 (codes "show-stderr"))
  on_store (set_secret o at.app at.env at.key value and_set)
  print (
      codes "saved "
      ++ (at.key
          ++ (codes " in "
              ++ (at.app ++ (codes "/" ++ (at.env ++ codes " from command output\n"))))))

abbrev and_get_flags : FlagSet
and_get_flags = (codes "env", text) ∷ (codes "allow-shell-env", switch) ∷ []

abbrev variable_of : Bytes → Bytes → Option Bytes
variable_of env_var value = if equal env_var [] then none else some (env_var ++ (b'=' ∷ value))

abbrev check_env_name : Bytes → Result (Unit {0})
check_env_name env_var = if equal env_var [] then ok tt else validate_key env_var

abbrev ended : Option Bytes → Cmd (Unit {0})
ended none = done tt
ended (some e) = refuse (child_failed e)

unfoldable pub run_secret_consumer : Terminal → List Bytes → Bytes → Bytes → Cmd (Unit {0})
run_secret_consumer t argv value env_var = do
  returns (check_env_name env_var)
  let did = t.consume (record { argv = argv; stdin = value; variable = variable_of env_var value })
  print did.output
  complain did.errors
  ended did.failure

abbrev guard_unless : Fold → Bool → Bytes → List Bytes → Result (Unit {0})
guard_unless fold allow env_var argv =
    if not (equal env_var []) && not allow then guard_shell_env fold argv env_var else ok tt

abbrev consume_value : Terminal → Piping → Bytes → Option Bytes → Cmd (Unit {0})
consume_value t at env_var none = refuse (key_missing at.key)
consume_value t at env_var (some value) = run_secret_consumer t at.argv value env_var

unfoldable pub run_and_get : Fold → Outside → Terminal → ParseInt → List Bytes → Cmd (Unit {0})
unfolding read_piping run_secret_consumer
run_and_get fold o t parse_int args = do
  parsed ← returns (parse_flags parse_int and_get_flags [] args)
  at ← returns (read_piping (codes "and-get") parsed.1)
  let env_var = text_or parsed.0 (codes "env") []
  returns (guard_unless fold (is_on parsed.0 (codes "allow-shell-env")) env_var at.argv)
  found ← on_store (read_env o at.app at.env)
  consume_value t at env_var (get found.0 at.key)

abbrev render_flags : FlagSet
render_flags = (codes "format", text) ∷ []

unfoldable pub render_with : Outside → Given × List Bytes → Cmd (Unit {0})
render_with o (given, []) = refuse (usage (codes "render"))
render_with o (given, a ∷ []) = refuse (usage (codes "render"))
render_with o (given, app ∷ env ∷ []) = do
  demand (equal (text_or given (codes "format") (codes "dotenv")) (codes "dotenv")) bad_format
  plain ← on_store (render o app env)
  print plain
render_with o (given, a ∷ b ∷ c ∷ rest) = refuse (usage (codes "render"))

unfoldable pub run_render : Outside → ParseInt → List Bytes → Cmd (Unit {0})
unfolding render_with
run_render o parse_int args = do
  parsed ← returns (parse_flags parse_int render_flags [] args)
  render_with o parsed
