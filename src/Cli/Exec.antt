-- ===== src/Cli/Exec.antt =====
-- internal/cli/run_exec.go: a program that runs with a namespace's secrets.
pub mod Safe
use thimble.Base.{ℕ, Bool, false, List, [], ◌∷◌, Bytes}
use thimble.Errors.{Result, ok, err}
use thimble.Outside.{Outside}
use thimble.World.{World, Io, pure, lift, tick, ◌>>=◌, ◌>>◌}
use thimble.Dotenv.{Values}
use thimble.Audit.{Event, Op, exec}
use thimble.Audit.Ledger.{operator_thumbprint, append}
use thimble.Store.Edit.{read_env}
use thimble.Cli.{Fold, base_name}
use thimble.Cli.Arguments.{
  Request, Child, ChildEnd, prepare_child, run_with, parse_exec, guard_exec, propagate,
}

-- auditExec, whose error is ignored; the ledger is always written
unfoldable pub audit_exec : Outside → Bytes → Bytes → Bytes → Io (Unit {0})
audit_exec o app env command = tick >>= λ n. append (record {
  timestamp = o.clock n;
  operator = operator_thumbprint o;
  op = exec;
  app = app;
  env = env;
  subject = base_name command;
  signers = [];
  bootstrap = false;
})

-- runNamespaceConsumer and auditExec, on the values that were read
unfoldable pub consume :
    Outside → List Bytes → (Child → ChildEnd) → Request → Values → Io (Unit {0})
unfolding audit_exec prepare_child propagate
consume o environ children r values = do
  audit_exec o r.app r.env r.command
  lift (run_with children (prepare_child environ (r.command ∷ r.arguments) values r.flags.use_env))

-- runExec, for an environment of this process and what each child would do
unfoldable pub run_exec :
    Fold → Outside → List Bytes → (Child → ChildEnd) → List Bytes → Io (Unit {0})
unfolding parse_exec guard_exec consume
run_exec fold o environ children args = do
  r ← lift (parse_exec args)
  lift (guard_exec fold r)
  found ← read_env o r.app r.env
  consume o environ children r found.0
