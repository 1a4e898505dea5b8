-- ===== src/Tests/Cli.antt =====
-- Commands that receive secrets, and a command that changes the store.
use thimble.Base.{
  ◌≡◌, refl, true, false, List, [], ◌∷◌, Bytes, codes, equal, has_prefix, cut_at, inl, inr,
}
use thimble.Errors.{Result, ok, err}
use thimble.Cli.{guard_shell_env_all, docker_run_is_scoped, command_after_dash}
use thimble.Cli.Guard.{Narrow, docker_run_is_scoped-Narrow}
use thimble.Cli.Arguments.{
  Request, Child, ChildEnd, Delivery, in_environment, on_stdin, exited, parse_exec,
}
use thimble.Cli.Exec.{run_exec}
use thimble.Cli.Exec.Safe.{IsSafe, Agree, run_exec-Agree}
use thimble.Cli.Terminal.{Session, done}
use thimble.Cli.Dispatch.{Command}
use thimble.Tests.{plain_outside, world}
use thimble.Tests.Peer.{disk}

abbrev container : List Bytes
container = codes "--rm" ∷ codes "-e" ∷ codes "DB" ∷ codes "alpine" ∷ []

container_scoped : docker_run_is_scoped (codes "run" ∷ container) (codes "DB") ≡ true
unfolding docker_run_is_scoped equal has_prefix
container_scoped = refl

docker_run_is_scoped-Narrow_example : Narrow (codes "DB") container
docker_run_is_scoped-Narrow_example =
    docker_run_is_scoped-Narrow container (codes "DB") refl container_scoped

abbrev arguments : List Bytes
arguments = codes "--env" ∷ codes "api" ∷ codes "prod" ∷ codes "--" ∷ codes "server" ∷ []

abbrev asked : Request
asked = record {
  flags = record { use_env = true; allow_shell_env = false };
  app = codes "api";
  env = codes "prod";
  command = codes "server";
  arguments = [];
}

parsed : parse_exec arguments ≡ ok asked
unfolding parse_exec equal cut_at command_after_dash
parsed = refl

abbrev succeed : Child → ChildEnd
succeed c = exited 0

-- Children that fail exactly when the guard refuses them and they have the values.
abbrev fail_refused : Delivery → Result (Unit {0}) → ChildEnd
fail_refused on_stdin verdict = exited 0
fail_refused in_environment (ok done) = exited 0
fail_refused in_environment (err e) = exited 9

abbrev fail_unsafe : Child → ChildEnd
fail_unsafe c = fail_refused c.delivery (guard_shell_env_all (λ s. s) c.argv)

never_refused :
    (d : Delivery) (verdict : Result (Unit {0}))
    → verdict ≡ ok tt
    → exited 0 ≡ fail_refused d verdict
never_refused on_stdin verdict h = refl
never_refused in_environment (ok done) h = refl
never_refused in_environment (err e) h = cc

only_unsafe_differ : Agree (λ s. s) succeed fail_unsafe
unfolding Agree IsSafe
only_unsafe_differ c (inl piped) = rw piped refl
only_unsafe_differ c (inr accepted) =
    never_refused c.delivery (guard_shell_env_all (λ s. s) c.argv) accepted

run_exec-Agree_example :
    run_exec (λ s. s) plain_outside [] succeed arguments world
    ≡ run_exec (λ s. s) plain_outside [] fail_unsafe arguments world
run_exec-Agree_example =
    run_exec-Agree (λ s. s) plain_outside [] arguments succeed fail_unsafe asked world parsed refl
      only_unsafe_differ

abbrev idle : Command
idle cmd args = done tt

abbrev session : Session
session = record { world = world; disk = disk; stdout = []; stderr = [] }
