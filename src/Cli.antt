-- ===== src/Cli.antt =====
-- internal/cli: the guards on the commands that receive secrets, and what follows a mutation.
pub mod Guard
pub mod Arguments
pub mod Terminal
pub mod Flags
pub mod Basic
pub mod Secrets
pub mod Recipient
pub mod Peers
pub mod Heartbeat
pub mod Inspect
pub mod Exec
pub mod Dispatch
pub mod Selection
pub mod Main
use thimble.Base.{
  ℕ, Bool, true, false, not, ◌&&◌, ◌||◌, Option, none, some, List, [], ◌∷◌, ◌++◌, ◌==◌,
  if◌then◌else◌, leb, Bytes, codes, equal, has_prefix, mem, map, drop, reverse, split_at,
}
use thimble.Base.Space.{drop_while}
use thimble.Errors.{Result, ok, err, ◌>>=◌, shell_child, no_separator, no_command, bad_flag}

-- The parameter `fold` of these guards is strings.ToLower, whose tables are Unicode's.
abbrev pub Fold : Type 0
Fold = Bytes → Bytes

abbrev last_segment : List Bytes → Bytes
last_segment [] = codes "/"
last_segment (s ∷ ss) = if equal s [] then codes "/" else s

-- filepath.Base: the slashes at the end do not count
unfoldable pub base_name : Bytes → Bytes
base_name [] = codes "."
base_name (c ∷ cs) =
    last_segment
      (reverse (split_at b'/' (reverse (drop_while (λ c. c == b'/') (reverse (c ∷ cs))))))

abbrev pub shell_children : List Bytes
shell_children =
    codes "sh"
    ∷ codes "bash"
    ∷ codes "zsh"
    ∷ codes "fish"
    ∷ codes "pwsh"
    ∷ codes "cmd.exe"
    ∷ codes "powershell"
    ∷ []

unfoldable pub is_container : Bytes → Bool
is_container base = equal base (codes "docker") || equal base (codes "podman")

unfoldable pub env_flag_references : Bytes → Bytes → Bool
env_flag_references value env_var = equal value env_var || has_prefix value (env_var ++ codes "=")

abbrev pub is_env_flag : Bytes → Bool
is_env_flag a = equal a (codes "-e") || equal a (codes "--env")

-- the switch of dockerRunIsScoped's loop, on an argument that takes no value
unfoldable pub scope_of : Bytes → Bytes → Bool → Option Bool
unfolding env_flag_references
scope_of env_var a scoped =
    if has_prefix a (codes "--env=")
    then (if env_flag_references (drop 6 a) env_var then some true else none)
    else if equal a (codes "--env-file=-")
    then some true
    else if has_prefix a (codes "--env-file")
    then none
    else some scoped

-- the loop, behind the flag `scoped`
unfoldable pub scoped_by : Bytes → Bool → List Bytes → Bool
unfolding scope_of
scoped_by env_var scoped [] = scoped
scoped_by env_var scoped (a ∷ []) =
    if is_env_flag a then false else elim (scope_of env_var a scoped) [ none ↦ false | some s ↦ s ]
scoped_by env_var scoped (a ∷ b ∷ rest) =
    let behind = scoped_by env_var true rest in
    let kept = scoped_by env_var scoped (b ∷ rest) in
    let set = scoped_by env_var true (b ∷ rest) in
    if is_env_flag a
    then (if env_flag_references b env_var then behind else false)
    else elim (scope_of env_var a scoped) [ none ↦ false | some s ↦ if s then set else kept ]

unfoldable pub docker_run_is_scoped : List Bytes → Bytes → Bool
unfolding scoped_by
docker_run_is_scoped [] env_var = true
docker_run_is_scoped (verb ∷ args) env_var =
    if equal verb (codes "run") then scoped_by env_var false args else true

unfoldable pub docker_run_reads_env_from_stdin : List Bytes → Bool
docker_run_reads_env_from_stdin [] = true
docker_run_reads_env_from_stdin (verb ∷ args) =
    if equal verb (codes "run") then mem (codes "--env-file=-") args else true

-- the checks of both guards, on the test that containers have to pass
unfoldable pub guard_child : Fold → (List Bytes → Bool) → List Bytes → Result (Unit {0})
unfolding base_name is_container
guard_child fold fine [] = ok tt
guard_child fold fine (command ∷ args) =
    let base = fold (base_name command) in
    if mem base shell_children
    then err shell_child
    else if is_container base && not (fine args)
    then err shell_child
    else ok tt

unfoldable pub guard_shell_env : Fold → List Bytes → Bytes → Result (Unit {0})
unfolding guard_child docker_run_is_scoped
guard_shell_env fold cmd_args env_var =
    guard_child fold (λ args. docker_run_is_scoped args env_var) cmd_args

unfoldable pub guard_shell_env_all : Fold → List Bytes → Result (Unit {0})
unfolding guard_child docker_run_reads_env_from_stdin
guard_shell_env_all fold cmd_args = guard_child fold docker_run_reads_env_from_stdin cmd_args

unfoldable pub command_after_dash : List Bytes → Result (List Bytes)
command_after_dash [] = err no_separator
command_after_dash (dash ∷ []) =
    if equal dash (codes "--") then err no_command else err no_separator
command_after_dash (dash ∷ command ∷ args) =
    if equal dash (codes "--") then ok (command ∷ args) else err no_separator
