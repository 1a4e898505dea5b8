-- ===== src/Cli/Exec/Safe.antt =====
-- Which children can get a namespace in their environment.
use thimble.Base.{◌≡◌, refl, sym, ap, ◌⊎◌, inl, inr, Bool, true, false, List, ◌∷◌, Bytes}
use thimble.Errors.{Result-cases, ok, ok_inverse}
use thimble.Outside.{Outside}
use thimble.World.{World, lift, ◌>>=◌, ◌>>◌}
use thimble.Dotenv.{Values}
use thimble.Store.Edit.{read_env}
use thimble.Cli.{Fold, guard_shell_env_all}
use thimble.Cli.Arguments.{
  Request, Child, ChildEnd, on_stdin, build_env_block, prepare_child, run_with, parse_exec,
  guard_exec,
}
use thimble.Cli.Exec.{audit_exec, consume, run_exec}

-- The values are on the child's standard input, or the guard accepts the child.
unfoldable pub IsSafe : Fold → Child → Type 0
IsSafe fold c = (c.delivery ≡ on_stdin) ⊎ (guard_shell_env_all fold c.argv ≡ ok tt)

prepare_child-IsSafe :
    (fold : Fold) (environ argv : List Bytes) (values : Values) (use_env : Bool) (c : Child)
    → (use_env ≡ true → guard_shell_env_all fold argv ≡ ok tt)
    → prepare_child environ argv values use_env ≡ ok c
    → IsSafe fold c
unfolding prepare_child IsSafe
prepare_child-IsSafe fold environ argv values false c g h = inl (rw (sym (ok_inverse h)) refl)
prepare_child-IsSafe fold environ argv values true c g h =
    elim (Result-cases (build_env_block environ values)) [
      | inl (e, refused) ↦ cc (rw (prepare_child, refused) at h)
      | inr (block, built) ↦ inr (rw (sym (ok_inverse (rw (prepare_child, built) at h))) (g refl))
    ]

guard_exec-passes :
    (fold : Fold) (r : Request)
    → r.flags.allow_shell_env ≡ false
    → guard_exec fold r ≡ ok tt
    → r.flags.use_env ≡ true
    → guard_shell_env_all fold (r.command ∷ r.arguments) ≡ ok tt
unfolding guard_exec
guard_exec-passes fold r guarded g u = rw (guard_exec, guarded, u) at g

-- Two worlds of children that do the same when the guard accepts them.
unfoldable pub Agree : Fold → (Child → ChildEnd) → (Child → ChildEnd) → Type 0
Agree fold a b = (c : Child) → IsSafe fold c → a c ≡ b c

run_with-Agree :
    (fold : Fold) (a b : Child → ChildEnd) (environ argv : List Bytes) (values : Values)
    (use_env : Bool)
    → Agree fold a b
    → (use_env ≡ true → guard_shell_env_all fold argv ≡ ok tt)
    → run_with a (prepare_child environ argv values use_env)
      ≡ run_with b (prepare_child environ argv values use_env)
unfolding Agree
run_with-Agree fold a b environ argv values use_env h g =
    elim (Result-cases (prepare_child environ argv values use_env)) [
      | inl (e, refused) ↦ rw refused refl
      | inr (c, prepared) ↦
          rw (prepared, h c (prepare_child-IsSafe fold environ argv values use_env c g prepared))
            refl
    ]

consume-Agree :
    (fold : Fold) (o : Outside) (environ : List Bytes) (a b : Child → ChildEnd) (r : Request)
    (values : Values)
    → Agree fold a b
    → (r.flags.use_env ≡ true → guard_shell_env_all fold (r.command ∷ r.arguments) ≡ ok tt)
    → consume o environ a r values ≡ consume o environ b r values
unfolding consume
consume-Agree fold o environ a b r values h g =
    ap (λ x. audit_exec o r.app r.env r.command >> lift x)
      (run_with-Agree fold a b environ (r.command ∷ r.arguments) values r.flags.use_env h g)

-- Without the flag --allow-shell-env, no child that the guard refuses gets the values in its
-- environment: what such children would do makes no difference to exec.
pub run_exec-Agree :
    (fold : Fold) (o : Outside) (environ args : List Bytes) (a b : Child → ChildEnd) (r : Request)
    (w : World)
    → parse_exec args ≡ ok r
    → r.flags.allow_shell_env ≡ false
    → Agree fold a b
    → run_exec fold o environ a args w ≡ run_exec fold o environ b args w
unfolding run_exec ◌>>=◌ lift
run_exec-Agree fold o environ args a b r w parsed guarded h =
    elim (Result-cases (guard_exec fold r)) [
      | inl (e, refused) ↦ rw (run_exec, parsed, refused) refl
      | inr (done, passed) ↦
          rw (run_exec, parsed, passed)
            (ap (λ k. (read_env o r.app r.env >>= k) w)
              (λ i found.
                consume-Agree fold o environ a b r found.0 h
                  (guard_exec-passes fold r guarded passed) i))
    ]
