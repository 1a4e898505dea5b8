-- ===== src/Cli/Guard.antt =====
-- What a `docker run` is like that receives one secret in its environment.
use thimble.Base.{
  ℕ, equal_iff, ◌≡◌, refl, Bool, true, false, not, ◌&&◌, some, List, [], ◌∷◌, ◌++◌, ◌==◌,
  if◌then◌else◌, arith, Bytes, codes, All, Bool-cases, Option-cases, inl, inr, drop, equal,
  has_prefix,
}
use thimble.Cli.{env_flag_references, is_env_flag, scope_of, scoped_by, docker_run_is_scoped}

-- A name that no flag begins with.
abbrev pub is_name : Bytes → Bool
is_name [] = false
is_name (c ∷ cs) = not (c == b'-')

-- No environment beside the one variable: no file but stdin, and no other variable by `--env=`.
abbrev pub is_narrow : Bytes → Bytes → Bool
is_narrow env_var a =
    (if has_prefix a (codes "--env=") then env_flag_references (drop 6 a) env_var else true)
    && (if has_prefix a (codes "--env-file") then equal a (codes "--env-file=-") else true)

abbrev pub Narrow : Bytes → List Bytes → Type 0
Narrow env_var args = All (λ a. is_narrow env_var a ≡ true) args

-- Two prefixes that differ at one byte.
prefix_apart :
    (p s q r : Bytes) (x y : ℕ)
    → (x == y) ≡ false
    → has_prefix s (p ++ (x ∷ q)) ≡ true
    → has_prefix s (p ++ (y ∷ r)) ≡ false
unfolding has_prefix
prefix_apart [] [] q r x y d h = refl
prefix_apart [] (c ∷ s) q r x y d h = ground arith
prefix_apart (c ∷ p) [] q r x y d h = refl
prefix_apart (c ∷ p) (e ∷ s) q r x y d h = ground (arith, prefix_apart p s q r x y d)

no_file_behind_env :
    (a : Bytes) → has_prefix a (codes "--env=") ≡ true → has_prefix a (codes "--env-file") ≡ false
no_file_behind_env a h = prefix_apart (codes "--env") a [] (codes "file") b'=' b'-' refl h

either_true : (b : Bool) → (if b then true else true) ≡ true
either_true b = ground arith

sets_one :
    (env_var a : Bytes) (scoped s : Bool)
    → has_prefix a (codes "--env=") ≡ true
    → scope_of env_var a scoped ≡ some s
    → (env_flag_references (drop 6 a) env_var && true) ≡ true
unfolding scope_of
sets_one env_var a scoped s p h = elim (Bool-cases (env_flag_references (drop 6 a) env_var)) [
  | inl refers ↦ rw refers refl
  | inr other ↦ cc (rw (scope_of, p, other) at h)
]

reads_stdin :
    (env_var a : Bytes) (scoped s : Bool)
    → has_prefix a (codes "--env=") ≡ false
    → scope_of env_var a scoped ≡ some s
    → (true && (if has_prefix a (codes "--env-file") then equal a (codes "--env-file=-") else true))
      ≡ true
unfolding scope_of
reads_stdin env_var a scoped s p h = elim (Bool-cases (equal a (codes "--env-file=-"))) [
  | inl stdin ↦ rw stdin (either_true _)
  | inr other ↦ elim (Bool-cases (has_prefix a (codes "--env-file"))) [
    | inl reads ↦ cc (rw (scope_of, p, other, reads) at h)
    | inr no_file ↦ rw no_file refl
  ]
]

scope_of-Narrow :
    (env_var a : Bytes) (scoped s : Bool)
    → scope_of env_var a scoped ≡ some s
    → is_narrow env_var a ≡ true
unfolding scope_of
scope_of-Narrow env_var a scoped s h = elim (Bool-cases (has_prefix a (codes "--env="))) [
  | inl sets ↦ rw (sets, no_file_behind_env a sets) (sets_one env_var a scoped s sets h)
  | inr other ↦ rw other (reads_stdin env_var a scoped s other h)
]

starts_as_name :
    (env_var a rest : Bytes)
    → is_name env_var ≡ true
    → has_prefix a (env_var ++ rest) ≡ true
    → is_name a ≡ true
unfolding has_prefix
starts_as_name [] a rest n h = cc
starts_as_name (c ∷ cs) [] rest n h = cc
starts_as_name (c ∷ cs) (d ∷ ds) rest n h = ground arith

name_no_flag : (a p : Bytes) → is_name a ≡ true → has_prefix a (b'-' ∷ p) ≡ false
unfolding has_prefix
name_no_flag [] p n = refl
name_no_flag (c ∷ cs) p n = ground arith

reference_name :
    (env_var a : Bytes)
    → is_name env_var ≡ true
    → env_flag_references a env_var ≡ true
    → is_name a ≡ true
unfolding env_flag_references
reference_name env_var a n h = elim (Bool-cases (equal a env_var)) [
  | inl same ↦ rw ((equal_iff a env_var).0 same) n
  | inr other ↦ starts_as_name env_var a (codes "=") n (ground arith)
]

reference-Narrow :
    (env_var a : Bytes)
    → is_name env_var ≡ true
    → env_flag_references a env_var ≡ true
    → is_narrow env_var a ≡ true
reference-Narrow env_var a n h =
    let named = reference_name env_var a n h in
    rw (name_no_flag a (codes "-env=") named, name_no_flag a (codes "-env-file") named) refl

flag-Narrow : (env_var a : Bytes) → is_env_flag a ≡ true → is_narrow env_var a ≡ true
unfolding has_prefix
flag-Narrow env_var a h = elim (Bool-cases (equal a (codes "-e"))) [
  | inl short ↦ rw ((equal_iff a (codes "-e")).0 short) refl
  | inr other ↦ rw ((equal_iff a (codes "--env")).0 (ground arith)) refl
]

scoped_by-Narrow :
    (env_var : Bytes) (scoped : Bool) (args : List Bytes)
    → is_name env_var ≡ true
    → scoped_by env_var scoped args ≡ true
    → Narrow env_var args
unfolding scoped_by
scoped_by-Narrow env_var scoped [] n h = tt
scoped_by-Narrow env_var scoped (a ∷ []) n h = elim (Bool-cases (is_env_flag a)) [
  | inl flag ↦ cc (rw (scoped_by, flag) at h)
  | inr other ↦ elim (Option-cases (scope_of env_var a scoped)) [
    | inl refused ↦ cc (rw (scoped_by, other, refused) at h)
    | inr (s, found) ↦ (scope_of-Narrow env_var a scoped s found, tt)
  ]
]
scoped_by-Narrow env_var scoped (a ∷ b ∷ rest) n h = elim (Bool-cases (is_env_flag a)) [
  | inl flag ↦ elim (Bool-cases (env_flag_references b env_var)) [
    | inl refers ↦ (
      flag-Narrow env_var a flag,
      (
        reference-Narrow env_var b n refers,
        scoped_by-Narrow env_var true rest n (rw (scoped_by, flag, refers) at h),
      ),
    )
    | inr foreign ↦ cc (rw (scoped_by, flag, foreign) at h)
  ]
  | inr other ↦ elim (Option-cases (scope_of env_var a scoped)) [
    | inl refused ↦ cc (rw (scoped_by, other, refused) at h)
    | inr (s, found) ↦ (
      scope_of-Narrow env_var a scoped s found,
      elim (Bool-cases s) [
        | inl sets ↦
            scoped_by-Narrow env_var true (b ∷ rest) n (rw (scoped_by, other, found, sets) at h)
        | inr keeps ↦
            scoped_by-Narrow env_var scoped (b ∷ rest) n (rw (scoped_by, other, found, keeps) at h)
      ],
    )
  ]
]

-- A `docker run` that the guard accepts for a variable reads no environment file but its standard
-- input, and sets no other variable by `--env=`, when the variable's name begins with no dash.
pub docker_run_is_scoped-Narrow :
    (args : List Bytes) (env_var : Bytes)
    → is_name env_var ≡ true
    → docker_run_is_scoped (codes "run" ∷ args) env_var ≡ true
    → Narrow env_var args
unfolding docker_run_is_scoped equal
docker_run_is_scoped-Narrow args env_var n h = scoped_by-Narrow env_var false args n h
