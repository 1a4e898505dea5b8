-- ===== src/Age.antt =====
-- internal/age/age.go: which age program is run, on what, and what its failure tells.
pub mod Safe
use thimble.Base.{
  ℕ, ◌%◌, Bool, true, false, not, ◌&&◌, ◌||◌, Option, none, some, List, [], ◌∷◌, ◌++◌, ◌==◌, leb,
  if◌then◌else◌, Bytes, codes, equal, length, take,
}
use thimble.Base.Space.{trim_space}
use thimble.Outside.{hex}
use thimble.Errors.{
  Error, Result, ok, err, age_not_found, age_unreadable, no_age_recipient, age_timed_out,
  age_cancelled, age_pin_mismatch, identity_unreadable, identity_exposed, age_run_failed,
}

-- A start of a program: its path, its arguments and its standard input.
pub record Invocation : Type 0 where
  pub path : Bytes
  pub args : List Bytes
  pub stdin : Bytes

-- How a program ends: with its output, at the deadline, by a signal to Thimble, or with the text of
-- its standard error.
pub data RunEnd : Type 0 where
  printed : Bytes → RunEnd
  timed_out cancelled : RunEnd
  exited_with : Bytes → RunEnd

-- The operating system, os/exec and crypto/sha256.
pub record Platform : Type 0 where
  -- exec.LookPath
  pub look_path : Bytes → Option Bytes
  -- the bytes of a file that can be read
  pub contents : Bytes → Option Bytes
  pub digest : Bytes → Bytes
  -- the permission bits that os.Stat reports
  pub mode : Bytes → Option ℕ
  -- os.Getenv of THIMBLE_AGE_TIMEOUT, and time.ParseDuration in nanoseconds where it is positive
  pub timeout_var : Bytes
  pub positive_duration : Bytes → Option ℕ
  -- strings.ToLower
  pub fold : Bytes → Bytes
  -- the n-th program that is run, with its timeout in nanoseconds
  pub run : ℕ → ℕ → Invocation → RunEnd

-- What the tool has said on standard error.
pub data Said : Type 0 where
  using_binary : Bytes → Said
  exposed_identity : Bytes → ℕ → Said

-- Tool, without the mutex and with the warnings on standard error
pub record Tool : Type 0 where
  pub binary : Bytes
  pub identity : Bytes
  pub allow_unsafe : Bool
  pub verbose : Bool

-- What changes: whether the binary was announced, what was said, and what was run.
pub record Process : Type 0 where
  pub announced : Bool
  pub said : List Said
  pub runs : List Invocation

abbrev say : Said → Process → Process
say x p = record p { said = p.said ++ (x ∷ []) }

-- CheckIdentityMode, on the mode
unfoldable pub judge_mode : Bytes → Bool → ℕ → Process → Result (Unit {0}) × Process
judge_mode path allow mode p =
    if mode % 64 == 0
    then (ok tt, p)
    else if allow
    then (ok tt, say (exposed_identity path mode) p)
    else (err (identity_exposed path), p)

unfoldable pub check_identity_mode : Platform → Bytes → Bool → Process → Result (Unit {0}) × Process
unfolding judge_mode
check_identity_mode os [] allow p = (ok tt, p)
check_identity_mode os (c ∷ cs) allow p = elim (os.mode (c ∷ cs)) [
  | none ↦ (err (identity_unreadable (c ∷ cs)), p)
  | some mode ↦ judge_mode (c ∷ cs) allow mode p
]

abbrev binary_or_age : Bytes → Bytes
binary_or_age binary = if equal binary [] then codes "age" else binary

-- fileSHA256
abbrev pub file_sha256 : Platform → Bytes → Option Bytes
file_sha256 os path = elim (os.contents path) [ none ↦ none | some b ↦ some (hex (os.digest b)) ]

unfoldable pub check_pin : Platform → Bytes → Bytes → Result Bytes
check_pin os pin resolved =
    let want = os.fold (trim_space pin) in
    if equal pin [] then ok resolved else elim (file_sha256 os resolved) [
      | none ↦ err age_unreadable
      | some got ↦ if equal got want then ok resolved else err (age_pin_mismatch got want)
    ]

unfoldable pub resolve : Platform → Bytes → Bytes → Result Bytes
unfolding check_pin
resolve os binary pin = elim (os.look_path (binary_or_age binary)) [
  | none ↦ err age_not_found
  | some resolved ↦ check_pin os pin resolved
]

unfoldable pub announce_binary : Tool → Process → Process
announce_binary t p =
    if t.verbose && not p.announced
    then say (using_binary t.binary) (record p { announced = true })
    else p

abbrev pub default_timeout : ℕ
default_timeout = 10_000_000_000

-- contextWithTimeout
unfoldable pub timeout : Platform → ℕ
timeout os =
    if equal os.timeout_var []
    then default_timeout
    else elim (os.positive_duration (os.timeout_var ++ codes "s")) [
      | none ↦ default_timeout
      | some d ↦ d
    ]

abbrev pub max_detail : ℕ
max_detail = 240

abbrev shorten : Bytes → Bytes
shorten s =
    if equal s []
    then codes "no details"
    else if leb (length s) max_detail
    then s
    else take max_detail s ++ codes "..."

unfoldable pub redact : Bytes → Bytes
redact s = shorten (trim_space s)

-- wrapAgeError
unfoldable pub outcome_of : RunEnd → Result Bytes
unfolding redact
outcome_of (printed out) = ok out
outcome_of timed_out = err age_timed_out
outcome_of cancelled = err age_cancelled
outcome_of (exited_with stderr) = err (age_run_failed (redact stderr))

-- cmd.Run, recorded
unfoldable pub run_age : Platform → Invocation → Process → Result Bytes × Process
unfolding outcome_of timeout
run_age os i p =
    (outcome_of (os.run (length p.runs) (timeout os) i), record p { runs = p.runs ++ (i ∷ []) })

unfoldable pub recipient_args : List Bytes → List Bytes
recipient_args [] = []
recipient_args (r ∷ rs) = codes "-r" ∷ r ∷ recipient_args rs

unfoldable pub encrypt : Platform → Tool → List Bytes → Bytes → Process → Result Bytes × Process
unfolding announce_binary recipient_args run_age
encrypt os t [] plain p = (err no_age_recipient, p)
encrypt os t (r ∷ rs) plain p =
    run_age os
      (record { path = t.binary; args = codes "-a" ∷ recipient_args (r ∷ rs); stdin = plain })
      (announce_binary t p)

abbrev identity_args : Bytes → List Bytes
identity_args identity = if equal identity [] then [] else codes "-i" ∷ identity ∷ []

abbrev pub decryption : Tool → Bytes → Invocation
decryption t path = record {
  path = t.binary;
  args = codes "-d" ∷ (identity_args t.identity ++ (path ∷ []));
  stdin = [];
}

abbrev then_run :
    (Process → Result Bytes × Process) → Result (Unit {0}) × Process → Result Bytes × Process
then_run run (err e, p) = (err e, p)
then_run run (ok u, p) = run p

unfoldable pub decrypt : Platform → Tool → Bytes → Process → Result Bytes × Process
unfolding announce_binary check_identity_mode run_age
decrypt os t path p =
    then_run (run_age os (decryption t path))
      (check_identity_mode os t.identity t.allow_unsafe (announce_binary t p))
