-- ===== src/Cli/Terminal.antt =====
-- internal/cli: what a command reads and writes besides the store, and the steps of a command.
pub mod Steps
use thimble.Base.{Bool, true, false, Option, List, [], ◌∷◌, ◌++◌, Bytes}
use thimble.Errors.{Error, Result, ok, err}
use thimble.World.{World, Io}
use thimble.Peer.Health.{Disk}

-- What a command that produces a secret did.
pub record Produced : Type 0 where
  pub output : Bytes
  pub errors : Bytes
  pub succeeded : Bool

-- A command that consumes a secret: its words, its input, and the variable added to this process's
-- environment.
pub record Consumer : Type 0 where
  pub argv : List Bytes
  pub stdin : Bytes
  pub variable : Option Bytes

-- What it printed, and the error of cmd.Run.
pub record Consumed : Type 0 where
  pub output : Bytes
  pub errors : Bytes
  pub failure : Option Bytes

-- What stands around the process: whether its ends are terminals, and what can be read there.
pub record Terminal : Type 0 where
  pub stdin_is_terminal : Bool
  pub stdout_is_terminal : Bool
  -- term.ReadPassword and io.ReadAll(os.Stdin)
  pub password : Result Bytes
  pub piped : Result Bytes
  pub produce : List Bytes → Produced
  pub consume : Consumer → Consumed

-- The store, the files of the peers, and what has been printed.
pub record Session : Type 0 where
  pub world : World
  pub disk : Disk
  pub stdout : Bytes
  pub stderr : Bytes

abbrev pub Cmd {ℓ} : Type ℓ → Type ℓ
Cmd A = Session → Result A × Session

module _ {ℓ} {A : Type ℓ} where
  unfoldable pub done : A → Cmd A
  done a s = (ok a, s)

  unfoldable pub refuse : Error → Cmd A
  refuse e s = (err e, s)

  unfoldable pub returns : Result A → Cmd A
  returns r s = (r, s)

  -- an operation of the store
  unfoldable pub on_store : Io A → Cmd A
  on_store m s = let (r, w) = m s.world in (r, record s { world = w })

  -- an operation of internal/peer
  unfoldable pub on_disk : (Disk → Result A × Disk) → Cmd A
  on_disk m s = let (r, d) = m s.disk in (r, record s { disk = d })

module _ {ℓ κ} {A : Type ℓ} {B : Type κ} where
  abbrev pub proceed : Result A → (A → Cmd B) → Cmd B
  proceed (ok a) f s = f a s
  proceed (err e) f s = (err e, s)

  infixl 5 ◌>>=◌
  unfoldable pub ◌>>=◌ : Cmd A → (A → Cmd B) → Cmd B
  ◌>>=◌ m f s = let (r, s') = m s in proceed r f s'

module _ {ℓ} {B : Type ℓ} where
  infixl 5 ◌>>◌
  abbrev pub ◌>>◌ : Cmd (Unit {0}) → Cmd B → Cmd B
  m >> k = m >>= λ _. k

-- fmt.Fprint to the two ends
unfoldable pub print : Bytes → Cmd (Unit {0})
print text s = (ok tt, record s { stdout = s.stdout ++ text })

unfoldable pub complain : Bytes → Cmd (Unit {0})
complain text s = (ok tt, record s { stderr = s.stderr ++ text })

-- if !b { return err }
unfoldable pub demand : Bool → Error → Cmd (Unit {0})
demand true e = done tt
demand false e = refuse e

-- fmt.Fprintln for each text
unfoldable pub print_lines : List Bytes → Cmd (Unit {0})
print_lines [] = done tt
print_lines (l ∷ ls) = do print (l ++ (b'\n' ∷ [])); print_lines ls
