-- ===== src/Peer/Network.antt =====
-- What the exchange with peers takes from outside: the environment, the programs rsync and ssh,
-- the clock, and the files that rsync fetches. A Go error is here the text that Error() returns.
use thimble.Base.{ℕ, ◌≡◌, refl, ◌⊎◌, inl, inr, Option, List, Bytes}
use thimble.Base.Dict.{Dict}
use thimble.Base.Number.{ℤ}
use thimble.World.{File}

-- CombinedOutput: what the program printed, and the error if it failed
pub record Ran : Type 0 where
  pub output : Bytes
  pub failure : Option Bytes

pub data Resolved : Type 0 where
  at : Bytes → Resolved
  not_found : Bytes → Resolved

pub Resolved-cases :
    (r : Resolved) → ((e : Bytes) × (r ≡ not_found e)) ⊎ ((path : Bytes) × (r ≡ at path))
Resolved-cases (at path) = inr (path, refl)
Resolved-cases (not_found e) = inl (e, refl)

-- The part of a manifest that is read: the version of each environment of each application.
abbrev pub RemoteManifest : Type 0
RemoteManifest = Dict (Dict ℤ)

pub record Network : Type 0 where
  pub getenv : Bytes → Bytes
  -- exec.LookPath
  pub look_path : Bytes → Resolved
  -- the n-th program run, with its time limit in nanoseconds, its path and its arguments
  pub run : ℕ → ℕ → Bytes → List Bytes → Ran
  -- the file that the n-th program run has copied, or the error of reading or decoding it
  pub fetched : ℕ → File RemoteManifest
  -- the error of making a temporary file, if it fails
  pub temp_failure : ℕ → Option Bytes
  -- the name of that file
  pub temp_name : ℕ → Bytes
  -- the error's text for a fetched file that cannot be read or decoded
  pub read_failure : ℕ → Bytes
  -- time.Now at the n-th effect
  pub clock : ℕ → Bytes
