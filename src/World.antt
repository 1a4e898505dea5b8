-- ===== src/World.antt =====
-- The store's files, the notices printed, and the outcomes of the writes to come: the state that
-- every operation of Thimble reads and changes. An operation returns a value or an error, and what
-- it wrote before an error stays written.
pub mod Steps
pub mod Ends
use thimble.Base.{
  ℕ, suc, Bool, true, false, Option, none, some, List, [], ◌∷◌, ◌++◌, if◌then◌else◌, Bytes, equal,
}
use thimble.Base.Dict.{Dict}
use thimble.Errors.{Error, Result, ok, err, lock_failed}
use thimble.Audit.{Event}
use thimble.Quorum.Meta.{Meta}
use thimble.Store.Manifest.{Manifest}

-- A file that holds JSON, by what json.Unmarshal makes of it.
pub data File {ℓ} (A : Type ℓ) : Type ℓ where
  missing corrupt : File A
  holds : A → File A

-- How a key got its value. A label that the file holds and Thimble does not know is `other`.
pub data Origin : Type 0 where
  provision and_set set : Origin
  other : Bytes → Origin

abbrev pub Origins : Type 0
Origins = Dict Origin

pub data Notice : Type 0 where
  sha_populated : Bytes → Bytes → Bytes → Notice
  bundle_not_rolled_back origins_not_rolled_back pending_not_cleared : Notice

-- Files by their path below the store's root. A fault at the head of `faults` makes the next
-- write, or the next lock, fail. `effects` counts the runs of age, the random reads and the looks
-- at the clock.
pub record World : Type 0 where
  pub manifest : File Manifest
  pub bundles : Bytes → Option Bytes
  pub origins : Bytes → File Origins
  pub policy : Option Bytes
  pub meta : File Meta
  pub pending : Dict Bytes
  pub log : List Event
  pub notices : List Notice
  pub faults : List Bool
  pub effects : ℕ

abbrev pub Io {ℓ} : Type ℓ → Type ℓ
Io A = World → Result A × World

module _ {ℓ} {A : Type ℓ} where
  unfoldable pub pure : A → Io A
  pure a w = (ok a, w)

  unfoldable pub raise : Error → Io A
  raise e w = (err e, w)

  unfoldable pub lift : Result A → Io A
  lift r w = (r, w)

  unfoldable pub gets : (World → A) → Io A
  gets f w = (ok (f w), w)

module _ {ℓ κ} {A : Type ℓ} {B : Type κ} where
  abbrev pub continue : Result A → (A → Io B) → Io B
  continue (ok a) f w = f a w
  continue (err e) f w = (err e, w)

  infixl 5 ◌>>=◌
  unfoldable pub ◌>>=◌ : Io A → (A → Io B) → Io B
  ◌>>=◌ m f w = let (r, w') = m w in continue r f w'

module _ {ℓ} {B : Type ℓ} where
  infixl 5 ◌>>◌
  abbrev pub ◌>>◌ : Io (Unit {0}) → Io B → Io B
  m >> k = m >>= λ _. k

-- if !b { return err }
unfoldable pub check : Bool → Error → Io (Unit {0})
check true e = pure tt
check false e = raise e

-- the value of a lookup that must succeed
unfoldable pub require_some {ℓ} : {A : Type ℓ} → Option A → Error → Io A
require_some none e = raise e
require_some (some a) e = pure a

-- Whether the next write fails, and the outcomes behind it.
abbrev pub next_fails : List Bool → Bool
next_fails [] = false
next_fails (b ∷ bs) = b

abbrev pub later_faults : List Bool → List Bool
later_faults [] = []
later_faults (b ∷ bs) = bs

-- A write that a fault can stop. It writes a new file and renames it (atomicWrite), so a write
-- that fails changes nothing.
unfoldable pub attempt : Error → (World → World) → Io (Unit {0})
attempt e write w =
    let w' = record w { faults = later_faults w.faults } in
    if next_fails w.faults then (err e, w') else (ok tt, write w')

-- A map of files with one of them written.
abbrev pub write_file {ℓ} : {A : Type ℓ} → (Bytes → A) → Bytes → A → Bytes → A
write_file files path content p = if equal path p then content else files p

-- The number of an effect that depends on the moment.
unfoldable pub tick : Io ℕ
tick w = (ok w.effects, record w { effects = suc w.effects })

-- if err := m; err != nil { handle }
unfoldable pub on_failure {ℓ} : {A : Type ℓ} → Io A → (Error → Io A) → Io A
on_failure m handle w = let (r, w') = m w in elim r [ ok a ↦ (ok a, w') | err e ↦ handle e w' ]

-- s.notify
unfoldable pub notify : Notice → Io (Unit {0})
notify n w = (ok tt, record w { notices = w.notices ++ (n ∷ []) })

-- lockExclusive and lockShared; what they guard runs in one step
unfoldable pub acquire_lock : Io (Unit {0})
unfolding attempt
acquire_lock = attempt lock_failed (λ w. w)
