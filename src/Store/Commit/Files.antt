-- ===== src/Store/Commit/Files.antt =====
-- Faults to come, and what a commit has touched of the files.
use thimble.Base.{
  ◌≡◌, refl, ap, inl, inr, Bool, true, false, List, [], ◌∷◌, All, Bool-cases, Bytes, equal,
  equal_iff,
}
use thimble.World.{World, next_fails, later_faults, write_file}

-- Of the writes to come, at most one fails.
abbrev pub AtMostOneFault : List Bool → Type 0
AtMostOneFault [] = Unit {0}
AtMostOneFault (true ∷ later) = All (λ b. b ≡ false) later
AtMostOneFault (false ∷ later) = AtMostOneFault later

abbrev pub NoFault : List Bool → Type 0
NoFault = All (λ b. b ≡ false)

pub one_fault :
    (fs : List Bool) → next_fails fs ≡ true → AtMostOneFault fs → NoFault (later_faults fs)
one_fault [] h a = tt
one_fault (true ∷ fs) h a = a
one_fault (false ∷ fs) h a = cc

pub fewer_faults :
    (fs : List Bool) → next_fails fs ≡ false → AtMostOneFault fs → AtMostOneFault (later_faults fs)
fewer_faults [] h a = tt
fewer_faults (true ∷ fs) h a = cc
fewer_faults (false ∷ fs) h a = a

pub no_fault : (fs : List Bool) → NoFault fs → next_fails fs ≡ false
no_fault [] a = refl
no_fault (b ∷ fs) a = a.0

pub no_faults : (fs : List Bool) → NoFault fs → NoFault (later_faults fs)
no_faults [] a = tt
no_faults (b ∷ fs) a = a.1

-- The files hold what they held, and the ledger has no new event.
pub record SameFiles (before after : World) : Type 0 where
  pub manifest : after.manifest ≡ before.manifest
  pub bundles : (path : Bytes) → after.bundles path ≡ before.bundles path
  pub origins : (path : Bytes) → after.origins path ≡ before.origins path
  pub log : after.log ≡ before.log

-- The files hold what they held, but for one bundle and one file of origins.
pub record Touched (file origins_file : Bytes) (before after : World) : Type 0 where
  pub manifest : after.manifest ≡ before.manifest
  pub bundles : (path : Bytes) → equal file path ≡ false → after.bundles path ≡ before.bundles path
  pub origins :
      (path : Bytes) → equal origins_file path ≡ false → after.origins path ≡ before.origins path
  pub log : after.log ≡ before.log

pub SameFiles-Touched : (p q : Bytes) {v w : World} → SameFiles v w → Touched p q v w
SameFiles-Touched p q s = record {
  manifest = s.manifest;
  bundles = λ path _. s.bundles path;
  origins = λ path _. s.origins path;
  log = s.log;
}

pub write_other :
    {A : Type 0} (files : Bytes → A) (path : Bytes) (content : A) (p : Bytes)
    → equal path p ≡ false
    → write_file files path content p ≡ files p
write_other files path content p h = rw h refl

pub put_back :
    {A : Type 0} (files old : Bytes → A) (path p : Bytes)
    → ((x : Bytes) → equal path x ≡ false → files x ≡ old x)
    → write_file files path (old path) p ≡ old p
put_back files old path p h = elim (Bool-cases (equal path p)) [
  | inl same ↦ rw same (ap old ((equal_iff path p).0 same))
  | inr other ↦ rw other (h p other)
]
