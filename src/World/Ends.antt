-- ===== src/World/Ends.antt =====
-- What holds when an operation ends: one predicate for an error and one for a result.
use mathlib.Core.Path.{subst}
use thimble.Base.{◌≡◌, refl, sym, inl, inr, Bool, true, false, Bool-cases, Option, none, some}
use thimble.Errors.{Error, Result, ok, err}
use thimble.World.{
  World, Io, pure, raise, lift, gets, continue, ◌>>=◌, ◌>>◌, check, require_some, on_failure,
  next_fails, later_faults, attempt,
}

abbrev pub Ended {ℓ} :
    {A : Type ℓ} → (World → Type 0) → (A → World → Type 0) → Result A → World → Type 0
Ended P Q (ok a) w = Q a w
Ended P Q (err e) w = P w

-- The operation, run from `w`, ends with an error in a state of `P`, or with a result of `Q`.
abbrev pub Ends {ℓ} : {A : Type ℓ} → (World → Type 0) → (A → World → Type 0) → Io A → World → Type 0
Ends P Q m w = Ended P Q (m w).0 (m w).1

-- The state behind a write: its outcome is no longer to come.
abbrev pub after_write : World → World
after_write w = record w { faults = later_faults w.faults }

module _ {ℓ κ} {A : Type ℓ} {B : Type κ} (P : World → Type 0) (Q : B → World → Type 0) where
  Ended-continue :
      (R : A → World → Type 0) (r : Result A) (f : A → Io B) (w : World)
      → Ended P R r w
      → ((a : A) (w' : World) → R a w' → Ends P Q (f a) w')
      → Ends P Q (continue r f) w
  Ended-continue R (ok a) f w h k = k a w h
  Ended-continue R (err e) f w h k = h

  pub Ends-bind :
      (R : A → World → Type 0) (m : Io A) (f : A → Io B) (w : World)
      → Ends P R m w
      → ((a : A) (w' : World) → R a w' → Ends P Q (f a) w')
      → Ends P Q (m >>= f) w
  unfolding ◌>>=◌
  Ends-bind R m f w h k = Ended-continue R (m w).0 f (m w).1 h k

  pub Ends-lift :
      (r : Result A) (f : A → Io B) (w : World)
      → P w
      → ((a : A) → r ≡ ok a → Ends P Q (f a) w)
      → Ends P Q (lift r >>= f) w
  unfolding ◌>>=◌ lift
  Ends-lift (ok a) f w p k = k a refl
  Ends-lift (err e) f w p k = p

  pub Ends-gets :
      (g : World → A) (f : A → Io B) (w : World) → Ends P Q (f (g w)) w → Ends P Q (gets g >>= f) w
  unfolding ◌>>=◌ gets
  Ends-gets g f w h = h

  pub Ends-require_some :
      (a : Option A) (e : Error) (f : A → Io B) (w : World)
      → P w
      → ((x : A) → a ≡ some x → Ends P Q (f x) w)
      → Ends P Q (require_some a e >>= f) w
  unfolding ◌>>=◌ require_some raise pure
  Ends-require_some (some a) e f w p k = k a refl
  Ends-require_some none e f w p k = p

module _ {ℓ} {B : Type ℓ} (P : World → Type 0) (Q : B → World → Type 0) where
  pub Ends-check :
      (b : Bool) (e : Error) (k : Io B) (w : World)
      → P w
      → (b ≡ true → Ends P Q k w)
      → Ends P Q (check b e >> k) w
  unfolding ◌>>=◌ check raise pure
  Ends-check true e k w p h = h refl
  Ends-check false e k w p h = p

  Ended-on_failure :
      (P' : World → Type 0) (r : Result B) (handle : Error → Io B) (w : World)
      → Ended P' Q r w
      → ((e : Error) (w' : World) → P' w' → Ends P Q (handle e) w')
      → Ends P Q (λ v. elim r [ ok a ↦ (ok a, v) | err e ↦ handle e v ]) w
  Ended-on_failure P' (ok a) handle w h k = h
  Ended-on_failure P' (err e) handle w h k = k e w h

  pub Ends-on_failure :
      (P' : World → Type 0) (m : Io B) (handle : Error → Io B) (w : World)
      → Ends P' Q m w
      → ((e : Error) (w' : World) → P' w' → Ends P Q (handle e) w')
      → Ends P Q (on_failure m handle) w
  unfolding on_failure
  Ends-on_failure P' m handle w h k = Ended-on_failure P' (m w).0 handle (m w).1 h k

module _ (P : World → Type 0) (Q : Unit {0} → World → Type 0) where
  pub Ends-attempt :
      (e : Error) (write : World → World) (w : World)
      → (next_fails w.faults ≡ true → P (after_write w))
      → (next_fails w.faults ≡ false → Q tt (write (after_write w)))
      → Ends P Q (attempt e write) w
  unfolding attempt
  Ends-attempt e write w p q = elim (Bool-cases (next_fails w.faults)) [
    | inl fails ↦ rw fails (p fails)
    | inr passes ↦ rw passes (q passes)
  ]

module _ {ℓ} {A : Type ℓ} (P : World → Type 0) (Q : A → World → Type 0) where
  -- A step that only computes a result ends in the state it started from.
  pub Ended-either : (r : Result A) (w : World) → P w → ((a : A) → Q a w) → Ended P Q r w
  Ended-either (ok a) w p q = q a
  Ended-either (err e) w p q = p

  pub Ended-found : (r : Result A) (w : World) → P w → ((a : A) → r ≡ ok a → Q a w) → Ended P Q r w
  Ended-found (ok a) w p q = q a refl
  Ended-found (err e) w p q = p

  pub Ends-require_some_found :
      (a : Option A) (e : Error) (w : World)
      → P w
      → ((x : A) → a ≡ some x → Q x w)
      → Ends P Q (require_some a e) w
  unfolding require_some raise pure
  Ends-require_some_found (some a) e w p q = q a refl
  Ends-require_some_found none e w p q = p

  pub Ends-pure : (a : A) (w : World) → Q a w → Ends P Q (pure a) w
  unfolding pure
  Ends-pure a w q = q

  pub Ends-lift_last : (r : Result A) (w : World) → P w → ((a : A) → Q a w) → Ends P Q (lift r) w
  unfolding lift
  Ends-lift_last r w p q = Ended-either r w p q

  pub Ends-require_some_last :
      (a : Option A) (e : Error) (w : World)
      → P w
      → ((x : A) → Q x w)
      → Ends P Q (require_some a e) w
  unfolding require_some raise pure
  Ends-require_some_last (some a) e w p q = q a
  Ends-require_some_last none e w p q = p

  pub Ends-raise : (e : Error) (w : World) → P w → Ends P Q (raise e) w
  unfolding raise
  Ends-raise e w p = p

-- The error cases left open: what a result says.
module _ {ℓ} {A : Type ℓ} (Q : A → World → Type 0) where
  from_run : (r : Result A) (v : World) → ((a : A) → r ≡ ok a → Q a v) → Ended (λ _. Unit {0}) Q r v
  from_run (ok a) v h = h a refl
  from_run (err e) v h = tt

  pub Ends-run :
      (m : Io A) (w : World)
      → ((a : A) (v : World) → m w ≡ (ok a, v) → Q a v)
      → Ends (λ _. Unit {0}) Q m w
  Ends-run m w h = from_run (m w).0 (m w).1 λ a e. h a (m w).1 (λ i. (e i, (m w).1))

pub Ends-any {ℓ} : {A : Type ℓ} (m : Io A) (w : World) → Ends (λ _. Unit {0}) (λ _ _. Unit {0}) m w
Ends-any m w = Ends-run (λ _ _. Unit {0}) m w (λ _ _ _. tt)

pub Ends-skip {ℓ κ} :
    {A : Type ℓ} {B : Type κ} (Q : B → World → Type 0) (m : Io A) (f : A → Io B) (w : World)
    → ((a : A) (w' : World) → Ends (λ _. Unit {0}) Q (f a) w')
    → Ends (λ _. Unit {0}) Q (m >>= f) w
Ends-skip Q m f w h =
    Ends-bind (λ _. Unit {0}) Q (λ _ _. Unit {0}) m f w (Ends-any m w) (λ a w' _. h a w')

pub Ends-check_last :
    (P : World → Type 0) (Q : Unit {0} → World → Type 0) (b : Bool) (e : Error) (w : World)
    → P w
    → Q tt w
    → Ends P Q (check b e) w
unfolding check raise pure
Ends-check_last P Q true e w p q = q
Ends-check_last P Q false e w p q = p

-- An operation ends as another one does, when their runs are equal.
pub Ends-equal {ℓ} :
    {A : Type ℓ} (P : World → Type 0) (Q : A → World → Type 0) (p r : Result A × World)
    → p ≡ r
    → Ended P Q r.0 r.1
    → Ended P Q p.0 p.1
Ends-equal P Q p r e h = subst (λ (x : Result _ × World). Ended P Q x.0 x.1) (sym e) h

pub Ended-imp {ℓ} :
    {A : Type ℓ} (Q R : A → World → Type 0) (r : Result A) (w : World)
    → Ended (λ _. Unit {0}) Q r w
    → ((a : A) (v : World) → Q a v → R a v)
    → Ended (λ _. Unit {0}) R r w
Ended-imp Q R (ok a) w q f = f a w q
Ended-imp Q R (err e) w q f = tt

-- A part of a sequence with the equation of its run, for a statement about results only.
pub Ends-step :
    {A B : Type 0} (Q : B → World → Type 0) (m : Io A) (f : A → Io B) (w : World)
    → ((a : A) (w' : World) → m w ≡ (ok a, w') → Ends (λ _. Unit {0}) Q (f a) w')
    → Ends (λ _. Unit {0}) Q (m >>= f) w
Ends-step Q m f w k =
    Ends-bind (λ _. Unit {0}) Q (λ a v. m w ≡ (ok a, v)) m f w
      (Ends-run (λ a v. m w ≡ (ok a, v)) m w (λ a v e. e)) k

pub Ends-step_lift :
    {A B : Type 0} (Q : B → World → Type 0) (r : Result A) (f : A → Io B) (w : World)
    → ((a : A) → r ≡ ok a → Ends (λ _. Unit {0}) Q (f a) w)
    → Ends (λ _. Unit {0}) Q (lift r >>= f) w
Ends-step_lift Q r f w k = Ends-lift (λ _. Unit {0}) Q r f w tt k

-- What holds of every end holds of the one that was reached.
pub at_end :
    {A : Type 0} (Q : A → World → Type 0) (r : Result A × World) (a : A) (w : World)
    → r ≡ (ok a, w)
    → Ended (λ _. Unit {0}) Q r.0 r.1
    → Q a w
at_end Q r a w e h = subst (λ (p : Result _ × World). Ended (λ _. Unit {0}) Q p.0 p.1) e h
