-- ===== src/World/Steps.antt =====
-- One step of an operation at a time: what a successful run says of its steps, and back.
use thimble.Base.{◌≡◌, refl, ap, Bool, true, false, Option, none, some}
use thimble.World.Ends.{after_write}
use thimble.Errors.{Error, Result, ok, err}
use thimble.World.{
  World, Io, pure, raise, lift, continue, ◌>>=◌, ◌>>◌, check, require_some, on_failure, attempt,
  next_fails,
}

module _ {ℓ} {B : Type ℓ} where
  pub err_not_ok :
      {e : Error} {w w' : World} {r : B} → ◌≡◌ {A = Result B × World} (err e, w) (ok r, w') → ⊥
  err_not_ok h = cc (ap (λ (p : Result B × World). p.0) h)

  -- A test that lets a successful run pass is true.
  pub check-eq-ok :
      (b : Bool) (e : Error) (k : Io B) (w : World) {r : B} {w' : World}
      → (check b e >> k) w ≡ (ok r, w')
      → (b ≡ true) × (k w ≡ (ok r, w'))
  unfolding check pure raise ◌>>=◌
  check-eq-ok true e k w h = (refl, h)
  check-eq-ok false e k w h = elim (err_not_ok h) [ ]

  pub check_pass :
      (b : Bool) (e : Error) (k : Io B) (w : World) → b ≡ true → (check b e >> k) w ≡ k w
  unfolding check pure ◌>>=◌
  check_pass true e k w h = refl
  check_pass false e k w h = cc

  pub check_stop :
      (b : Bool) (e : Error) (k : Io B) (w : World) → b ≡ false → (check b e >> k) w ≡ (err e, w)
  unfolding check raise ◌>>=◌
  check_stop false e k w h = refl
  check_stop true e k w h = cc

module _ {ℓ κ} {A : Type ℓ} {B : Type κ} where
  continue-eq-ok :
      (m : Result A) (f : A → Io B) (w : World) {r : B} {w' : World}
      → continue m f w ≡ (ok r, w')
      → (a : A) × (m ≡ ok a) × (f a w ≡ (ok r, w'))
  continue-eq-ok (ok a) f w h = (a, refl, h)
  continue-eq-ok (err e) f w h = elim (err_not_ok h) [ ]

  -- A successful run of a sequence is a successful run of its first part and then of the rest.
  pub bind-eq-ok :
      (m : Io A) (f : A → Io B) (w : World) {r : B} {w' : World}
      → (m >>= f) w ≡ (ok r, w')
      → (a : A) × (middle : World) × (m w ≡ (ok a, middle)) × (f a middle ≡ (ok r, w'))
  unfolding ◌>>=◌
  bind-eq-ok m f w h =
      let (a, e, rest) = continue-eq-ok (m w).0 f (m w).1 h in
      (a, (m w).1, λ i. (e i, (m w).1), rest)

  pub bind_run :
      (m : Io A) (f : A → Io B) (w middle : World) (a : A)
      → m w ≡ (ok a, middle)
      → (m >>= f) w ≡ f a middle
  unfolding ◌>>=◌
  bind_run m f w middle a h = ap (λ (p : Result A × World). continue p.0 f p.1) h

  pub bind_fail :
      (m : Io A) (f : A → Io B) (w middle : World) (e : Error)
      → m w ≡ (err e, middle)
      → (m >>= f) w ≡ (err e, middle)
  unfolding ◌>>=◌
  bind_fail m f w middle e h = ap (λ (p : Result A × World). continue p.0 f p.1) h

  pub lift-eq-ok :
      (m : Result A) (f : A → Io B) (w : World) {r : B} {w' : World}
      → (lift m >>= f) w ≡ (ok r, w')
      → (a : A) × (m ≡ ok a) × (f a w ≡ (ok r, w'))
  unfolding ◌>>=◌ lift
  lift-eq-ok m f w h = continue-eq-ok m f w h

  pub lift_run :
      (r : Result A) (a : A) (f : A → Io B) (w : World) → r ≡ ok a → (lift r >>= f) w ≡ f a w
  unfolding lift
  lift_run r a f w e = bind_run (lift r) f w w a (ap (λ (x : Result A). (x, w)) e)

  pub require_some-eq-ok :
      (o : Option A) (e : Error) (f : A → Io B) (w : World) {r : B} {w' : World}
      → (require_some o e >>= f) w ≡ (ok r, w')
      → (a : A) × (o ≡ some a) × (f a w ≡ (ok r, w'))
  unfolding require_some pure raise ◌>>=◌
  require_some-eq-ok (some a) e f w h = (a, refl, h)
  require_some-eq-ok none e f w h = elim (err_not_ok h) [ ]

  pub require_some_run :
      (a : A) (e : Error) (f : A → Io B) (w : World) → (require_some (some a) e >>= f) w ≡ f a w
  unfolding require_some pure ◌>>=◌
  require_some_run a e f w = refl

-- A write that no fault stops, with or without a handler.
pub attempt_passes :
    (e : Error) (write : World → World) (w : World)
    → next_fails w.faults ≡ false
    → attempt e write w ≡ (ok tt, write (after_write w))
unfolding attempt
attempt_passes e write w h = rw h refl

pub on_failure_passes :
    (m : Io (Unit {0})) (handle : Error → Io (Unit {0})) (w w' : World)
    → m w ≡ (ok tt, w')
    → on_failure m handle w ≡ (ok tt, w')
unfolding on_failure
on_failure_passes m handle w w' h =
    ap (λ (p : Result (Unit {0}) × World). elim p.0 [ ok a ↦ (ok a, p.1) | err e ↦ handle e p.1 ]) h
