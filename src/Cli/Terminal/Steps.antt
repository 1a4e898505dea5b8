-- ===== src/Cli/Terminal/Steps.antt =====
-- A command whose run succeeded ran each of its steps.
use thimble.Base.{◌≡◌, refl, sym, ap, ◌∙◌}
use thimble.Errors.{Error, Result, ok, err}
use thimble.World.{World, Io}
use thimble.Cli.Terminal.{Session, Cmd, returns, on_store, proceed, ◌>>=◌}

module _ {B : Type 0} where
  pub error_not_ok :
      {e : Error} {s s' : Session} {b : B} → ◌≡◌ {A = Result B × Session} (err e, s) (ok b, s') → ⊥
  error_not_ok h = cc (ap (λ (p : Result B × Session). p.0) h)

module _ {A B : Type 0} where
  proceed-eq-ok :
      (m : Result A) (f : A → Cmd B) (s : Session) {b : B} {s' : Session}
      → proceed m f s ≡ (ok b, s')
      → (a : A) × (m ≡ ok a) × (f a s ≡ (ok b, s'))
  proceed-eq-ok (ok a) f s h = (a, refl, h)
  proceed-eq-ok (err e) f s h = elim (error_not_ok h) [ ]

  pub bind-eq-ok :
      (m : Cmd A) (f : A → Cmd B) (s : Session) {b : B} {s' : Session}
      → (m >>= f) s ≡ (ok b, s')
      → (a : A) × (middle : Session) × (m s ≡ (ok a, middle)) × (f a middle ≡ (ok b, s'))
  unfolding ◌>>=◌
  bind-eq-ok m f s h =
      let (a, e, rest) = proceed-eq-ok (m s).0 f (m s).1 h in
      (a, (m s).1, λ i. (e i, (m s).1), rest)

  pub bind_run :
      (m : Cmd A) (f : A → Cmd B) (s middle : Session) (a : A)
      → m s ≡ (ok a, middle)
      → (m >>= f) s ≡ f a middle
  unfolding ◌>>=◌
  bind_run m f s middle a h = ap (λ (p : Result A × Session). proceed p.0 f p.1) h

  pub returns_run :
      (r : Result A) (a : A) (f : A → Cmd B) (s : Session) → r ≡ ok a → (returns r >>= f) s ≡ f a s
  unfolding ◌>>=◌ returns
  returns_run r a f s h = ap (λ (x : Result A). proceed x f s) h

module _ {A : Type 0} where
  -- An operation of the store, in a command.
  pub on_store_run :
      (m : Io A) (s : Session) (a : A) (w : World)
      → m s.world ≡ (ok a, w)
      → on_store m s ≡ (ok a, record s { world = w })
  unfolding on_store
  on_store_run m s a w h = ap (λ (p : Result A × World). (p.0, record s { world = p.1 })) h

  pub on_store-eq-ok :
      (m : Io A) (s s' : Session) (a : A)
      → on_store m s ≡ (ok a, s')
      → (m s.world ≡ (ok a, s'.world)) × (s' ≡ record s { world = s'.world })
  unfolding on_store
  on_store-eq-ok m s s' a h =
      let result = ap (λ (p : Result A × Session). p.0) h in
      let session = ap (λ (p : Result A × Session). p.1) h in
      let world = ap (λ (x : Session). x.world) session in
      (λ i. (result i, world i), sym session ∙ ap (λ (w : World). record s { world = w }) world)
