-- ===== src/Web/Rotation.antt =====
-- internal/web/rotation.go: RunIdleRotation, which gives the server a new token when it is idle,
-- beside watchManualRotate of internal/cli/run_web_signal_unix.go. Time is in nanoseconds.
use thimble.Base.{
  ℕ, zero, suc, ◌+◌, ◌*◌, ◌≤◌, ◌≡◌, refl, sym, ap, ◌∙◌, ◌⊎◌, inl, inr, true, false, Option, none,
  some, some_inverse, arith,
}
use thimble.Base.Number.{ℤ, pos, negsuc}
use thimble.Errors.{Result, ok, err, Result-cases}
use thimble.Outside.{Outside}
use thimble.Web.{Server, bump_activity, random_token, rotate}

-- The watcher beside the server: the time, when its timer fires, and the reads of the random source.
pub record Watch : Type 0 where
  pub server : Server
  pub now : ℕ
  pub fires_at : ℕ
  pub reads : ℕ

unfoldable pub drain_once : Server → Server
drain_once s = record s { activity = false }

unfoldable pub reset_timer : ℕ → Watch → Watch
reset_timer idle w = record w { fires_at = w.now + idle }

-- RunIdleRotation up to its loop; `none` where it returns at once
unfoldable pub begin_watch : ℤ → Server → ℕ → ℕ → Option Watch
unfolding drain_once
begin_watch (negsuc n) s now reads = none
begin_watch (pos zero) s now reads = none
begin_watch (pos (suc n)) s now reads =
    some (record { server = drain_once s; now = now; fires_at = now + suc n; reads = reads })

-- case <-s.activity
unfoldable pub on_activity : ℕ → Watch → Watch
unfolding drain_once reset_timer
on_activity idle w = reset_timer idle (record w { server = drain_once w.server })

abbrev rearmed : ℕ → Watch → Result (Unit {0}) × Server → Result (Unit {0}) × Watch
rearmed idle w (err e, s) = (err e, record w { server = s; reads = suc w.reads })
rearmed idle w (ok u, s) =
    (ok u, reset_timer idle (record w { server = drain_once s; reads = suc w.reads }))

-- case <-timer.C
unfoldable pub on_timer : Outside → ℕ → Watch → Result (Unit {0}) × Watch
unfolding drain_once reset_timer
on_timer o idle w = rearmed idle w (rotate o w.reads w.server)

-- watchManualRotate, on one signal; it ignores the error of Rotate
unfoldable pub manual_rotate : Outside → Watch → Watch
manual_rotate o w = record w { server = (rotate o w.reads w.server).1; reads = suc w.reads }

-- What can become of a watch, with so many rotations by the timer and so many by hand, and with the
-- time at which the idle time last began: time passes, a request with a session comes in, SIGUSR1
-- asks for a rotation, and the loop takes a signal or, once the timer has fired, rotates the token.
pub data Run (o : Outside) (idle : ℕ) (before : Watch) : ℕ → ℕ → ℕ → Watch → Type 0 where
  begun : Run o idle before 0 0 before.now before
  waited :
      (n k last later : ℕ) (w : Watch)
      → Run o idle before n k last w
      → w.now ≤ later
      → Run o idle before n k last (record w { now = later })
  authorized :
      (n k last : ℕ) (w : Watch)
      → Run o idle before n k last w
      → Run o idle before n k last (record w { server = bump_activity w.server })
  by_hand :
      (n k last : ℕ) (w : Watch)
      → Run o idle before n k last w
      → Run o idle before n (suc k) last (manual_rotate o w)
  heard :
      (n k last : ℕ) (w : Watch)
      → Run o idle before n k last w
      → w.server.activity ≡ true
      → Run o idle before n k w.now (on_activity idle w)
  fired :
      (n k last : ℕ) (w w' : Watch)
      → Run o idle before n k last w
      → w.fires_at ≤ w.now
      → on_timer o idle w ≡ (ok tt, w')
      → Run o idle before (suc n) k w.now w'

on_timer-eq-ok :
    (o : Outside) (idle : ℕ) (w w' : Watch)
    → on_timer o idle w ≡ (ok tt, w')
    → (w'.now ≡ w.now) × (w'.fires_at ≡ w.now + idle)
unfolding on_timer reset_timer rotate
on_timer-eq-ok o idle w w' h = elim (Result-cases (random_token o w.reads)) [
  | inl (e, failed) ↦
      let h1 = rw (on_timer, rotate, failed) at h in
      absurd (cc (ap (λ (p : Result (Unit {0}) × Watch). p.0) h1))
  | inr (token, read) ↦
      let h1 = rw (on_timer, rotate, read) at h in
      let same = ap (λ (p : Result (Unit {0}) × Watch). p.1) h1 in
      (ap (λ (v : Watch). v.now) (sym same), ap (λ (v : Watch). v.fires_at) (sym same))
]

-- How the timer, the clock and the token stand behind so many rotations.
record Paced (idle : ℕ) (before : Watch) (n k last : ℕ) (w : Watch) : Type 0 where
  pub timer : w.fires_at ≡ last + idle
  pub past : last ≤ w.now
  pub later : before.now + n * idle ≤ last
  pub kept : (1 ≤ n + k) ⊎ (w.server.token ≡ before.server.token)

Run-Paced :
    (o : Outside) (idle : ℕ) (before : Watch) (n k last : ℕ) (w : Watch)
    → before.fires_at ≡ before.now + idle
    → Run o idle before n k last w
    → Paced idle before n k last w
unfolding on_activity drain_once reset_timer manual_rotate
Run-Paced o idle before _ _ _ _ h begun = record {
  timer = h;
  past = omega arith;
  later = omega arith;
  kept = inr refl;
}
Run-Paced o idle before _ _ _ _ h (waited n k last t w r le) =
    let p = Run-Paced o idle before n k last w h r in
    let past = p.past in
    record { timer = p.timer; past = omega arith; later = p.later; kept = p.kept }
Run-Paced o idle before _ _ _ _ h (authorized n k last w r) =
    let p = Run-Paced o idle before n k last w h r in
    record { timer = p.timer; past = p.past; later = p.later; kept = p.kept }
Run-Paced o idle before _ _ _ _ h (by_hand n k last w r) =
    let p = Run-Paced o idle before n k last w h r in
    record { timer = p.timer; past = p.past; later = p.later; kept = inl (omega arith) }
Run-Paced o idle before _ _ _ _ h (heard n k last w r signalled) =
    let p = Run-Paced o idle before n k last w h r in
    let past = p.past in
    let later = p.later in
    record { timer = refl; past = omega arith; later = omega arith; kept = p.kept }
Run-Paced o idle before _ _ _ _ h (fired n k last w w' r due done) =
    let p = Run-Paced o idle before n k last w h r in
    let later = p.later in
    let timer = p.timer in
    let (clock, again) = on_timer-eq-ok o idle w w' done in
    record { timer = again; past = omega arith; later = omega arith; kept = inl (omega arith) }

begin_watch-eq-some :
    (m t reads : ℕ) (s : Server) (before : Watch)
    → begin_watch (pos m) s t reads ≡ some before
    → (before.now ≡ t) × (before.fires_at ≡ t + m) × (before.server.token ≡ s.token)
unfolding begin_watch drain_once
begin_watch-eq-some zero t reads s before h = cc
begin_watch-eq-some (suc k) t reads s before h =
    let same = some_inverse _ _ (sym h) in
    (
      ap (λ (w : Watch). w.now) same,
      ap (λ (w : Watch). w.fires_at) same,
      ap (λ (w : Watch). w.server.token) same,
    )

-- In a watch that begins at the time `t` with the idle time `m`, whatever signals and SIGUSR1 come
-- in, the timer fires `m` after the idle time last began, which is when the watch began, last took
-- a signal of activity or last rotated the token by itself; it has rotated the token n times only
-- if it is at least n idle times old; and the token is the one of the beginning while neither the
-- timer nor SIGUSR1 has rotated it.
pub begin_watch-Run :
    (o : Outside) (m n k last t reads : ℕ) (s : Server) (before w : Watch)
    → begin_watch (pos m) s t reads ≡ some before
    → Run o m before n k last w
    → (w.fires_at ≡ last + m)
      × (t + n * m ≤ last)
      × (last ≤ w.now)
      × ((1 ≤ n + k) ⊎ (w.server.token ≡ s.token))
begin_watch-Run o m n k last t reads s before w begins r =
    let (clock, timer, token) = begin_watch-eq-some m t reads s before begins in
    let p = Run-Paced o m before n k last w (timer ∙ ap (λ (x : ℕ). x + m) (sym clock)) r in
    let later = p.later in
    (
      p.timer,
      omega arith,
      p.past,
      elim p.kept [ inl rotated ↦ inl rotated | inr same ↦ inr (same ∙ token) ],
    )
