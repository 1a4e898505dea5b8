-- ===== src/Store/Secrets/Stored.antt =====
-- What a set that succeeds has stored.
use mathlib.Core.Path.{subst}
use thimble.Base.{
  ℕ, suc, [], ◌∷◌, ◌++◌, if◌then◌else◌, ◌≡◌, refl, ap, ◌∙◌, true, false, Bool-cases, inl, inr,
  Bytes,
}
use thimble.Outside.{Outside}
use thimble.Errors.{Result, ok, err, write_failed}
use thimble.World.{World, Origin, Origins, pure, ◌>>=◌, on_failure, attempt, tick, next_fails}
use thimble.World.Ends.{Ends, Ends-step_lift, Ends-pure, Ends-run, Ends-bind, at_end}
use thimble.Dotenv.{Values, validate_key}
use thimble.Audit.{Op, Event, set}
use thimble.Audit.Ledger.{append, operator_thumbprint, record_event, record_event_with_signers}
use thimble.Store.Manifest.{EnvManifest}
use thimble.Store.Edit.{Draft, read_env, rewrite_env_with_origins}
use thimble.Store.Edit.Inverse.{
  NamesValid, inputs_of, Rewritten, rewrite_env_with_origins-Rewritten,
}
use thimble.Store.Bundle.{origins_path}
use thimble.Store.Commit.{CommitInputs}
use thimble.Store.Commit.Written.{Committed, commit_env_with_origins-Committed}
use thimble.Store.Secrets.{assign, set_edit, set_secret}

-- The files of a namespace are the same.
record SameStore (w v : World) : Type 0 where
  manifest : v.manifest ≡ w.manifest
  bundles : v.bundles ≡ w.bundles
  origins : v.origins ≡ w.origins

caught :
    (w v : World) (r : Result (Unit {0}))
    → SameStore w v
    → SameStore w (on_failure (λ x. (r, v)) (λ e. pure tt) w).1
unfolding on_failure pure
caught w v (ok u) same = same
caught w v (err e) same = same

append-SameStore : (event : Event) (w : World) → SameStore w (append event w).1
unfolding append on_failure attempt
append-SameStore event w =
    let write : World → World = λ v. record v { log = v.log ++ (event ∷ []) } in
    caught w (attempt write_failed write w).1 (attempt write_failed write w).0
      (elim (Bool-cases (next_fails w.faults)) [
        | inl fails ↦
            rw (attempt, fails) (record { manifest = refl; bundles = refl; origins = refl })
        | inr passes ↦
            rw (attempt, passes) (record { manifest = refl; bundles = refl; origins = refl })
      ])

record_event-SameStore :
    (o : Outside) (op : Op) (app env subject : Bytes) (w : World)
    → SameStore w (record_event o op app env subject w).1
unfolding record_event record_event_with_signers tick ◌>>=◌ pure
record_event-SameStore o op app env subject w =
    elim o.audited
      as (λ b. SameStore w ((if b then (tick >>= λ n. append (event n)) else pure tt) w).1) [
        | true ↦
            let same = append-SameStore (event w.effects) (record w { effects = suc w.effects }) in
            record { manifest = same.manifest; bundles = same.bundles; origins = same.origins }
        | false ↦ record { manifest = refl; bundles = refl; origins = refl }
      ]
  where
    event : ℕ → Event
    event n = record {
      timestamp = o.clock n;
      operator = operator_thumbprint o;
      op = op;
      app = app;
      env = env;
      subject = subject;
      signers = [];
      bootstrap = false;
    }

-- The namespace as it was read, and the commit of it with the key set.
pub record Stored (o : Outside) (app env key value : Bytes) (origin : Origin) (w v : World)
    : Type 0 where
  pub names : NamesValid app env
  pub meta : EnvManifest
  pub values : Values
  pub origins : Origins
  pub time : Bytes
  pub read_by : World
  pub read : read_env o app env w ≡ (ok (values, meta), read_by)
  pub committing : World
  pub committed :
      Committed o
        (inputs_of app env meta time
          (assign key value origin (record { meta = meta; values = values; origins = origins })))
        committing
        v

Committed-SameStore :
    (o : Outside) (c : CommitInputs) (before w v : World)
    → Committed o c before w
    → SameStore w v
    → Committed o c before v
Committed-SameStore o c before w v h same = record {
  run = h.run;
  cipher = h.cipher;
  disk = h.disk;
  read = h.read;
  agreed = h.agreed;
  valid = h.valid;
  encrypted = h.encrypted;
  bundle = ap (λ f. f c.meta.file) same.bundles ∙ h.bundle;
  origins = ap (λ f. f (origins_path c.app c.env)) same.origins ∙ h.origins;
  manifest = same.manifest ∙ h.manifest;
}

set_edit-draft :
    (key value : Bytes) (origin : Origin) (draft : Draft) (w : World)
    → Ends
        (λ _. Unit {0})
        (λ r v. r.1 ≡ assign key value origin draft)
        (set_edit key value origin draft)
        w
unfolding set_edit
set_edit-draft key value origin draft w =
    let Q = λ (r : Unit {0} × Draft) (v : World). r.1 ≡ assign key value origin draft in
    Ends-step_lift Q (validate_key key) _ w
      λ u valid. Ends-pure (λ _. Unit {0}) Q (tt, assign key value origin draft) w refl

Rewritten-Stored :
    (o : Outside) (app env key value : Bytes) (origin : Origin) (w w' v : World)
    → Rewritten o app env (set_edit key value origin) w tt w'
    → SameStore w' v
    → Stored o app env key value origin w v
Rewritten-Stored o app env key value origin w w' v r same = record {
  names = r.names;
  meta = r.meta;
  values = r.values;
  origins = r.origins;
  time = r.time;
  read_by = r.read_by;
  read = r.read;
  committing = r.committing;
  committed =
      subst (λ d. Committed o (inputs_of app env r.meta r.time d) r.committing v) drafted
        (Committed-SameStore o (inputs_of app env r.meta r.time r.draft) r.committing w' v
          (at_end (λ _ x. Committed o (inputs_of app env r.meta r.time r.draft) r.committing x) _ tt
            w' r.committed
            (commit_env_with_origins-Committed o (inputs_of app env r.meta r.time r.draft)
              r.committing))
          same);
}
  where
    loaded : Draft
    loaded = record { meta = r.meta; values = r.values; origins = r.origins }

    drafted : r.draft ≡ assign key value origin loaded
    drafted =
        at_end (λ (q : Unit {0} × Draft) x. q.1 ≡ assign key value origin loaded) _ (tt, r.draft)
          r.edited_by r.edited (set_edit-draft key value origin loaded r.editing)

pub set_secret-Stored :
    (o : Outside) (app env key value : Bytes) (origin : Origin) (w : World)
    → Ends
        (λ _. Unit {0})
        (λ _ v. Stored o app env key value origin w v)
        (set_secret o app env key value origin)
        w
unfolding set_secret
set_secret-Stored o app env key value origin w =
    let Q = λ (u : Unit {0}) (v : World). Stored o app env key value origin w v in
    Ends-bind (λ _. Unit {0}) Q (Rewritten o app env (set_edit key value origin) w)
      (rewrite_env_with_origins o app env (set_edit key value origin)) _ w
      (rewrite_env_with_origins-Rewritten o app env (set_edit key value origin) w)
      λ u w' r. Ends-run Q (record_event o set app env key) w' λ a v e.
        Rewritten-Stored o app env key value origin w w' v r (
          subst (λ (p : Result (Unit {0}) × World). SameStore w' p.1) e
            (record_event-SameStore o set app env key w'))
