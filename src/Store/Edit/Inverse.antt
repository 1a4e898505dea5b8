-- ===== src/Store/Edit/Inverse.antt =====
-- What an edit that succeeds has read, and what it has committed.
use thimble.Base.{◌≡◌, ◌∙◌, Bytes, codes}
use thimble.Outside.{Outside}
use thimble.Errors.{ok}
use thimble.World.{World, Origins, Io, pure, lift}
use thimble.World.Steps.{bind_run, lift_run}
use thimble.World.Ends.{Ends, Ended-found, Ends-step, Ends-step_lift, Ends-pure, at_end}
use thimble.Dotenv.{Values, parse, encode}
use thimble.Store.Validate.{validate_name}
use thimble.Store.Manifest.{EnvManifest}
use thimble.Store.Bundle.{decrypt, load_origins}
use thimble.Store.Edit.{
  Draft, validate_names, load_env_for_edit, find, read_env, now, stamped, prune_origins,
  rewrite_env_with_origins,
}
use thimble.Store.Commit.{CommitInputs, commit_env_with_origins}

-- The commit of an edited draft.
abbrev pub inputs_of : Bytes → Bytes → EnvManifest → Bytes → Draft → CommitInputs
inputs_of app env meta time draft = record {
  app = app;
  env = env;
  meta = stamped draft.meta time meta.version;
  loaded_version = meta.version;
  prior_sha = meta.bundle_sha256;
  plain = encode draft.values;
  origins = prune_origins draft.origins draft.values;
}

abbrev pub NamesValid : Bytes → Bytes → Type 0
NamesValid app env =
    (validate_name (codes "app") app ≡ ok tt) × (validate_name (codes "environment") env ≡ ok tt)

pub record Rewritten {A : Type 0} (o : Outside) (app env : Bytes) (edit : Draft → Io (A × Draft))
    (w : World) (outcome : A) (w' : World) : Type 0 where
  pub names : NamesValid app env
  pub meta : EnvManifest
  pub values : Values
  pub origins : Origins
  pub draft : Draft
  pub time : Bytes
  pub read_by : World
  pub read : read_env o app env w ≡ (ok (values, meta), read_by)
  pub editing : World
  pub edited_by : World
  pub edited :
      edit (record { meta = meta; values = values; origins = origins }) editing
      ≡ (ok (outcome, draft), edited_by)
  pub committing : World
  pub committed :
      commit_env_with_origins o (inputs_of app env meta time draft) committing ≡ (ok tt, w')

validate_names-Ends :
    (app env : Bytes) (w : World)
    → Ends (λ _. Unit {0}) (λ _ v. NamesValid app env) (validate_names app env) w
unfolding validate_names lift
validate_names-Ends app env w =
    Ends-step_lift (λ _ v. NamesValid app env) (validate_name (codes "app") app) _ w
      λ u app_valid.
        Ended-found (λ _. Unit {0}) (λ _ v. NamesValid app env)
          (validate_name (codes "environment") env) w tt (λ u' env_valid. (app_valid, env_valid))

read_run :
    (o : Outside) (app env : Bytes) (w w1 w2 w3 : World) (meta : EnvManifest) (plain : Bytes)
    (values : Values)
    → validate_names app env w ≡ (ok tt, w1)
    → load_env_for_edit app env w1 ≡ (ok meta, w2)
    → decrypt o meta w2 ≡ (ok plain, w3)
    → parse plain ≡ ok values
    → read_env o app env w ≡ (ok (values, meta), w3)
unfolding read_env find pure
read_run o app env w w1 w2 w3 meta plain values named loaded decrypted parsed =
    bind_run (find app env) _ w w2 meta (bind_run (validate_names app env) _ w w1 tt named ∙ loaded)
    ∙ bind_run (decrypt o meta) _ w2 w3 plain decrypted
    ∙ lift_run (parse plain) values _ w3 parsed

pub rewrite_env_with_origins-Rewritten :
    {A : Type 0} (o : Outside) (app env : Bytes) (edit : Draft → Io (A × Draft)) (w : World)
    → Ends (λ _. Unit {0}) (Rewritten o app env edit w) (rewrite_env_with_origins o app env edit) w
unfolding rewrite_env_with_origins
rewrite_env_with_origins-Rewritten o app env edit w =
    let Q = Rewritten o app env edit w in
    Ends-step Q (validate_names app env) _ w λ u w1 named.
      Ends-step Q (load_env_for_edit app env) _ w1 λ meta w2 loaded.
        Ends-step Q (decrypt o meta) _ w2 λ plain w3 decrypted.
          Ends-step_lift Q (parse plain) _ w3 λ values parsed.
            Ends-step Q (load_origins app env) _ w3 λ origins w4 kept.
              Ends-step Q (edit (record { meta = meta; values = values; origins = origins })) _ w4
                λ edited w5 ran. Ends-step Q (now o) _ w5 λ time w6 looked.
                  Ends-step Q (commit_env_with_origins o (inputs_of app env meta time edited.1)) _
                    w6
                    λ u' w7 committed.
                      Ends-pure (λ _. Unit {0}) Q edited.0 w7
                        (record {
                          names =
                              at_end (λ _ _. NamesValid app env) _ u w1 named
                                (validate_names-Ends app env w);
                          meta = meta;
                          values = values;
                          origins = origins;
                          draft = edited.1;
                          time = time;
                          read_by = w3;
                          read =
                              read_run o app env w w1 w2 w3 meta plain values named loaded decrypted
                                parsed;
                          editing = w4;
                          edited_by = w5;
                          edited = ran;
                          committing = w6;
                          committed = committed;
                        })
