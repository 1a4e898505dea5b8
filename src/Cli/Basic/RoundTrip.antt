-- ===== src/Cli/Basic/RoundTrip.antt =====
-- What `get` prints behind a `set`.
use thimble.Base.{
  ℕ, ◌≡◌, refl, sym, ap, ◌∙◌, true, false, Option, some, List, [], ◌∷◌, ◌++◌, Bytes, codes, All,
  mem, arith,
}
use thimble.Base.Dict.{get, put, keys}
use thimble.Base.Space.{trim_line_end}
use thimble.Outside.{Outside}
use mathlib.Core.Path.{subst}
use thimble.Errors.{Error, Result, ok, ok_inverse, secret_not_piped}
use thimble.World.{World, Origin, next_fails}
use thimble.World.Ends.{at_end, after_write}
use thimble.Dotenv.{Values}
use thimble.Dotenv.RoundTrip.{Fits}
use thimble.Store.Validate.{matches_name}
use thimble.Store.Manifest.{EnvManifest}
use thimble.Store.Edit.{stamped, read_env}
use thimble.Store.Edit.Inverse.{inputs_of}
use thimble.Store.Commit.ReadBack.{read_env-Committed}
use thimble.Store.Secrets.{assign, set_secret}
use thimble.Store.Validate.Names.{validate_name-tests}
use thimble.Store.Secrets.Stored.{Stored, set_secret-Stored}
use thimble.Cli.Terminal.{Terminal, Session, done, refuse, on_store, print}
use thimble.Cli.Terminal.Steps.{
  error_not_ok, bind-eq-ok, bind_run, returns_run, on_store_run, on_store-eq-ok,
}
use thimble.Cli.Flags.{ParseInt, parse_flags, read_argument, positional}
use thimble.Cli.Basic.{
  Target, parse_secret_args, unless_empty, secret_input, run_set, print_value, get_from, run_get,
}

unless_empty-eq-ok :
    (e : Error) (text value : Bytes) (s s' : Session)
    → unless_empty e text s ≡ (ok value, s')
    → (value ≡ text) × (s' ≡ s)
unfolding done refuse
unless_empty-eq-ok e [] value s s' h = absurd (error_not_ok h)
unless_empty-eq-ok e (c ∷ cs) value s s' h = (
  sym (ok_inverse (ap (λ (p : Result Bytes × Session). p.0) h)),
  sym (ap (λ (p : Result Bytes × Session). p.1) h),
)

-- The value of a pipe is the text without the line ends behind it.
piped_value :
    (t : Terminal) (key raw value : Bytes) (s s' : Session)
    → t.stdin_is_terminal ≡ false
    → t.piped ≡ ok raw
    → secret_input t key s ≡ (ok value, s')
    → (value ≡ trim_line_end raw) × (s' ≡ s)
unfolding secret_input
piped_value t key raw value s s' pipe read h =
    let h1 = rw (secret_input, pipe) at h in
    unless_empty-eq-ok secret_not_piped (trim_line_end raw) value s s'
      (sym (returns_run t.piped raw _ s read) ∙ h1)

moved :
    (o : Outside) (app env key : Bytes) (origin : Origin) {value value' : Bytes} {w w' v v' : World}
    → value ≡ value'
    → w ≡ w'
    → v ≡ v'
    → Stored o app env key value origin w v
    → Stored o app env key value' origin w' v'
moved o app env key origin {value' = value'} {w = w} {w' = w'} {v = v} same_value before after h =
    subst (λ y. Stored o app env key value' origin w' y) after
      (subst (λ x. Stored o app env key value' origin x v) before
        (subst (λ z. Stored o app env key z origin w v) same_value h))

run_set-Stored :
    (o : Outside) (t : Terminal) (args : List Bytes) (origin : Origin) (at : Target) (raw : Bytes)
    (s s1 : Session)
    → parse_secret_args (codes "set") args ≡ ok (origin, at)
    → t.stdin_is_terminal ≡ false
    → t.piped ≡ ok raw
    → run_set o t args s ≡ (ok tt, s1)
    → Stored o at.app at.env at.key (trim_line_end raw) origin s.world s1.world
unfolding run_set print
run_set-Stored o t args origin at raw s s1 parsed pipe read h =
    let h1 = sym (returns_run (parse_secret_args (codes "set") args) (origin, at) _ s parsed) ∙ h in
    let (value, s2, typed, h2) = bind-eq-ok (secret_input t at.key) _ s h1 in
    let (same_value, same_session) = piped_value t at.key raw value s s2 pipe read typed in
    let (u, s3, ran, h3) =
      bind-eq-ok (on_store (set_secret o at.app at.env at.key value origin)) _ s2 h2 in
    let (stored, _) = on_store-eq-ok (set_secret o at.app at.env at.key value origin) s2 s3 u ran in
    moved o at.app at.env at.key origin same_value (ap (λ (x : Session). x.world) same_session)
      (ap (λ (p : Result (Unit {0}) × Session). p.1.world) h3)
      (at_end (λ _ v. Stored o at.app at.env at.key value origin s2.world v) _ u s3.world stored
        (set_secret-Stored o at.app at.env at.key value origin s2.world))

-- A namespace's name is no flag.
name_is_positional : (name : Bytes) → matches_name name ≡ true → read_argument name ≡ positional
unfolding matches_name read_argument
name_is_positional [] h = cc
name_is_positional (c ∷ []) h = refl
name_is_positional (c ∷ d ∷ cs) h = ground arith

get_flags :
    (parse_int : ParseInt) (app env key : Bytes)
    → matches_name app ≡ true
    → parse_flags parse_int [] [] (app ∷ env ∷ key ∷ []) ≡ ok ([], app ∷ env ∷ key ∷ [])
unfolding parse_flags
get_flags parse_int app env key h = rw (parse_flags, name_is_positional app h) refl

-- What `get` prints, from what ReadEnv returns.
pub run_get_prints :
    (o : Outside) (parse_int : ParseInt) (app env key : Bytes) (s : Session) (m : Values)
    (meta : EnvManifest) (w : World) (x : Bytes)
    → matches_name app ≡ true
    → read_env o app env s.world ≡ (ok (m, meta), w)
    → get m key ≡ some x
    → run_get o parse_int (app ∷ env ∷ key ∷ []) s
      ≡ (ok tt, record s { world = w; stdout = s.stdout ++ (x ++ codes "\n") })
unfolding run_get get_from print
run_get_prints o parse_int app env key s m meta w x named read found =
    returns_run (parse_flags parse_int [] [] (app ∷ env ∷ key ∷ [])) ([], app ∷ env ∷ key ∷ []) _ s
      (get_flags parse_int app env key named)
    ∙ bind_run (on_store (read_env o app env)) _ s (record s { world = w }) (m, meta)
        (on_store_run (read_env o app env) s (m, meta) w read)
    ∙ ap (λ (v : Option Bytes). print_value app env key v (record s { world = w })) found

-- A reader whose recipient is among those a text was encrypted to decrypts it.
abbrev pub Opens : Outside → Bytes → Type 0
Opens o me =
    (n : ℕ) (recipients : List Bytes) (plain cipher : Bytes)
    → mem me recipients ≡ true
    → o.encrypt n recipients plain ≡ ok cipher
    → o.decrypt cipher ≡ ok plain

Stored-read :
    (o : Outside) (app env key value me : Bytes) (origin : Origin) (w v w' : World)
    (values : Values) (meta : EnvManifest)
    → Stored o app env key value origin w v
    → read_env o app env w ≡ (ok (values, meta), w')
    → Opens o me
    → mem me meta.recipients ≡ true
    → All (Fits (put values key value)) (keys (put values key value))
    → next_fails v.faults ≡ false
    → (m : Values) × (now : EnvManifest) × (read_env o app env v ≡ (ok (m, now), after_write v))
      × ((k : Bytes) → get m k ≡ get (put values key value) k)
Stored-read o app env key value me origin w v w' values meta st read opens granted fits free =
    (found.0, found.1, found.2, λ k. found.4 k ∙ ap (λ u. get (put u key value) k) same_values)
  where
    same : ◌≡◌ {A = Values × EnvManifest} (st.values, st.meta) (values, meta)
    same = ok_inverse (ap (λ (p : Result (Values × EnvManifest) × World). p.0) (sym st.read ∙ read))

    same_values : st.values ≡ values
    same_values = ap (λ (p : Values × EnvManifest). p.0) same

    same_meta : st.meta ≡ meta
    same_meta = ap (λ (p : Values × EnvManifest). p.1) same

    found :
        (m : Values) × (now : EnvManifest) × (read_env o app env v ≡ (ok (m, now), after_write v))
        × (now.version ≡ (stamped st.meta st.time st.meta.version).version)
        × ((k : Bytes) → get m k ≡ get (put st.values key value) k)
    found =
        read_env-Committed o
          (inputs_of app env st.meta st.time (
            assign key value origin
              (record { meta = st.meta; values = st.values; origins = st.origins })))
          st.committing v (put st.values key value)
          (λ n plain cipher.
            opens n st.meta.recipients plain cipher
              (ap (λ (x : EnvManifest). mem me x.recipients) same_meta ∙ granted))
          st.names.0 st.names.1 refl
          (subst (λ u. All (Fits (put u key value)) (keys (put u key value))) (sym same_values)
            fits)
          st.committed free

-- Behind a `set` of a piped value that succeeded, `get` of any key of the namespace prints the value
-- that the key then has: the text of the pipe without its line ends at the key that was set, and
-- what ReadEnv returned before at every other. The reader's lock is granted, the reader is one of
-- the recipients, and the keys' lines are shorter than the scanner's buffer.
pub run_get-run_set :
    (o : Outside) (t : Terminal) (parse_int : ParseInt) (args : List Bytes) (origin : Origin)
    (at : Target) (raw me : Bytes) (s s1 : Session) (values : Values) (meta : EnvManifest)
    (w' : World) (key x : Bytes)
    → parse_secret_args (codes "set") args ≡ ok (origin, at)
    → t.stdin_is_terminal ≡ false
    → t.piped ≡ ok raw
    → read_env o at.app at.env s.world ≡ (ok (values, meta), w')
    → Opens o me
    → mem me meta.recipients ≡ true
    → All
        (Fits (put values at.key (trim_line_end raw)))
        (keys (put values at.key (trim_line_end raw)))
    → run_set o t args s ≡ (ok tt, s1)
    → next_fails s1.world.faults ≡ false
    → get (put values at.key (trim_line_end raw)) key ≡ some x
    → run_get o parse_int (at.app ∷ at.env ∷ key ∷ []) s1
      ≡ (ok tt, record s1 { world = after_write s1.world; stdout = s1.stdout ++ (x ++ codes "\n") })
run_get-run_set o t parse_int args origin at raw me s s1 values meta w' key x parsed pipe piped read
      opens granted fits run free found =
    let st = run_set-Stored o t args origin at raw s s1 parsed pipe piped run in
    let (m, now, read_back, same) =
      Stored-read o at.app at.env at.key (trim_line_end raw) me origin s.world s1.world w' values
        meta st read opens granted fits free in
    run_get_prints o parse_int at.app at.env key s1 m now (after_write s1.world) x
      (validate_name-tests (codes "app") at.app st.names.0).0 read_back (same key ∙ found)
