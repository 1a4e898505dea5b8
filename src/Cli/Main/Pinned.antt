-- ===== src/Cli/Main/Pinned.antt =====
-- What a pin on the age program promises of a whole run.
use thimble.Base.{
  ◌≡◌, refl, sym, ap, ◌∙◌, false, some, List, [], ◌∷◌, ◌⊎◌, inl, inr, Bool-cases, Bytes, codes,
  equal, equal_iff,
}
use thimble.Base.Space.{trim_space}
use thimble.Errors.{Result, ok, err, ok_inverse, Result-cases}
use thimble.Age.{file_sha256, resolve}
use thimble.Age.Safe.{resolve-eq-ok}
use thimble.Catalog.{Selection}
use thimble.Cli.Terminal.{Session, returns, print, proceed, ◌>>=◌}
use thimble.Cli.Flags.{Given}
use thimble.Cli.Selection.{require_managed_store}
use thimble.Cli.Main.{
  CliConfig, Host, configure, with_flags, is_version_flag, parse_top_flags, dispatch_with,
  run_command, run_configured, run,
}

-- The store and the files of the peers are as they were.
abbrev pub Untouched : Session → Session → Type 0
Untouched before after = (after.world ≡ before.world) × (after.disk ≡ before.disk)

-- The variable THIMBLE_AGE_SHA256
abbrev pub pin_of : Host → Bytes
pin_of host = host.places.getenv (codes "THIMBLE_AGE_SHA256")

-- The run `r` is that of one command, which has age at a path whose file has the pinned digest.
pub record RanPinned (host : Host) (args : List Bytes) (s : Session)
    (r : Result (Unit {0}) × Session) : Type 0 where
  pub cfg : CliConfig
  pub cmd : Bytes
  pub rest : List Bytes
  pub path : Bytes
  pub asked : parse_top_flags host args ≡ ok (cfg, cmd ∷ rest)
  pub found : resolve host.os cfg.age_binary cfg.age_sha256 ≡ ok path
  pub digest : file_sha256 host.os path ≡ some (host.os.fold (trim_space (pin_of host)))
  pub ran : r ≡ dispatch_with host cfg path cmd rest s

-- The run `r` is that of a command on the catalog of stores, which runs no age program.
pub record RanStore (host : Host) (args : List Bytes) (s : Session)
    (r : Result (Unit {0}) × Session) : Type 0 where
  pub cfg : CliConfig
  pub rest : List Bytes
  pub asked : parse_top_flags host args ≡ ok (cfg, codes "store" ∷ rest)
  pub ran : r ≡ host.store cfg rest s

configure-pin :
    (host : Host) (given : Given) (rest rest' : List Bytes) (r : Result Selection) (cfg : CliConfig)
    → configure host given rest r ≡ ok (cfg, rest')
    → cfg.age_sha256 ≡ pin_of host
configure-pin host given rest rest' (err e) cfg h = cc
configure-pin host given rest rest' (ok selection) cfg h =
    ap (λ (p : CliConfig × List Bytes). p.0.age_sha256) (sym (ok_inverse h))

with_flags-pin :
    (host : Host) (r : Result (Given × List Bytes)) (rest : List Bytes) (cfg : CliConfig)
    → with_flags host r ≡ ok (cfg, rest)
    → cfg.age_sha256 ≡ pin_of host
with_flags-pin host (err e) rest cfg h = cc
with_flags-pin host (ok (given, args)) rest cfg h = configure-pin host given args rest _ cfg h

parse_top_flags-pin :
    (host : Host) (args rest : List Bytes) (cfg : CliConfig)
    → parse_top_flags host args ≡ ok (cfg, rest)
    → cfg.age_sha256 ≡ pin_of host
unfolding parse_top_flags
parse_top_flags-pin host args rest cfg h = with_flags-pin host _ rest cfg h

resolve-digest :
    (host : Host) (cfg : CliConfig) (path : Bytes)
    → equal (pin_of host) [] ≡ false
    → cfg.age_sha256 ≡ pin_of host
    → resolve host.os cfg.age_binary cfg.age_sha256 ≡ ok path
    → file_sha256 host.os path ≡ some (host.os.fold (trim_space (pin_of host)))
resolve-digest host cfg path pinned same h =
    elim (resolve-eq-ok host.os cfg.age_binary cfg.age_sha256 path h) [
      | inl free ↦ let empty = (equal_iff (pin_of host) []).1 (sym same ∙ free) in absurd (cc)
      | inr checked ↦ checked ∙ ap (λ (p : Bytes). some (host.os.fold (trim_space p))) same
    ]

module _ (host : Host) (args : List Bytes) (s : Session)
    (pinned : equal (pin_of host) [] ≡ false) where
  abbrev Outcome : Result (Unit {0}) × Session → Type 0
  Outcome r = Untouched s r.1 ⊎ (RanStore host args s r ⊎ RanPinned host args s r)

  commanded :
      (cfg : CliConfig) (cmd : Bytes) (rest : List Bytes)
      → parse_top_flags host args ≡ ok (cfg, cmd ∷ rest)
      → Outcome (run_command host cfg cmd rest s)
  unfolding run_command ◌>>=◌ returns
  commanded cfg cmd rest asked =
      elim (Result-cases (require_managed_store host.places cfg.selection cmd)) [
        | inl (e, absent) ↦ inl (rw (run_command, absent) (refl, refl))
        | inr (u, present) ↦ elim (Result-cases (resolve host.os cfg.age_binary cfg.age_sha256)) [
          | inl (e, refused) ↦ inl (rw (run_command, present, refused) (refl, refl))
          | inr (path, found) ↦ inr (
              inr (record {
                cfg = cfg;
                cmd = cmd;
                rest = rest;
                path = path;
                asked = asked;
                found = found;
                digest =
                    resolve-digest host cfg path pinned
                      (parse_top_flags-pin host args (cmd ∷ rest) cfg asked) found;
                ran = rw (run_command, present, found) refl;
              }))
        ]
      ]

  configured :
      (cfg : CliConfig) (rest : List Bytes)
      → parse_top_flags host args ≡ ok (cfg, rest)
      → Outcome (run_configured host (cfg, rest) s)
  unfolding run_configured print ◌>>=◌ returns
  configured cfg [] asked = inl (refl, refl)
  configured cfg (cmd ∷ rest) asked = elim (Bool-cases (equal cmd (codes "version"))) [
    | inl asks ↦ inl (rw (run_configured, asks) (refl, refl))
    | inr other ↦ elim (Bool-cases (equal cmd (codes "store"))) [
      | inl catalog ↦ inr (
          inl (record {
            cfg = cfg;
            rest = rest;
            asked =
                asked
                ∙ ap (λ (c : Bytes). ok (cfg, c ∷ rest))
                    ((equal_iff cmd (codes "store")).0 catalog);
            ran = rw (run_configured, other, catalog) refl;
          }))
      | inr command ↦ rw (run_configured, other, command) (commanded cfg cmd rest asked)
    ]
  ]

  parsed :
      (r : Result (CliConfig × List Bytes))
      → parse_top_flags host args ≡ r
      → Outcome (proceed r (run_configured host) s)
  parsed (err e) h = inl (refl, refl)
  parsed (ok (cfg, rest)) h = configured cfg rest h

-- Where THIMBLE_AGE_SHA256 is set, a run of the program leaves the store and the files of the peers
-- as they were, or is the run of a command on the catalog of stores, or is the run of one other
-- command with age at a path whose file has that SHA-256.
pub run-Pinned :
    (host : Host) (args : List Bytes) (s : Session)
    → equal (pin_of host) [] ≡ false
    → Untouched s (run host args s).1
      ⊎ (RanStore host args s (run host args s) ⊎ RanPinned host args s (run host args s))
unfolding run print ◌>>=◌ returns
run-Pinned host args s pinned = elim (Bool-cases (is_version_flag args)) [
  | inl version ↦ inl (rw (run, version) (refl, refl))
  | inr other ↦ rw (run, other) (parsed host args s pinned (parse_top_flags host args) refl)
]
