-- ===== src/Peer/Ping.antt =====
-- internal/peer/heartbeat.go: whether the peers answer, and which versions they have.
pub mod Refines
use thimble.Base.{
  ℕ, suc, ◌+◌, ◌*◌, length, Bool, Option, none, some, List, [], ◌∷◌, ◌++◌, if◌then◌else◌, ◌==◌,
  Bytes, codes, equal, reverse,
}
use thimble.Base.Dict.{Dict, get, put}
use thimble.Base.Number.{ℤ}
use thimble.World.{File, missing, corrupt, holds}
use thimble.Peer.{Peer, split_target}
use thimble.Peer.Network.{Network, Ran, Resolved, at, not_found, RemoteManifest}
use thimble.Peer.Push.{second, resolve_rsync, outcome_of}
use thimble.Peer.Health.{PeerHealth, Disk, truncate_error, record_ping_result, record_push_failure}

-- Health, or Err
pub data PingResult : Type 0 where
  healthy : PeerHealth → PingResult
  failed : Bytes → PingResult

abbrev pub default_ping_timeout : ℕ
default_ping_timeout = 10 * second

-- The error, if there is one, of the n-th program, which is ssh.
unfoldable pub run_ssh_true : Network → ℕ → Bytes → Option Bytes
run_ssh_true net n host =
    let bin = net.getenv (codes "THIMBLE_SSH_BINARY") in
    elim (net.look_path (if equal bin [] then codes "ssh" else bin)) [
      | not_found e ↦ some (codes "ssh not found on PATH: " ++ e)
      | at path ↦ outcome_of 80 (
          net.run n default_ping_timeout path (
            codes "-o"
            ∷ codes "BatchMode=yes"
            ∷ codes "-o"
            ∷ codes "ConnectTimeout=5"
            ∷ host
            ∷ codes "true"
            ∷ []))
    ]

-- out[app+"/"+env] = version
unfoldable pub flatten_environments : Bytes → Dict ℤ → Dict ℤ → Dict ℤ
flatten_environments app [] out = out
flatten_environments app ((env, version) ∷ rest) out =
    flatten_environments app rest (put out (app ++ (b'/' ∷ env)) version)

unfoldable pub flatten_versions : RemoteManifest → Dict ℤ → Dict ℤ
unfolding flatten_environments
flatten_versions [] out = out
flatten_versions ((app, environments) ∷ rest) out =
    flatten_versions rest (flatten_environments app environments out)

pub data Fetched : Type 0 where
  versions : Dict ℤ → Fetched
  fetch_failed : Bytes → Fetched

unfoldable pub parse_manifest_versions : Network → ℕ → Fetched
unfolding flatten_versions
parse_manifest_versions net n = elim (net.fetched n) [
  | holds m ↦ versions (flatten_versions m [])
  | missing ↦ fetch_failed (net.read_failure n)
  | corrupt ↦ fetch_failed (net.read_failure n)
]

abbrev drop_slash : Bytes → Bytes
drop_slash [] = []
drop_slash (c ∷ cs) = if c == b'/' then reverse cs else reverse (c ∷ cs)

-- strings.TrimSuffix(target, "/") + "/thimble.json"
unfoldable pub remote_manifest : Bytes → Bytes
remote_manifest target = drop_slash (reverse target) ++ codes "/thimble.json"

-- the n-th program is rsync, which copies into the temporary file
unfoldable pub fetch_from : Network → ℕ → Bytes → Bytes → Fetched
unfolding parse_manifest_versions remote_manifest
fetch_from net n rsync target = elim (net.temp_failure n) [
  | some e ↦ fetch_failed e
  | none ↦
      elim (outcome_of 80 (
        net.run n default_ping_timeout rsync
          (codes "-q" ∷ remote_manifest target ∷ net.temp_name n ∷ []))) [
            | some e ↦ fetch_failed e
            | none ↦ parse_manifest_versions net n
          ]
]

unfoldable pub fetch_remote_versions : Network → ℕ → Bytes → Fetched
unfolding fetch_from
fetch_remote_versions net n target = elim (resolve_rsync net) [
  | not_found e ↦ fetch_failed e
  | at rsync ↦ fetch_from net n rsync target
]

-- Ping, whose programs are the n-th and the next, with a look at the clock behind them.
unfoldable pub ping : Network → ℕ → Peer → PingResult
unfolding run_ssh_true fetch_remote_versions
ping net n p = elim (split_target p.target) [
  | none ↦ failed (codes "malformed peer target")
  | some (host, path) ↦ elim (run_ssh_true net n host) [
    | some e ↦ failed (codes "ssh: " ++ e)
    | none ↦ elim (fetch_remote_versions net (suc n) p.target) [
      | fetch_failed e ↦ failed (codes "manifest read: " ++ e)
      | versions v ↦ healthy (record {
        last_seen = some (net.clock (suc (suc n)));
        last_error = [];
        manifest_versions = v;
      })
    ]
  ]
]

-- results[p.Name] = Ping(ctx, p), for every peer; a ping reads and changes nothing here, so that
-- pings that run at once have the results of pings in turn.
unfoldable pub ping_each : Network → ℕ → List Peer → Dict PingResult
unfolding ping
ping_each net n [] = []
ping_each net n (p ∷ ps) = put (ping_each net (suc (suc (suc n))) ps) p.name (ping net n p)

-- the errors of recording are ignored
unfoldable pub write_ping_result : Bytes → PingResult → Disk → Disk
write_ping_result name (failed e) d = (record_push_failure name e d).1
write_ping_result name (healthy h) d = (record_ping_result name h d).1

-- the last loop of PingAll; Go ranges over the map in any order
unfoldable pub write_results : Dict PingResult → Disk → Disk
unfolding write_ping_result
write_results [] d = d
write_results ((name, r) ∷ rest) d = write_results rest (write_ping_result name r d)

-- PingAll, for an order of the results that Go may choose
unfoldable pub ping_all :
    Network
    → (Dict PingResult → Dict PingResult)
    → Option (List Peer)
    → Disk
    → Dict PingResult × Disk
unfolding ping_each write_results
ping_all net order none d = ([], d)
ping_all net order (some peers) d =
    let results = ping_each net d.effects peers in
    (results, write_results (order results) (record d { effects = d.effects + 3 * length peers }))
