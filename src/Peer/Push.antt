-- ===== src/Peer/Push.antt =====
-- internal/peer/push.go: the replication of the store to every peer.
pub mod Refines
pub mod Bounds
use thimble.Base.{
  ℕ, suc, ◌*◌, ◌%◌, ◌^◌, Bool, false, not, Option, none, some, List, [], ◌∷◌, ◌++◌, if◌then◌else◌,
  ◌==◌, Bytes, codes, equal, contains, reverse,
}
use thimble.Base.Number.{ℤ, pos, negsuc, atoi}
use thimble.Peer.{Peer}
use thimble.Peer.Network.{Network, Ran, Resolved, at, not_found}
use thimble.Peer.Health.{Disk, truncate_error, record_push_success, record_push_failure}

pub record PushError : Type 0 where
  pub peer : Bytes
  pub reason : Bytes

-- PushError.Error
unfoldable pub message : PushError → Bytes
message e = codes "peer push failed: " ++ (e.peer ++ (codes ": " ++ e.reason))

unfoldable pub resolve_rsync : Network → Resolved
resolve_rsync net =
    let bin = net.getenv (codes "THIMBLE_RSYNC_BINARY") in
    elim (net.look_path (if equal bin [] then codes "rsync" else bin)) [
      | at path ↦ at path
      | not_found e ↦ not_found (codes "rsync not found on PATH: " ++ e)
    ]

-- time.Second, in nanoseconds; a Duration is a 64-bit integer, written here without its sign
abbrev pub second : ℕ
second = 1000000000

abbrev pub default_push_timeout : ℕ
default_push_timeout = 30 * second

unfoldable pub timeout_of : Option ℤ → ℕ
timeout_of none = default_push_timeout
timeout_of (some (negsuc n)) = default_push_timeout
timeout_of (some (pos n)) = if n == 0 then default_push_timeout else (n * second) % 2 ^ 64

unfoldable pub push_timeout_from_env : Network → ℕ
unfolding timeout_of
push_timeout_from_env net =
    let v = net.getenv (codes "THIMBLE_PEER_PUSH_TIMEOUT") in
    if equal v [] then default_push_timeout else timeout_of (atoi v)

abbrev last_is_slash : Bytes → Bool
last_is_slash [] = false
last_is_slash (c ∷ cs) = c == b'/'

-- if !strings.HasSuffix(s, "/") { s += "/" }
unfoldable pub with_slash : Bytes → Bytes
with_slash s = if last_is_slash (reverse s) then s else s ++ codes "/"

-- the arguments of rsync; the two files of each leader never travel
unfoldable pub rsync_arguments : Bytes → Bytes → List Bytes
unfolding with_slash
rsync_arguments root target =
    codes "-av"
    ∷ codes "--delete"
    ∷ codes "--exclude=thimble.peers.toml"
    ∷ codes "--exclude=.peer-state.json"
    ∷ with_slash root
    ∷ with_slash target
    ∷ []

-- fmt.Errorf("%w: %s", err, truncateError(output, n))
unfoldable pub outcome_of : ℕ → Ran → Option Bytes
outcome_of limit r = elim r.failure [
  | none ↦ none
  | some e ↦ some (e ++ (codes ": " ++ truncate_error r.output limit))
]

-- The error, if there is one; the run is the n-th.
unfoldable pub push_one_peer : Network → ℕ → Bytes → Bytes → Bytes → ℕ → Option Bytes
unfolding rsync_arguments outcome_of
push_one_peer net n rsync root target timeout =
    if not (contains (λ c. c == b':') target)
    then some (codes "malformed peer target")
    else outcome_of 120 (net.run n timeout rsync (rsync_arguments root target))

-- one round of the loop, behind its call of pushOnePeer; the errors of recording are ignored
unfoldable pub note_outcome : Network → Peer → Option Bytes → Disk → Disk
note_outcome net p none d = (record_push_success p.name (net.clock d.effects) d).1
note_outcome net p (some reason) d =
    let line = message (record { peer = p.name; reason = reason }) ++ codes "\n" in
    (record_push_failure p.name reason (record d { stderr = d.stderr ++ (line ∷ []) })).1

abbrev pub add_failure : Peer → Option Bytes → List PushError → List PushError
add_failure p none later = later
add_failure p (some reason) later = record { peer = p.name; reason = reason } ∷ later

-- the loop of PushChanges
unfoldable pub push_each : Network → Bytes → Bytes → ℕ → List Peer → Disk → List PushError × Disk
unfolding note_outcome push_one_peer
push_each net rsync root timeout [] d = ([], d)
push_each net rsync root timeout (p ∷ ps) d =
    let outcome = push_one_peer net d.effects rsync root p.target timeout in
    let noted = note_outcome net p outcome (record d { effects = suc d.effects }) in
    let (failures, last) = push_each net rsync root timeout ps noted in
    (add_failure p outcome failures, last)

unfoldable pub push_peers : Network → Bytes → List Peer → Disk → List PushError × Disk
unfolding push_each
push_peers net root [] d = ([], d)
push_peers net root (p ∷ ps) d = elim (resolve_rsync net) [
  | not_found e ↦ (
    [],
    record d { stderr = d.stderr ++ ((codes "peer push skipped: " ++ (e ++ codes "\n")) ∷ []) },
  )
  | at rsync ↦ push_each net rsync root (push_timeout_from_env net) (p ∷ ps) d
]

-- PushChanges; without a manager it does nothing
unfoldable pub push_changes : Network → Option (List Peer) → Bytes → Disk → List PushError × Disk
unfolding push_peers
push_changes net none root d = ([], d)
push_changes net (some peers) root d = push_peers net root peers d
