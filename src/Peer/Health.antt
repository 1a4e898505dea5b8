-- ===== src/Peer/Health.antt =====
-- internal/peer/state.go: the file that holds the result of the latest contact with each peer.
pub mod Json
pub mod View
pub mod Kept
use thimble.Base.{
  ℕ, suc, Bool, true, false, Option, none, some, List, [], ◌∷◌, ◌++◌, leb, ◌==◌, if◌then◌else◌,
  Bytes, codes, length, take,
}
use thimble.Base.Utf8.{utf8}
use thimble.Base.Dict.{Dict, get, put, keys, has}
use thimble.Base.Sort.{sort_strings}
use thimble.Base.Number.{ℤ, pos, negsuc}
use thimble.Errors.{Result, ok, err, undecodable_state, write_failed}
use thimble.World.{File, missing, corrupt, holds, next_fails, later_faults}

-- `last_seen` is `none` for the zero time; times are texts.
pub record PeerHealth : Type 0 where
  pub last_seen : Option Bytes
  pub last_error : Bytes
  pub manifest_versions : Dict ℤ

pub record State : Type 0 where
  pub version : ℤ
  pub peers : Dict PeerHealth

-- The files of this package below the store's root, what it has printed, the outcomes of the
-- writes to come, and the number of programs run and of looks at the clock.
pub record Disk : Type 0 where
  pub peers_file : Option Bytes
  pub state : File State
  pub stderr : List Bytes
  pub faults : List Bool
  pub effects : ℕ

abbrev is_zero : ℤ → Bool
is_zero (pos n) = n == 0
is_zero (negsuc n) = false

-- if s.Version == 0 { s.Version = 1 }; a nil map is empty already
unfoldable pub with_version : State → State
with_version s = if is_zero s.version then record s { version = pos 1 } else s

unfoldable pub load_state : File State → Result State
unfolding with_version
load_state missing = ok (record { version = pos 1; peers = [] })
load_state corrupt = err undecodable_state
load_state (holds s) = ok (with_version s)

-- What json.MarshalIndent and then json.Unmarshal make of a peer's health: the error as UTF-8. The
-- times and the versions' names are UTF-8 already.
abbrev pub as_json : PeerHealth → PeerHealth
as_json h = record h { last_error = utf8 h.last_error }

abbrev pub blank_health : PeerHealth
blank_health = record { last_seen = none; last_error = []; manifest_versions = [] }

-- h := s.Peers[peerName], the zero value where there is none
abbrev pub health_or_blank : Option PeerHealth → PeerHealth
health_or_blank none = blank_health
health_or_blank (some h) = h

-- the entries of `peers` with these names, written in this order: a later one replaces an earlier one
-- whose name is the same in UTF-8
unfoldable pub json_entries : Dict PeerHealth → List Bytes → Dict PeerHealth
json_entries peers [] = []
json_entries peers (name ∷ rest) =
    let later = json_entries peers rest in
    if has later (utf8 name)
    then later
    else (utf8 name, as_json (health_or_blank (get peers name))) ∷ later

-- encoding/json writes a map in the order of its keys
unfoldable pub json_peers : Dict PeerHealth → Dict PeerHealth
unfolding json_entries
json_peers peers = json_entries peers (sort_strings (keys peers))

unfoldable pub save_state : State → Disk → Result (Unit {0}) × Disk
unfolding with_version json_peers
save_state s d =
    let d' = record d { faults = later_faults d.faults } in
    if next_fails d.faults then (err write_failed, d') else (
      ok tt,
      record d' { state = holds (with_version (record s { peers = json_peers s.peers })) },
    )

unfoldable pub mutate_state : (State → State) → Disk → Result (Unit {0}) × Disk
mutate_state mutator d = elim (load_state d.state) [
  | err e ↦ (err e, d)
  | ok s ↦ save_state (mutator s) d
]

-- s.Peers[peerName] = f(s.Peers[peerName])
unfoldable pub edit_health : Bytes → (PeerHealth → PeerHealth) → State → State
edit_health name f s = record s {
  peers = put s.peers name (f (health_or_blank (get s.peers name)));
}

unfoldable pub truncate_error : Bytes → ℕ → Bytes
truncate_error s max_len = if leb (length s) max_len then s else take max_len s ++ codes "..."

unfoldable pub record_push_success : Bytes → Bytes → Disk → Result (Unit {0}) × Disk
record_push_success name now =
    mutate_state (edit_health name (λ h. record h { last_seen = some now; last_error = [] }))

unfoldable pub record_push_failure : Bytes → Bytes → Disk → Result (Unit {0}) × Disk
record_push_failure name reason =
    mutate_state (edit_health name (λ h. record h { last_error = truncate_error reason 200 }))

unfoldable pub record_ping_result : Bytes → PeerHealth → Disk → Result (Unit {0}) × Disk
record_ping_result name result = mutate_state (edit_health name (λ h. result))
