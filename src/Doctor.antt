-- ===== src/Doctor.antt =====
-- internal/doctor: the results of checks, and the check of the peers (doctor.go, check_peers.go).
pub mod Peers
use thimble.Base.{
  ℕ, Bool, true, false, not, ◌&&◌, ◌||◌, Option, none, some, List, [], ◌∷◌, ◌++◌, if◌then◌else◌,
  Bytes, codes, equal, length,
}
use thimble.Base.Dict.{get}
use thimble.Base.Sort.{bytes_lt}
use thimble.Errors.{Error, Result, ok, err}
use thimble.Peer.{Peer}
use thimble.Peer.File.{load_peers}
use thimble.Peer.Health.{PeerHealth, State, Disk, load_state, health_or_blank}

pub data Status : Type 0 where
  passing warning failing : Status

-- Detail, by what its text says.
pub data Detail : Type 0 where
  peers_unreadable state_unreadable : Error → Detail
  no_peers never_contacted : Detail
  contact_failed : Bytes → Detail
  seen_at stale_since : Bytes → Detail
  peers_configured : Status → ℕ → Detail

pub record CheckResult : Type 0 where
  pub name : Bytes
  pub status : Status
  pub detail : Detail

abbrev pub is_failing : Status → Bool
is_failing passing = false
is_failing warning = false
is_failing failing = true

-- HasFailures
unfoldable pub has_failures : List CheckResult → Bool
has_failures [] = false
has_failures (c ∷ cs) = is_failing c.status || has_failures cs

unfoldable pub worsen : Status → Status → Status
worsen failing b = failing
worsen warning failing = failing
worsen warning passing = warning
worsen warning warning = warning
worsen passing b = b

-- Whether a time lies more than peerStaleAfter before now: time.Now and Sub of package time.
abbrev pub IsStale : Type 0
IsStale = Bytes → Bool

abbrev check_name : Peer → Bytes
check_name p = codes "peer[" ++ (p.name ++ codes "]")

-- a contact without an error
abbrev judge_time : IsStale → Peer → Option Bytes → CheckResult
judge_time stale p none = record { name = check_name p; status = failing; detail = never_contacted }
judge_time stale p (some t) =
    if stale t
    then record { name = check_name p; status = warning; detail = stale_since t }
    else record { name = check_name p; status = passing; detail = seen_at t }

unfoldable pub classify_peer : IsStale → Peer → PeerHealth → CheckResult
classify_peer stale p h =
    if equal h.last_error []
    then judge_time stale p h.last_seen
    else record { name = check_name p; status = failing; detail = contact_failed h.last_error }

-- sort.Slice by name
unfoldable pub insert_peer : Peer → List Peer → List Peer
insert_peer p [] = p ∷ []
insert_peer p (q ∷ qs) =
    let later = insert_peer p qs in if bytes_lt q.name p.name then q ∷ later else p ∷ q ∷ qs

unfoldable pub sort_peers : List Peer → List Peer
unfolding insert_peer
sort_peers [] = []
sort_peers (p ∷ ps) = insert_peer p (sort_peers ps)

unfoldable pub classify_all : IsStale → State → List Peer → List CheckResult
unfolding classify_peer
classify_all stale s [] = []
classify_all stale s (p ∷ ps) =
    classify_peer stale p (health_or_blank (get s.peers p.name)) ∷ classify_all stale s ps

unfoldable pub worst : Status → List CheckResult → Status
unfolding worsen
worst found [] = found
worst found (c ∷ cs) = worst (worsen found c.status) cs

unfoldable pub build_peer_check_results : IsStale → List Peer → State → List CheckResult
unfolding sort_peers classify_all worst
build_peer_check_results stale peers s =
    let results = classify_all stale s (sort_peers peers) in
    record {
      name = codes "peers";
      status = worst passing results;
      detail = peers_configured (worst passing results) (length peers);
    }
    ∷ results

abbrev alone : Status → Detail → List CheckResult
alone status detail = record { name = codes "peers"; status = status; detail = detail } ∷ []

abbrev check_state : IsStale → List Peer → Result State → List CheckResult
check_state stale [] loaded = alone passing no_peers
check_state stale (p ∷ ps) (err e) = alone failing (state_unreadable e)
check_state stale (p ∷ ps) (ok s) = build_peer_check_results stale (p ∷ ps) s

unfoldable pub check_peers : IsStale → Disk → List CheckResult
unfolding build_peer_check_results
check_peers stale d = elim (load_peers d.peers_file) [
  | err e ↦ alone failing (peers_unreadable e)
  | ok peers ↦ check_state stale peers (load_state d.state)
]
