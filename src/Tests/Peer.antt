-- ===== src/Tests/Peer.antt =====
-- The peers of one leader, at concrete lists and networks.
use thimble.Base.{
  ◌≡◌, refl, ◌↔◌, true, false, none, some, List, [], ◌∷◌, if◌then◌else◌, ◌==◌, arith, codes, All,
  all_of, contains, cut_at, equal, has_prefix,
}
use thimble.Base.Dict.{get, put, keys}
use thimble.Base.Utf8.{utf8}
use thimble.Base.Number.{pos}
use thimble.Base.Space.{trim_space, solid}
use thimble.Errors.{ok}
use thimble.World.{missing, holds}
use thimble.Peer.{
  Peer, validate_peer, illegal_in_name, forbidden_in_target, has_host_and_path, find_peer, add_peer,
  remove_peer,
}
use thimble.Peer.File.{load_peers, encode_peers}
use thimble.Peer.Members.{Reached, loaded, added, Reached-IsMembership}
use thimble.Peer.Members.Valid.{IsMembership}
use thimble.Peer.RoundTrip.{IsPrintable, load_peers-encode_peers}
use thimble.Peer.Network.{Network, at}
use thimble.Peer.Health.{
  Disk, blank_health, load_state, with_version, record_push_failure, mutate_state, save_state,
  json_peers, json_entries, edit_health, truncate_error,
}
use thimble.Peer.Health.Json.{IsUtf8}
use thimble.Peer.Health.View.{file_names, view, Calm}
use thimble.Peer.Push.{push_changes, resolve_rsync}
use thimble.Peer.Push.Refines.{Replicated, contacts_with, push_changes-Replicated}
use thimble.Peer.Push.Bounds.{AllShort, push_changes-AllShort}
use thimble.Peer.Ping.{ping_all}
use thimble.Peer.Ping.Refines.{IsOrder, seen_after, ping_all-seen}
use thimble.Base.Sort.{bytes_lt, sort_strings, insert_sorted}
use thimble.Doctor.{
  has_failures, check_peers, build_peer_check_results, sort_peers, insert_peer, classify_all,
  classify_peer, worst, worsen,
}
use thimble.Doctor.Peers.{IsReached, check_peers_iff}

abbrev east : Peer
east = record { name = codes "east"; target = codes "ops@east.example:/srv/secrets" }

abbrev west : Peer
west = record { name = codes "west"; target = codes "west.example:/srv/secrets" }

-- The first program runs, the later ones fail.
abbrev pub network : Network
network = record {
  getenv = λ name. [];
  look_path = λ name. at name;
  run = λ n timeout path args. record {
    output = codes "connection refused";
    failure = if n == 0 then none else some (codes "exit status 255");
  };
  fetched = λ n. holds ((codes "api", (codes "prod", pos 3) ∷ []) ∷ []);
  temp_failure = λ n. none;
  temp_name = λ n. codes "/tmp/manifest.json";
  read_failure = λ n. codes "EOF";
  clock = λ n. codes "2026-05-01T00:00:00Z";
}

abbrev pub disk : Disk
disk = record { peers_file = none; state = missing; stderr = []; faults = []; effects = 0 }

abbrev both : List Peer
both = east ∷ west ∷ []

both_reached : Reached both
unfolding load_peers add_peer validate_peer equal trim_space contains illegal_in_name
    forbidden_in_target has_host_and_path cut_at has_prefix find_peer
both_reached =
    added (east ∷ []) both west (added [] (east ∷ []) east (loaded none [] refl) refl) refl

Reached-IsMembership_example : IsMembership both
Reached-IsMembership_example = Reached-IsMembership both both_reached

removed_east : remove_peer both (codes "east") ≡ ok (west ∷ [])
unfolding remove_peer equal
removed_east = refl

both_fine : All IsPrintable both
unfolding all_of solid
both_fine = (record { name = refl; target = refl }, (record { name = refl; target = refl }, tt))

load_peers-encode_peers_example : load_peers (some (encode_peers (λ s. s) both)) ≡ ok both
load_peers-encode_peers_example = load_peers-encode_peers (λ s. s) both both_reached both_fine

disk_ready : Calm disk
unfolding view utf8 file_names
disk_ready = record { readable = λ e. cc; named = tt; decoded = λ j. refl; no_faults = refl }

both_named : All (λ p. IsUtf8 p.name) both
unfolding utf8
both_named = (refl, (refl, tt))

push_changes-Replicated_example :
    Replicated
      (contacts_with network (codes "/store") 0 both (resolve_rsync network))
      disk
      (push_changes network (some both) (codes "/store") disk)
push_changes-Replicated_example =
    push_changes-Replicated network both (codes "/store") disk both_named disk_ready

-- A byte that is not UTF-8 is kept as U+FFFD.
kept_as_json :
    (record_push_failure (codes "west") (b'a' ∷ 255 ∷ []) disk).1.state
    ≡ holds (record {
      version = pos 1;
      peers = (codes "west", record blank_health { last_error = b'a' ∷ 239 ∷ 191 ∷ 189 ∷ [] }) ∷ [];
    })
unfolding record_push_failure mutate_state load_state save_state with_version json_peers
    json_entries edit_health truncate_error utf8 get put keys sort_strings insert_sorted equal
kept_as_json = refl

disk_short : AllShort disk
unfolding view utf8
disk_short j = (refl, omega arith)

push_changes-AllShort_example : AllShort (push_changes network (some both) (codes "/store") disk).1
push_changes-AllShort_example =
    push_changes-AllShort network (some both) (codes "/store") disk disk_short

as_listed : IsOrder (λ rs. rs)
as_listed = record { same_entries = λ rs j. refl; each_once = λ rs u. u }

ping_all-seen_example :
    view (ping_all network (λ rs. rs) (some both) disk).1.state (codes "west")
    ≡ seen_after (get (ping_all network (λ rs. rs) (some both) disk).0 (codes "west")) blank_health
unfolding view
ping_all-seen_example =
    ping_all-seen network (λ rs. rs) both disk as_listed both_named disk_ready (codes "west")

-- east was seen, west refused
abbrev checked_disk : Disk
checked_disk = record disk {
  peers_file = some (encode_peers (λ s. s) both);
  state = holds record {
    version = pos 1;
    peers =
        (codes "east", record blank_health { last_seen = some (codes "2026-05-01T00:00:00Z") })
        ∷ (codes "west", record blank_health { last_error = codes "exit status 255" })
        ∷ [];
  };
}

check_peers_iff_example :
    (has_failures (check_peers (λ t. false) checked_disk) ≡ false)
    ↔ All (λ p. IsReached (view checked_disk.state p.name)) both
check_peers_iff_example =
    check_peers_iff (λ t. false) checked_disk both
      (load_peers-encode_peers (λ s. s) both both_reached both_fine) (λ e. cc)

west_fails : has_failures (check_peers (λ t. false) checked_disk) ≡ true
unfolding has_failures check_peers load_peers load_state build_peer_check_results sort_peers
    insert_peer classify_all classify_peer equal with_version get bytes_lt worst worsen
west_fails = rw (check_peers, load_peers-encode_peers (λ s. s) both both_reached both_fine) refl
