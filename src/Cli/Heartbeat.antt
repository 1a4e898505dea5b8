-- ===== src/Cli/Heartbeat.antt =====
-- internal/cli/run_peer_status.go: contacting peers and showing what became of the contacts; and the
-- command `peer` of run_peer.go.
use thimble.Base.{
  ℕ, suc, ◌+◌, Bool, ◌||◌, Option, none, some, List, [], ◌∷◌, ◌++◌, ◌==◌, if◌then◌else◌, Bytes,
  codes, equal, join_with, map,
}
use thimble.Base.Decimal.{integer_text}
use thimble.Base.Dict.{Dict, get, put, keys}
use thimble.Base.Number.{ℤ, pos}
use thimble.Base.Sort.{sort_strings}
use thimble.Errors.{Result, ok, err, usage, unknown_command, pings_failed, peer_not_found}
use thimble.Outside.{Outside}
use thimble.Peer.{Peer, find_peer}
use thimble.Peer.File.{load_peers}
use thimble.Peer.Network.{Network}
use thimble.Peer.Health.{PeerHealth, State, Disk, health_or_blank, load_state}
use thimble.Peer.Push.{message}
use thimble.Peer.Ping.{PingResult, healthy, failed, ping, write_ping_result}
use thimble.Cli.Terminal.{Cmd, refuse, returns, ◌>>=◌, ◌>>◌, print, demand, print_lines}
use thimble.Cli.Peers.{
  Neighbours, no_peers, widest, split_flag, run_peer_add, run_peer_remove, run_peer_list,
  run_peer_join,
}

abbrev is_quiet : Bytes → Bool
is_quiet a = equal a (codes "--quiet") || equal a (codes "-q")

-- the name is empty where every peer is asked for
abbrev judge_ping : Result (Bool × List Bytes) → Result (Bytes × Bool)
judge_ping (err e) = err e
judge_ping (ok (quiet, [])) = ok ([], quiet)
judge_ping (ok (quiet, name ∷ [])) = ok (name, quiet)
judge_ping (ok (quiet, a ∷ b ∷ rest)) = err (usage (codes "peer ping"))

unfoldable pub parse_ping_args : List Bytes → Result (Bytes × Bool)
unfolding split_flag
parse_ping_args args = judge_ping (split_flag is_quiet args)

abbrev the_peer : Bytes → Option Peer → Result (List Peer)
the_peer name none = err (peer_not_found name)
the_peer name (some p) = ok (p ∷ [])

unfoldable pub select_ping_peers : List Peer → Bytes → Result (List Peer)
select_ping_peers peers name =
    if equal name [] then ok peers else the_peer name (find_peer peers name)

-- A ping takes two programs and a look at the clock.
unfoldable pub ping_selected : Network → List Peer → Dict PingResult → Disk → Dict PingResult × Disk
unfolding ping write_ping_result
ping_selected net [] results d = (results, d)
ping_selected net (p ∷ ps) results d =
    let r = ping net d.effects p in
    ping_selected net ps (put results p.name r)
      (write_ping_result p.name r (record d { effects = d.effects + 3 }))

unfoldable pub format_versions : Dict ℤ → Bytes
format_versions [] = codes "(no namespaces)"
format_versions (entry ∷ rest) =
    codes "versions="
    ++ join_with (codes ",")
        (map (λ k. k ++ (b':' ∷ integer_text (version_of k))) (sort_strings (keys (entry ∷ rest))))
  where
    version_of : Bytes → ℤ
    version_of k = elim (get (entry ∷ rest) k) [ none ↦ pos 0 | some v ↦ v ]

-- results[p.Name], whose zero value has no error and no versions
abbrev outcome_for : Option PingResult → PingResult
outcome_for none = healthy (record { last_seen = none; last_error = []; manifest_versions = [] })
outcome_for (some r) = r

-- The lines printed, and the number of failures.
abbrev judge_result : Bool → Peer → PingResult → List Bytes × ℕ → List Bytes × ℕ
judge_result quiet p (failed e) (lines, failures) = (
  (p.name ++ (codes "  FAIL  " ++ message (record { peer = p.name; reason = e }))) ∷ lines,
  suc failures,
)
judge_result quiet p (healthy h) (lines, failures) = (
  if quiet
      then lines
      else (p.name ++ (codes "  OK    " ++ format_versions h.manifest_versions)) ∷ lines,
  failures,
)

unfoldable pub emit_ping_results : Bool → Dict PingResult → List Peer → List Bytes × ℕ
emit_ping_results quiet results [] = ([], 0)
emit_ping_results quiet results (p ∷ ps) =
    judge_result quiet p (outcome_for (get results p.name)) (emit_ping_results quiet results ps)

abbrev contact : Network → List Peer → Cmd (Dict PingResult)
contact net peers s =
    let (results, d) = ping_selected net peers [] s.disk in (ok results, record s { disk = d })

unfoldable pub ping_peers : Network → Bool → List Peer → Cmd (Unit {0})
unfolding ping_selected emit_ping_results print_lines
ping_peers net quiet [] = no_peers
ping_peers net quiet (p ∷ ps) = do
  results ← contact net (p ∷ ps)
  let (lines, failures) = emit_ping_results quiet results (p ∷ ps)
  print_lines lines
  demand (failures == 0) (pings_failed failures)

unfoldable pub run_peer_ping : Neighbours → List Bytes → Cmd (Unit {0})
unfolding parse_ping_args ping_peers
run_peer_ping around args = do
  parsed ← returns (parse_ping_args args)
  peers ← (λ s. (load_peers s.disk.peers_file, s))
  chosen ← returns (select_ping_peers peers parsed.0)
  ping_peers around.net parsed.1 chosen

unfoldable pub render_last_seen : (Bytes → Bool) → Option Bytes → Bytes
render_last_seen is_stale none = codes "(never)"
render_last_seen is_stale (some t) = if is_stale t then t ++ codes " (stale)" else t

unfoldable pub render_last_error : Bytes → Bytes
render_last_error e = if equal e [] then codes "-" else e

abbrev row : Neighbours → ℕ → ℕ → Bytes → Bytes → Bytes → Bytes → Bytes
row around name_width target_width name target seen error =
    around.pad name_width name
    ++ (codes "  "
        ++ (around.pad target_width target
            ++ (codes "  " ++ (around.pad 25 seen ++ (codes "  " ++ error)))))

unfoldable pub print_status_table : Neighbours → State → List Peer → Cmd (Unit {0})
unfolding widest render_last_seen render_last_error print_lines
print_status_table around state peers = do
  let names = widest 4 (map (λ p. p.name) peers)
  let targets = widest 6 (map (λ p. p.target) peers)
  let line = λ (p : Peer).
      let h = health_or_blank (get state.peers p.name) in
      row around names targets p.name p.target (render_last_seen around.is_stale h.last_seen)
        (render_last_error h.last_error)
  print_lines (
      row around names targets (codes "name") (codes "target") (codes "last_seen")
        (codes "last_error")
      ∷ map line peers)

abbrev show_status : Neighbours → List Peer → State → Dict PeerHealth → Cmd (Unit {0})
show_status around [] state contacts = no_peers
show_status around (p ∷ ps) state [] =
    print (codes "no peers contacted yet; run: thimble peer ping\n")
show_status around (p ∷ ps) state (contact ∷ contacts) = print_status_table around state (p ∷ ps)

unfoldable pub run_peer_status : Neighbours → List Bytes → Cmd (Unit {0})
unfolding print_status_table
run_peer_status around (a ∷ rest) = refuse (usage (codes "peer status"))
run_peer_status around [] = do
  peers ← (λ s. (load_peers s.disk.peers_file, s))
  state ← (λ s. (load_state s.disk.state, s))
  show_status around peers state state.peers

-- runPeer
unfoldable pub run_peer : Outside → Neighbours → List Bytes → Cmd (Unit {0})
unfolding run_peer_add run_peer_remove run_peer_list run_peer_join run_peer_ping run_peer_status
run_peer o around [] = refuse (usage (codes "peer"))
run_peer o around (verb ∷ args) =
    if equal verb (codes "add")
    then run_peer_add o around args
    else if equal verb (codes "remove") || equal verb (codes "rm")
    then run_peer_remove o around args
    else if equal verb (codes "list") || equal verb (codes "ls")
    then run_peer_list around args
    else if equal verb (codes "join")
    then run_peer_join around args
    else if equal verb (codes "ping")
    then run_peer_ping around args
    else if equal verb (codes "status")
    then run_peer_status around args
    else refuse (unknown_command verb)
