-- ===== src/Cli/Peers.antt =====
-- internal/cli/run_peer.go and run_peer_status.go: the peers of this leader. A Disk that is behind
-- an error of writing keeps its file.
pub mod Join
use thimble.Base.{
  ℕ, suc, ◌+◌, ◌*◌, Bool, true, false, not, ◌&&◌, ◌||◌, Option, none, some, List, [], ◌∷◌, ◌++◌,
  ◌==◌, leb, ltb, length, if◌then◌else◌, Bytes, codes, equal, has_prefix, join_with, map,
}
use thimble.Base.Decimal.{integer_text}
use thimble.Base.Dict.{Dict, get, put, keys}
use thimble.Base.Number.{ℤ, pos}
use thimble.Base.Sort.{sort_strings}
use thimble.Errors.{
  Error, Result, ok, err, usage, unknown_command, unknown_flag, store_populated, rsync_not_found,
  rsync_failed, pings_failed, glob_failed, peer_not_found, write_failed,
}
use thimble.Outside.{Outside}
use thimble.World.{World, File, missing, corrupt, holds, next_fails, later_faults}
use thimble.Store.Manifest.{Manifest}
use thimble.Audit.{Op, peer_add, peer_remove}
use thimble.Audit.Ledger.{record_event}
use thimble.Peer.{Peer, validate_peer, find_peer, add_peer, remove_peer}
use thimble.Peer.File.{load_peers, encode_peers}
use thimble.Peer.Network.{Network, Ran, Resolved, at, not_found}
use thimble.Peer.Health.{PeerHealth, State, Disk, health_or_blank, load_state}
use thimble.Peer.Push.{message, with_slash, second}
use thimble.Peer.Ping.{PingResult, healthy, failed, ping, write_ping_result}
use thimble.Cli.Terminal.{
  Session, Cmd, done, refuse, returns, on_store, on_disk, ◌>>=◌, ◌>>◌, print, complain, demand,
  print_lines,
}
use thimble.Cli.Recipient.{concat_texts}

-- What these commands take from outside, besides age and the clock.
pub record Neighbours : Type 0 where
  pub net : Network
  -- the store's root
  pub root : Bytes
  -- strconv.Quote on what is not ASCII
  pub wide : Bytes → Bytes
  -- fmt's %-*s, which counts characters
  pub pad : ℕ → Bytes → Bytes
  -- the size of the file that holds the manifest
  pub manifest_bytes : File Manifest → ℕ
  -- the paths of the store at which a bundle that filepath.Glob looks for can be
  pub bundle_paths : List Bytes
  -- filepath.ErrBadPattern, which the root's name can cause
  pub bad_pattern : Bool
  -- what the n-th program run, an rsync into the store's root, leaves there
  pub mirror : ℕ → World × Disk → World × Disk
  -- time.Since(t) > time.Hour
  pub is_stale : Bytes → Bool

-- Save
unfoldable pub save_peers : (Bytes → Bytes) → List Peer → Disk → Result (Unit {0}) × Disk
save_peers wide peers d =
    let d' = record d { faults = later_faults d.faults } in
    if next_fails d.faults
    then (err write_failed, d')
    else (ok tt, record d' { peers_file = some (encode_peers wide peers) })

abbrev load : Cmd (List Peer)
load s = (load_peers s.disk.peers_file, s)

-- recordPeerAudit, whose logger is always there
unfoldable pub record_peer_audit : Outside → Op → Bytes → Cmd (Unit {0})
record_peer_audit o op name = on_store (record_event (record o { audited = true }) op [] [] name)

unfoldable pub run_peer_add : Outside → Neighbours → List Bytes → Cmd (Unit {0})
unfolding save_peers record_peer_audit
run_peer_add o around [] = refuse (usage (codes "peer add"))
run_peer_add o around (a ∷ []) = refuse (usage (codes "peer add"))
run_peer_add o around (name ∷ target ∷ []) = do
  peers ← load
  longer ← returns (add_peer peers (record { name = name; target = target }))
  on_disk (save_peers around.wide longer)
  record_peer_audit o peer_add name
  print (concat_texts (codes "added peer " ∷ name ∷ codes "\n" ∷ []))
run_peer_add o around (a ∷ b ∷ c ∷ rest) = refuse (usage (codes "peer add"))

unfoldable pub run_peer_remove : Outside → Neighbours → List Bytes → Cmd (Unit {0})
unfolding save_peers record_peer_audit
run_peer_remove o around [] = refuse (usage (codes "peer remove"))
run_peer_remove o around (name ∷ []) = do
  peers ← load
  fewer ← returns (remove_peer peers name)
  on_disk (save_peers around.wide fewer)
  record_peer_audit o peer_remove name
  print (concat_texts (codes "removed peer " ∷ name ∷ codes "\n" ∷ []))
run_peer_remove o around (a ∷ b ∷ rest) = refuse (usage (codes "peer remove"))

abbrev pub no_peers : Cmd (Unit {0})
no_peers = print (codes "no peers configured; run: thimble peer add <name> <ssh-target>\n")

-- The greatest length, from `n` on.
unfoldable pub widest : ℕ → List Bytes → ℕ
widest n [] = n
widest n (s ∷ rest) = widest (if ltb n (length s) then length s else n) rest

unfoldable pub print_peers : Neighbours → List Peer → Cmd (Unit {0})
unfolding widest print_lines
print_peers around [] = no_peers
print_peers around (p ∷ ps) = do
  let width = widest 4 (map (λ q. q.name) (p ∷ ps))
  print_lines (
      (around.pad width (codes "name") ++ codes "  target")
      ∷ map (λ q. around.pad width q.name ++ (codes "  " ++ q.target)) (p ∷ ps))

unfoldable pub run_peer_list : Neighbours → List Bytes → Cmd (Unit {0})
unfolding print_peers
run_peer_list around (a ∷ rest) = refuse (usage (codes "peer list"))
run_peer_list around [] = do peers ← load; print_peers around peers

-- The flags of join and ping: whether one of `names` is there, and the other arguments.
abbrev with_flag : Result (Bool × List Bytes) → Result (Bool × List Bytes)
with_flag (err e) = err e
with_flag (ok (flag, positional)) = ok (true, positional)

abbrev keep : Bytes → Result (Bool × List Bytes) → Result (Bool × List Bytes)
keep a (err e) = err e
keep a (ok (flag, positional)) = ok (flag, a ∷ positional)

-- the loop of parseJoinArgs and of parsePingArgs, on the test for its flag
unfoldable pub split_flag : (Bytes → Bool) → List Bytes → Result (Bool × List Bytes)
split_flag is_flag [] = ok (false, [])
split_flag is_flag (a ∷ rest) =
    let later = split_flag is_flag rest in
    if is_flag a
    then with_flag later
    else if has_prefix a (codes "-")
    then err (unknown_flag a)
    else keep a later

abbrev pub is_replace : Bytes → Bool
is_replace a = equal a (codes "--replace")

abbrev pub with_target : Bytes → Bool → Result (Unit {0}) → Result (Bytes × Bool)
with_target target replace (err e) = err e
with_target target replace (ok valid) = ok (target, replace)

abbrev pub judge_join : Result (Bool × List Bytes) → Result (Bytes × Bool)
judge_join (err e) = err e
judge_join (ok (replace, [])) = err (usage (codes "peer join"))
judge_join (ok (replace, target ∷ [])) =
    with_target target replace
      (validate_peer (record { name = codes "join-target"; target = target }))
judge_join (ok (replace, a ∷ b ∷ rest)) = err (usage (codes "peer join"))

unfoldable pub parse_join_args : List Bytes → Result (Bytes × Bool)
unfolding split_flag
parse_join_args args = judge_join (split_flag is_replace args)

-- os.Stat finds thimble.json, with more than two bytes
abbrev pub is_large : Neighbours → File Manifest → Bool
is_large around missing = false
is_large around corrupt = ltb 2 (around.manifest_bytes corrupt)
is_large around (holds m) = ltb 2 (around.manifest_bytes (holds m))

abbrev pub is_there : Option Bytes → Bool
is_there none = false
is_there (some cipher) = true

-- len(bundles) > 0
unfoldable pub has_bundle : World → List Bytes → Bool
has_bundle w [] = false
has_bundle w (path ∷ paths) = is_there (w.bundles path) || has_bundle w paths

unfoldable pub refuse_if_store_populated : Neighbours → World → Result (Unit {0})
unfolding has_bundle
refuse_if_store_populated around w =
    if is_large around w.manifest
    then err store_populated
    else if around.bad_pattern
    then err glob_failed
    else if has_bundle w around.bundle_paths
    then err store_populated
    else ok tt

abbrev pub five_minutes : ℕ
five_minutes = 300 * second

abbrev pub join_arguments : Neighbours → Bytes → List Bytes
join_arguments around target =
    codes "-av" ∷ codes "--delete" ∷ with_slash target ∷ with_slash around.root ∷ []

abbrev finished : Option Bytes → Cmd (Unit {0})
finished none = done tt
finished (some e) = refuse (rsync_failed e)

-- the program at `path`, whose output goes to stderr
unfoldable pub mirror_store : Neighbours → Bytes → Bytes → Cmd (Unit {0})
mirror_store around target path s =
    let n = s.disk.effects in
    let ran = around.net.run n five_minutes path (join_arguments around target) in
    let (w, d) = around.mirror n (s.world, s.disk) in
    finished ran.failure
      (record s { world = w; disk = record d { effects = suc n }; stderr = s.stderr ++ ran.output })

unfoldable pub run_rsync_join : Neighbours → Bytes → Cmd (Unit {0})
unfolding mirror_store
run_rsync_join around target =
    let bin = around.net.getenv (codes "THIMBLE_RSYNC_BINARY") in
    elim (around.net.look_path (if equal bin [] then codes "rsync" else bin)) [
      | not_found e ↦ refuse rsync_not_found
      | at path ↦ mirror_store around target path
    ]

-- os.MkdirAll on the store's root, which is the next write
unfoldable pub make_root : Disk → Result (Unit {0}) × Disk
make_root d = (
  if next_fails d.faults then err write_failed else ok tt,
  record d { faults = later_faults d.faults },
)

-- runPeerJoin, behind its flags
unfoldable pub join_with_target : Neighbours → Bytes × Bool → Cmd (Unit {0})
unfolding refuse_if_store_populated make_root run_rsync_join
join_with_target around (target, replace) s =
    (do
      returns (if replace then ok tt else refuse_if_store_populated around s.world)
      on_disk make_root
      run_rsync_join around target
      print (concat_texts (codes "joined as peer of " ∷ target ∷ codes "\n" ∷ [])))
      s

unfoldable pub run_peer_join : Neighbours → List Bytes → Cmd (Unit {0})
unfolding join_with_target parse_join_args
run_peer_join around args = do
  parsed ← returns (parse_join_args args)
  join_with_target around parsed
