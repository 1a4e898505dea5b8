-- ===== src/Cli/Dispatch.antt =====
-- internal/cli/cli.go and peer_push_hook.go: a command, and the push of what it changed.
use thimble.Base.{
  ◌≡◌, ◌++◌, Bool, true, false, ◌||◌, some, List, [], ◌∷◌, if◌then◌else◌, ◌⊎◌, Bytes, codes, equal,
  has_prefix, mem, drop,
}
use thimble.Base.Space.{trim_space}
use thimble.Errors.{Result, ok, err}
use thimble.Peer.{Peer}
use thimble.Peer.File.{load_peers}
use thimble.Peer.Network.{Network}
use thimble.Peer.Push.{push_changes}
use thimble.Cli.{Fold}
use thimble.Cli.Terminal.{Session, Cmd}
use thimble.Cli.Recipient.{concat_texts}

-- peerPushGloballyDisabled
unfoldable pub peer_push_globally_disabled : Fold → Network → Bool
peer_push_globally_disabled fold net =
    mem (fold (trim_space (net.getenv (codes "THIMBLE_PEER_PUSH"))))
      (codes "off" ∷ codes "0" ∷ codes "false" ∷ codes "no" ∷ [])

-- The arguments without the flag, wherever it stands, and whether one of them suppresses the push.
unfoldable pub extract_no_peer_push : Fold → List Bytes → Bool × List Bytes
extract_no_peer_push fold [] = (false, [])
extract_no_peer_push fold (a ∷ rest) =
    let (suppress, out) = extract_no_peer_push fold rest in
    if equal a (codes "--no-peer-push")
    then (true, out)
    else if has_prefix a (codes "--no-peer-push=")
    then (mem (fold (drop 15 a)) (codes "true" ∷ codes "1" ∷ codes "yes" ∷ []) || suppress, out)
    else (suppress, a ∷ out)

unfoldable pub is_mutating_command : Bytes → Bool
is_mutating_command cmd = mem cmd (
    codes "init"
    ∷ codes "create"
    ∷ codes "update"
    ∷ codes "set"
    ∷ codes "delete"
    ∷ codes "rm"
    ∷ codes "and-set"
    ∷ codes "recipient"
    ∷ [])

-- PushChanges, whose stderr is the terminal's
unfoldable pub push_shown : Network → Bytes → List Peer → Session → Session
push_shown net root peers s =
    let d = (push_changes net (some peers) root (record s.disk { stderr = [] })).1 in
    record s {
      disk = record d { stderr = s.disk.stderr };
      stderr = s.stderr ++ concat_texts d.stderr;
    }

-- Without peers nothing is pushed, and a file that cannot be read is not reported.
unfoldable pub push_loaded : Network → Bytes → Session → Session
unfolding push_shown
push_loaded net root s = elim (load_peers s.disk.peers_file) [
  | err e ↦ s
  | ok [] ↦ s
  | ok (p ∷ ps) ↦ push_shown net root (p ∷ ps) s
]

unfoldable pub maybe_push_peers : Fold → Network → Bytes → Bool → Session → Session
unfolding push_loaded peer_push_globally_disabled
maybe_push_peers fold net root suppress s =
    if suppress || peer_push_globally_disabled fold net then s else push_loaded net root s

-- dispatchCommand: the verb and its arguments.
abbrev pub Command : Type 0
Command = Bytes → List Bytes → Cmd (Unit {0})

-- behind the command
unfoldable pub after_command :
    Fold → Network → Bytes → Bytes → Bool → Session → Result (Unit {0}) → Session
unfolding is_mutating_command maybe_push_peers
after_command fold net root cmd suppress s (err e) = s
after_command fold net root cmd suppress s (ok done) =
    if is_mutating_command cmd then maybe_push_peers fold net root suppress s else s

unfoldable pub dispatch : Fold → Network → Bytes → Command → Bytes → List Bytes → Cmd (Unit {0})
unfolding after_command extract_no_peer_push
dispatch fold net root command cmd args s =
    let (suppress, rest) = extract_no_peer_push fold args in
    let (r, s') = command cmd rest s in (r, after_command fold net root cmd suppress s' r)

-- What calls for a push after the command `cmd` ended with `r`.
pub record Pushes (fold : Fold) (net : Network) (cmd : Bytes) (suppress : Bool)
    (r : Result (Unit {0})) : Type 0 where
  pub succeeded : r ≡ ok tt
  pub mutating : is_mutating_command cmd ≡ true
  pub wanted : suppress ≡ false
  pub enabled : peer_push_globally_disabled fold net ≡ false

-- The session `after` is the one before with the push, where one is called for, and else as it was.
abbrev pub PushedIf :
    Fold → Network → Bytes → Bytes → Bool → Result (Unit {0}) → Session → Session → Type 0
PushedIf fold net root cmd suppress r before after =
    (Pushes fold net cmd suppress r × (after ≡ push_loaded net root before))
    ⊎ ((¬ (Pushes fold net cmd suppress r)) × (after ≡ before))

-- What a dispatch returns and leaves behind, against the result `c` of the command on what is left
-- of the arguments.
pub record Dispatched (fold : Fold) (net : Network) (root : Bytes) (cmd : Bytes) (args : List Bytes)
    (c r : Result (Unit {0}) × Session) : Type 0 where
  pub unseen : mem (codes "--no-peer-push") (extract_no_peer_push fold args).1 ≡ false
  pub same_result : r.0 ≡ c.0
  pub same_world : r.1.world ≡ c.1.world
  pub same_output : r.1.stdout ≡ c.1.stdout
  pub session : PushedIf fold net root cmd (extract_no_peer_push fold args).0 c.0 c.1 r.1
