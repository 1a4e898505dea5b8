-- ===== src/Peer.antt =====
-- internal/peer/peer.go: the other leaders that this one replicates to.
pub mod File
pub mod Network
pub mod Health
pub mod Push
pub mod Ping
pub mod Members
pub mod RoundTrip
use thimble.Base.{
  ℕ, Bool, true, false, not, ◌&&◌, ◌||◌, Option, none, some, List, [], ◌∷◌, ◌++◌, ◌==◌,
  if◌then◌else◌, Bytes, codes, equal, has_prefix, contains, cut_at, map,
}
use thimble.Base.Space.{trim_space}
use thimble.Errors.{
  Error, Result, ok, err, ◌>>◌, require, peer_name_empty, peer_name_illegal, peer_target_empty,
  target_forbidden, malformed_target, target_dash, peer_exists, peer_not_found,
}

pub record Peer : Type 0 where
  pub name : Bytes
  pub target : Bytes

-- " \t\n\r\"\\"
unfoldable pub illegal_in_name : ℕ → Bool
illegal_in_name c = c == b' ' || c == b'\t' || c == b'\n' || c == b'\r' || c == b'"' || c == b'\\'

-- "\x00 \t\n\r\"'\\;|&$`<>"
unfoldable pub forbidden_in_target : ℕ → Bool
unfolding illegal_in_name
forbidden_in_target c =
    c == 0
    || illegal_in_name c
    || c == b'\''
    || c == b';'
    || c == b'|'
    || c == b'&'
    || c == b'$'
    || c == b'`'
    || c == b'<'
    || c == b'>'

-- colon <= 0 || colon == len(target)-1, with the two parts around the colon
unfoldable pub split_target : Bytes → Option (Bytes × Bytes)
split_target target = elim (cut_at b':' target) [
  | none ↦ none
  | some (host, path) ↦ if equal host [] || equal path [] then none else some (host, path)
]

unfoldable pub has_host_and_path : Bytes → Bool
unfolding split_target
has_host_and_path target = elim (split_target target) [ none ↦ false | some parts ↦ true ]

unfoldable pub validate_target : Bytes → Result (Unit {0})
validate_target target = do
  require (not (equal target [])) peer_target_empty
  require (not (contains forbidden_in_target target)) target_forbidden
  require (has_host_and_path target) malformed_target
  require (not (has_prefix target (codes "-"))) target_dash

unfoldable pub validate_peer : Peer → Result (Unit {0})
unfolding validate_target
validate_peer p = do
  require (not (equal (trim_space p.name) [])) peer_name_empty
  require (not (contains illegal_in_name p.name)) peer_name_illegal
  validate_target p.target

-- The manager is the list of its peers; the path is the store's.
unfoldable pub find_peer : List Peer → Bytes → Option Peer
find_peer [] name = none
find_peer (p ∷ ps) name = if equal p.name name then some p else find_peer ps name

unfoldable pub add_peer : List Peer → Peer → Result (List Peer)
add_peer peers p = do
  validate_peer p
  elim (find_peer peers p.name) [
    | some _ ↦ err (peer_exists p.name)
    | none ↦ ok (peers ++ (p ∷ []))
  ]

-- m.peers without the first peer of the name
unfoldable pub drop_peer : Bytes → List Peer → Option (List Peer)
drop_peer name [] = none
drop_peer name (p ∷ ps) =
    let later = drop_peer name ps in
    if equal p.name name then some ps else elim later [ none ↦ none | some rest ↦ some (p ∷ rest) ]

unfoldable pub remove_peer : List Peer → Bytes → Result (List Peer)
unfolding drop_peer
remove_peer peers name = elim (drop_peer name peers) [
  | none ↦ err (peer_not_found name)
  | some rest ↦ ok rest
]

abbrev pub names : List Peer → List Bytes
names = map (λ p. p.name)
