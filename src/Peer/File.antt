-- ===== src/Peer/File.antt =====
-- internal/peer/peers_toml.go, Load and Save: the file of the peers.
use thimble.Base.{
  ℕ, ◌+◌, Bool, true, false, not, ◌&&◌, ◌||◌, Option, none, some, List, [], ◌∷◌, ◌++◌, ltb, leb,
  ◌==◌, if◌then◌else◌, Bytes, codes, equal, has_prefix, mem, split_at, reverse,
}
use thimble.Base.Space.{trim_space}
use thimble.Outside.{hex}
use thimble.Errors.{
  Result, ok, err, ◌>>=◌, ◌>>◌, require, in_line, unknown_section, outside_section, unknown_key,
  peer_without_name, peer_without_target, duplicate_peer,
}
use thimble.Quorum.Toml.{set_last, strip_comment, split_assignment, unquote}
use thimble.Peer.{Peer, validate_peer}

-- the variables of parsePeers' loop: `current` is the last peer, if a section was opened
pub record Reader : Type 0 where
  pub peers : List Peer
  pub in_section : Bool

abbrev pub blank_peer : Peer
blank_peer = record { name = []; target = [] }

abbrev pub nothing_read : Reader
nothing_read = record { peers = []; in_section = false }

unfoldable pub assign_field : Bytes → Bytes → Reader → Result Reader
unfolding set_last
assign_field key value r =
    if equal key (codes "name")
    then ok (record r { peers = set_last (λ p. record p { name = value }) r.peers })
    else if equal key (codes "target")
    then ok (record r { peers = set_last (λ p. record p { target = value }) r.peers })
    else err (unknown_key key)

unfoldable pub parse_kv : Bytes → Reader → Result Reader
unfolding assign_field
parse_kv line r = do
  (key, val) ← split_assignment line
  require r.in_section (outside_section key)
  unquoted ← unquote val
  assign_field key unquoted r

unfoldable pub parse_line : Bytes → Reader → Result Reader
unfolding parse_kv
parse_line [] r = ok r
parse_line (c ∷ cs) r =
    let line = c ∷ cs in
    if equal line (codes "[[peers]]")
    then ok (record { peers = r.peers ++ (blank_peer ∷ []); in_section = true })
    else if has_prefix line (codes "[")
    then err (unknown_section line)
    else parse_kv line r

unfoldable pub parse_lines : ℕ → List Bytes → Reader → Result Reader
unfolding parse_line
parse_lines n [] r = ok r
parse_lines n (raw ∷ rest) r = do
  next ← in_line (n + 1) (parse_line (trim_space (strip_comment raw)) r)
  parse_lines (n + 1) rest next

-- the loop of finalizePeers, which counts the peers and keeps the names it has seen
unfoldable pub check_peers : ℕ → List Bytes → List Peer → Result (Unit {0})
check_peers i seen [] = ok tt
check_peers i seen (p ∷ ps) = do
  require (not (equal p.name [])) (peer_without_name i)
  require (not (equal p.target [])) (peer_without_target p.name)
  require (not (mem p.name seen)) (duplicate_peer p.name)
  validate_peer p
  check_peers (i + 1) (p.name ∷ seen) ps

unfoldable pub finalize_peers : List Peer → Result (List Peer)
unfolding check_peers
finalize_peers peers = do check_peers 0 [] peers; ok peers

unfoldable pub parse_peers : Bytes → Result (List Peer)
unfolding parse_lines finalize_peers
parse_peers text = do r ← parse_lines 0 (split_at b'\n' text) nothing_read; finalize_peers r.peers

-- Load, on the bytes of the file if there is one
unfoldable pub load_peers : Option Bytes → Result (List Peer)
load_peers none = ok []
load_peers (some raw) = parse_peers raw

-- The verb %q is strconv.Quote. Beyond ASCII it asks Unicode's tables what can be printed:
-- `wide` is what it writes for a run of such bytes.
unfoldable pub quote_byte : ℕ → Bytes
quote_byte c =
    if c == b'"' || c == b'\\'
    then b'\\' ∷ c ∷ []
    else if leb 32 c && ltb c 127
    then c ∷ []
    else if c == 7
    then codes "\\a"
    else if c == 8
    then codes "\\b"
    else if c == 9
    then codes "\\t"
    else if c == 10
    then codes "\\n"
    else if c == 11
    then codes "\\v"
    else if c == 12
    then codes "\\f"
    else if c == 13
    then codes "\\r"
    else codes "\\x" ++ hex (c ∷ [])

abbrev flush : (Bytes → Bytes) → Bytes → Bytes
flush wide [] = []
flush wide (c ∷ cs) = wide (reverse (c ∷ cs))

-- `run` holds the bytes beyond ASCII just read, backwards
unfoldable pub quote_from : (Bytes → Bytes) → Bytes → Bytes → Bytes
unfolding quote_byte
quote_from wide run [] = flush wide run
quote_from wide run (c ∷ cs) =
    let longer = quote_from wide (c ∷ run) cs in
    let shut = quote_from wide [] cs in
    if leb 128 c then longer else flush wide run ++ (quote_byte c ++ shut)

unfoldable pub quote : (Bytes → Bytes) → Bytes → Bytes
unfolding quote_from
quote wide s = b'"' ∷ (quote_from wide [] s ++ (b'"' ∷ []))

abbrev pub heading : Bytes
heading =
    codes "# Thimble peers (K-55). Each [[peers]] entry is a leader\n"
    ++ codes "# this leader replicates to. peer add/remove update this file.\n"

-- key = %q
unfoldable pub field : (Bytes → Bytes) → Bytes → Bytes → Bytes
unfolding quote
field wide key value = key ++ (codes " = " ++ quote wide value)

unfoldable pub encode_entries : (Bytes → Bytes) → List Peer → Bytes
unfolding field
encode_entries wide [] = []
encode_entries wide (p ∷ ps) =
    codes "\n[[peers]]\n"
    ++ (field wide (codes "name") p.name
        ++ (b'\n' ∷ (field wide (codes "target") p.target ++ (b'\n' ∷ encode_entries wide ps))))

unfoldable pub encode_peers : (Bytes → Bytes) → List Peer → Bytes
unfolding encode_entries
encode_peers wide peers = heading ++ encode_entries wide peers
