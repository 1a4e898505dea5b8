-- ===== src/Peer/Push/Bounds.antt =====
-- How long the errors are that the health file keeps.
use thimble.Base.{
  ℕ, zero, suc, leb, ◌+◌, ◌≤◌, ◌≡◌, refl, ap, Bool-cases, leb→le, inl, inr, Option, none, some,
  List, [], ◌∷◌, arith, Bytes, codes, length, length-append, take,
}
use thimble.Base.Utf8.{utf8, utf8_idem, length-utf8}
use thimble.Peer.{Peer}
use thimble.Peer.Network.{Network, Resolved-cases}
use thimble.Peer.Health.{
  PeerHealth, as_json, Disk, truncate_error, record_push_success, record_push_failure,
}
use thimble.Peer.Health.View.{view}
use thimble.Peer.Health.Kept.{mutate_state-keeps}
use thimble.Peer.Push.{
  resolve_rsync, push_timeout_from_env, note_outcome, push_each, push_peers, push_changes,
}

length-take : (n : ℕ) (s : Bytes) → length (take n s) ≤ n
length-take zero s = omega arith
length-take (suc n) [] = omega arith
length-take (suc n) (c ∷ s) = omega (arith, length-take n s)

-- A cut error has the three dots besides.
pub length-truncate_error : (s : Bytes) (n : ℕ) → length (truncate_error s n) ≤ n + 3
unfolding truncate_error
length-truncate_error s n = elim (Bool-cases (leb (length s) n)) [
  | inl short ↦ rw short (omega (arith, leb→le (length s) n short))
  | inr long ↦ rw (long, length-append (take n s) (codes "...")) (omega (arith, length-take n s))
]

-- The error kept for a peer is UTF-8, and at most 609 bytes long: three for each byte that was kept of
-- it and is not UTF-8.
abbrev pub IsShort : PeerHealth → Type 0
IsShort h = (as_json h ≡ h) × (length h.last_error ≤ 609)

kept_error :
    (h : PeerHealth) (e : Bytes) → length e ≤ 203 → IsShort (as_json (record h { last_error = e }))
kept_error h e le =
    (ap (λ (x : Bytes). record h { last_error = x }) (utf8_idem e), omega (arith, length-utf8 e))

abbrev pub AllShort : Disk → Type 0
AllShort d = (j : Bytes) → IsShort (view d.state j)

note_outcome-AllShort :
    (net : Network) (p : Peer) (o : Option Bytes) (d : Disk)
    → AllShort d
    → AllShort (note_outcome net p o d)
unfolding utf8 note_outcome record_push_success record_push_failure
note_outcome-AllShort net p none d h =
    mutate_state-keeps IsShort p.name _ d (refl, omega arith)
      (λ g s. kept_error (record g { last_seen = some (net.clock d.effects) }) [] (omega arith))
      (λ g s. s.0) h
note_outcome-AllShort net p (some reason) d h =
    mutate_state-keeps IsShort p.name _ (record d { stderr = _ }) (refl, omega arith)
      (λ g s. kept_error g (truncate_error reason 200) (length-truncate_error reason 200))
      (λ g s. s.0) h

push_each-AllShort :
    (net : Network) (rsync root : Bytes) (timeout : ℕ) (ps : List Peer) (d : Disk)
    → AllShort d
    → AllShort (push_each net rsync root timeout ps d).1
unfolding push_each
push_each-AllShort net rsync root timeout [] d h = h
push_each-AllShort net rsync root timeout (p ∷ ps) d h =
    push_each-AllShort net rsync root timeout ps _ (note_outcome-AllShort net p _ _ h)

-- After a push, whatever writes fail, the error kept for each peer is UTF-8 and at most 609 bytes long
-- if it was before.
pub push_changes-AllShort :
    (net : Network) (mgr : Option (List Peer)) (root : Bytes) (d : Disk)
    → AllShort d
    → AllShort (push_changes net mgr root d).1
unfolding push_changes push_peers
push_changes-AllShort net none root d h = h
push_changes-AllShort net (some []) root d h = h
push_changes-AllShort net (some (p ∷ ps)) root d h = elim (Resolved-cases (resolve_rsync net)) [
  | inl (e, absent) ↦ rw (push_changes, push_peers, absent) h
  | inr (rsync, found) ↦
      rw (push_changes, push_peers, found)
        (push_each-AllShort net rsync root (push_timeout_from_env net) (p ∷ ps) d h)
]
