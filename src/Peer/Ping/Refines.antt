-- ===== src/Peer/Ping/Refines.antt =====
-- What a round of pings leaves behind, whatever order the results are written in.
use mathlib.Core.Path.{subst}
use thimble.Base.{
  ℕ, suc, ◌≡◌, refl, sym, ap, ◌∙◌, Bool-cases, inl, inr, Option-cases, true, false, Option, none,
  some, List, [], ◌∷◌, arith, Bytes, equal, mem, equal_iff, equal_refl, All, IsUnique, map,
}
use thimble.Base.Dict.{Dict, get, keys, mem-keys}
use thimble.Base.Utf8.{utf8}
use thimble.Base.Unique.{IsUnique-keys-put}
use thimble.Peer.{Peer}
use thimble.Peer.Network.{Network}
use thimble.Peer.Health.{
  PeerHealth, Disk, as_json, truncate_error, record_push_failure, record_ping_result,
}
use thimble.Peer.Health.Json.{IsUtf8, All-keys-put}
use thimble.Peer.Health.View.{
  view, Contact, pinged, refused, after_contact, update, replay, replay-cong, Calm,
  mutate_state-Edited,
}
use thimble.Peer.Push.Refines.{replay-found, replay_absent}
use thimble.Peer.Ping.{
  PingResult, healthy, failed, ping_each, write_ping_result, write_results, ping_all,
}

abbrev contact_of : PingResult → Contact
contact_of (healthy h) = pinged h
contact_of (failed e) = refused e

contacts : Dict PingResult → List (Bytes × Contact)
contacts [] = []
contacts ((name, r) ∷ rest) = (name, contact_of r) ∷ contacts rest

-- one round of the writes
abbrev Written : Bytes → PingResult → Disk → Disk → Type 0
Written name r d d' =
    Calm d'
    × ((j : Bytes) → view d'.state j ≡ update name (after_contact (contact_of r)) (view d.state) j)

write_ping_result-Written :
    (name : Bytes) (r : PingResult) (d : Disk)
    → IsUtf8 name
    → Calm d
    → Written name r d (write_ping_result name r d)
unfolding write_ping_result record_push_failure record_ping_result after_contact
write_ping_result-Written name (healthy h) d u c =
    let e = mutate_state-Edited name (λ g. h) d u c in (e.calm, e.seen)
write_ping_result-Written name (failed e) d u c =
    let edited =
      mutate_state-Edited name (λ h. record h { last_error = truncate_error e 200 }) d u c in
    (edited.calm, edited.seen)

write_results-replay :
    (rs : Dict PingResult) (d : Disk)
    → All IsUtf8 (keys rs)
    → Calm d
    → (j : Bytes) → view (write_results rs d).state j ≡ replay (contacts rs) (view d.state) j
unfolding write_results contacts replay keys
write_results-replay [] d u c j = refl
write_results-replay ((name, r) ∷ rest) d u c j =
    let (calm, seen) = write_ping_result-Written name r d u.0 c in
    write_results-replay rest (write_ping_result name r d) u.1 calm j
    ∙ replay-cong (contacts rest) (view (write_ping_result name r d).state)
        (update name (after_contact (contact_of r)) (view d.state)) seen j

-- What the results say of one peer, as JSON keeps it.
pub seen_after : Option PingResult → PeerHealth → PeerHealth
seen_after none h = h
seen_after (some (healthy found)) h = as_json found
seen_after (some (failed e)) h = record h { last_error = utf8 (truncate_error e 200) }

after_contact-contact_of :
    (r : PingResult) (h : PeerHealth) → after_contact (contact_of r) h ≡ seen_after (some r) h
unfolding after_contact seen_after
after_contact-contact_of (healthy found) h = refl
after_contact-contact_of (failed e) h = refl

first_result :
    (name j : Bytes) (q r : PingResult) (rest : Dict PingResult)
    → equal name j ≡ true
    → get ((name, q) ∷ rest) j ≡ some r
    → q ≡ r
unfolding get
first_result name j q r rest same h = ground arith

names-contacts : (rs : Dict PingResult) → map (λ c. c.0) (contacts rs) ≡ keys rs
unfolding contacts keys
names-contacts [] = refl
names-contacts ((name, r) ∷ rest) = ap (◌∷◌ name) (names-contacts rest)

get-contacts :
    (rs : Dict PingResult) (j : Bytes) (r : PingResult)
    → get rs j ≡ some r
    → get (contacts rs) j ≡ some (contact_of r)
unfolding get contacts
get-contacts [] j r h = cc
get-contacts ((name, q) ∷ rest) j r h = elim (Bool-cases (equal name j)) [
  | inl same ↦ rw (same, first_result name j q r rest same h) refl
  | inr other ↦ rw other (get-contacts rest j r (ground arith))
]

contacts-absent :
    (rs : Dict PingResult) (j : Bytes)
    → get rs j ≡ none
    → mem j (map (λ c. c.0) (contacts rs)) ≡ false
unfolding get contacts mem
contacts-absent [] j h = refl
contacts-absent ((name, q) ∷ rest) j h = ground (arith, contacts-absent rest j)

replay-contacts :
    (rs : Dict PingResult) (v : Bytes → PeerHealth) (j : Bytes)
    → IsUnique (keys rs)
    → replay (contacts rs) v j ≡ seen_after (get rs j) (v j)
unfolding seen_after
replay-contacts rs v j u = elim (Option-cases (get rs j)) [
  | inl absent ↦ rw absent (replay_absent (contacts rs) v j (contacts-absent rs j absent))
  | inr (r, found) ↦ rw found (
      replay-found (contacts rs) v j (contact_of r) (rw (names-contacts rs) u)
        (get-contacts rs j r found)
      ∙ after_contact-contact_of r (v j))
]

-- The order in which Go ranges over a map: the entries of the map, each once.
pub record IsOrder (order : Dict PingResult → Dict PingResult) : Type 0 where
  pub same_entries : (rs : Dict PingResult) (j : Bytes) → get (order rs) j ≡ get rs j
  pub each_once : (rs : Dict PingResult) → IsUnique (keys rs) → IsUnique (keys (order rs))

ping_each-IsUnique : (net : Network) (n : ℕ) (ps : List Peer) → IsUnique (keys (ping_each net n ps))
unfolding ping_each keys
ping_each-IsUnique net n [] = tt
ping_each-IsUnique net n (p ∷ ps) =
    IsUnique-keys-put (ping_each net (suc (suc (suc n))) ps) p.name _
      (ping_each-IsUnique net (suc (suc (suc n))) ps)

ping_each-IsUtf8 :
    (net : Network) (n : ℕ) (ps : List Peer)
    → All (λ p. IsUtf8 p.name) ps
    → All IsUtf8 (keys (ping_each net n ps))
unfolding ping_each keys
ping_each-IsUtf8 net n [] u = tt
ping_each-IsUtf8 net n (p ∷ ps) u =
    All-keys-put IsUtf8 (ping_each net (suc (suc (suc n))) ps) p.name _ u.0
      (ping_each-IsUtf8 net (suc (suc (suc n))) ps u.1)

All-listed :
    (P : Bytes → Type 0) (xs : List Bytes) → ((x : Bytes) → mem x xs ≡ true → P x) → All P xs
unfolding mem
All-listed P [] h = tt
All-listed P (x ∷ xs) h =
    (h x (rw (equal_refl x) refl), All-listed P xs (λ y listed. h y (ground arith)))

listed_in : (P : Bytes → Type 0) (xs : List Bytes) (x : Bytes) → All P xs → mem x xs ≡ true → P x
unfolding mem
listed_in P [] x ps h = cc
listed_in P (y ∷ ys) x ps h = elim (Bool-cases (equal y x)) [
  | inl same ↦ subst P ((equal_iff y x).0 same) ps.0
  | inr other ↦ listed_in P ys x ps.1 (ground arith)
]

-- Another order has the same names.
order-IsUtf8 :
    (order : Dict PingResult → Dict PingResult) (rs : Dict PingResult)
    → IsOrder order
    → All IsUtf8 (keys rs)
    → All IsUtf8 (keys (order rs))
order-IsUtf8 order rs o u = All-listed IsUtf8 (keys (order rs)) (λ x listed.
    listed_in IsUtf8 (keys rs) x u (
      mem-keys rs x
      ∙ ap (λ r. elim r [ none ↦ false | some v ↦ true ]) (sym (o.same_entries rs x))
      ∙ sym (mem-keys (order rs) x)
      ∙ listed))

-- If the peers' names are in UTF-8, the health file can be read, as JSON in UTF-8, and no write is
-- going to fail, PingAll leaves for every name what its result says: the versions found and the time,
-- or the error, cut and then as JSON keeps it, beside what was known before; a name without a result
-- keeps its health. The order of the writes, which Go does not say, makes no difference.
pub ping_all-seen :
    (net : Network) (order : Dict PingResult → Dict PingResult) (ps : List Peer) (d : Disk)
    → IsOrder order
    → All (λ p. IsUtf8 p.name) ps
    → Calm d
    → (j : Bytes)
    → view (ping_all net order (some ps) d).1.state j
      ≡ seen_after (get (ping_all net order (some ps) d).0 j) (view d.state j)
unfolding ping_all
ping_all-seen net order ps d o u c j =
    write_results-replay (order results) (record d { effects = _ })
      (order-IsUtf8 order results o (ping_each-IsUtf8 net d.effects ps u))
      (record {
        readable = c.readable;
        named = c.named;
        decoded = c.decoded;
        no_faults = c.no_faults;
      })
      j
    ∙ replay-contacts (order results) (view d.state) j
        (o.each_once results (ping_each-IsUnique net d.effects ps))
    ∙ ap (λ r. seen_after r (view d.state j)) (o.same_entries results j)
  where
    results : Dict PingResult
    results = ping_each net d.effects ps
