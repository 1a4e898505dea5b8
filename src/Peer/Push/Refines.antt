-- ===== src/Peer/Push/Refines.antt =====
-- What a push leaves behind, against the map of contacts.
use thimble.Base.{
  ℕ, suc, ◌≡◌, refl, sym, ap, ◌∙◌, inl, inr, Bool-cases, true, false, Option, none, some, List, [],
  ◌∷◌, ◌++◌, arith, All, Bytes, codes, equal, equal_iff, mem, IsUnique, map,
}
use thimble.Base.Utf8.{utf8}
use thimble.Base.Dict.{get}
use thimble.Peer.{Peer, names}
use thimble.Peer.Network.{Network, Resolved, Resolved-cases, at, not_found}
use thimble.Peer.Health.{PeerHealth, Disk, truncate_error, record_push_success, record_push_failure}
use thimble.Peer.Health.Json.{IsUtf8}
use thimble.Peer.Health.View.{
  view, Contact, pushed, pinged, refused, after_contact, update, replay, replay-cong, Calm,
  mutate_state-Edited,
}
use thimble.Peer.Push.{
  PushError, resolve_rsync, push_timeout_from_env, push_one_peer, note_outcome, add_failure,
  push_each, push_peers, push_changes,
}

abbrev contact_of : Option Bytes → Bytes → Contact
contact_of none now = pushed now
contact_of (some reason) now = refused reason

-- The contacts of a push whose first run of rsync is the n-th.
pub contacts : Network → Bytes → Bytes → ℕ → ℕ → List Peer → List (Bytes × Contact)
contacts net rsync root timeout n [] = []
contacts net rsync root timeout n (p ∷ ps) =
    (p.name, contact_of (push_one_peer net n rsync root p.target timeout) (net.clock (suc n)))
    ∷ contacts net rsync root timeout (suc n) ps

-- The contacts of PushChanges: none without a manager, without peers or without rsync.
pub contacts_with : Network → Bytes → ℕ → List Peer → Resolved → List (Bytes × Contact)
contacts_with net root n ps (not_found e) = []
contacts_with net root n ps (at rsync) = contacts net rsync root (push_timeout_from_env net) n ps

-- The contacts that were refused, as PushChanges reports them.
pub refusals : List (Bytes × Contact) → List PushError
refusals [] = []
refusals ((name, pushed now) ∷ rest) = refusals rest
refusals ((name, pinged h) ∷ rest) = refusals rest
refusals ((name, refused reason) ∷ rest) = record { peer = name; reason = reason } ∷ refusals rest

-- What a run of the contacts `cs` has to leave behind.
pub record Replicated (cs : List (Bytes × Contact)) (d : Disk) (r : List PushError × Disk)
    : Type 0 where
  pub reported : r.0 ≡ refusals cs
  pub seen : (j : Bytes) → view r.1.state j ≡ replay cs (view d.state) j
  pub calm : Calm r.1
  pub same_peers : r.1.peers_file ≡ d.peers_file

-- one round
record Noted (p : Peer) (o : Option Bytes) (now : Bytes) (d d' : Disk) : Type 0 where
  seen :
      (j : Bytes)
      → view d'.state j ≡ update p.name (after_contact (contact_of o now)) (view d.state) j
  calm : Calm d'
  same_peers : d'.peers_file ≡ d.peers_file
  same_effects : d'.effects ≡ d.effects

note_outcome-Noted :
    (net : Network) (p : Peer) (o : Option Bytes) (d : Disk)
    → IsUtf8 p.name
    → Calm d
    → Noted p o (net.clock d.effects) d (note_outcome net p o d)
unfolding note_outcome record_push_success record_push_failure after_contact utf8
note_outcome-Noted net p none d u c =
    let e =
      mutate_state-Edited p.name
        (λ h. record h { last_seen = some (net.clock d.effects); last_error = [] }) d u c in
    record {
      seen = e.seen;
      calm = e.calm;
      same_peers = e.same_peers;
      same_effects = e.same_effects;
    }
note_outcome-Noted net p (some reason) d u c =
    let e =
      mutate_state-Edited p.name (λ h. record h { last_error = truncate_error reason 200 })
        (record d { stderr = _ }) u
        (record {
          readable = c.readable;
          named = c.named;
          decoded = c.decoded;
          no_faults = c.no_faults;
        }) in
    record {
      seen = e.seen;
      calm = e.calm;
      same_peers = e.same_peers;
      same_effects = e.same_effects;
    }

reported-cons :
    (p : Peer) (o : Option Bytes) (now : Bytes) (cs : List (Bytes × Contact)) (es : List PushError)
    → es ≡ refusals cs
    → add_failure p o es ≡ refusals ((p.name, contact_of o now) ∷ cs)
unfolding refusals
reported-cons p none now cs es h = h
reported-cons p (some reason) now cs es h = ap (◌∷◌ (record { peer = p.name; reason = reason })) h

Replicated-cons :
    (p : Peer) (o : Option Bytes) (now : Bytes) (cs : List (Bytes × Contact)) (d d' : Disk) (n : ℕ)
    (r : List PushError × Disk)
    → Noted p o now (record d { effects = n }) d'
    → Replicated cs d' r
    → Replicated ((p.name, contact_of o now) ∷ cs) d (add_failure p o r.0, r.1)
unfolding replay
Replicated-cons p o now cs d d' n r first later = record {
  reported = reported-cons p o now cs r.0 later.reported;
  seen = λ j.
      later.seen j
      ∙ replay-cong cs (view d'.state)
          (update p.name (after_contact (contact_of o now)) (view d.state)) first.seen j;
  calm = later.calm;
  same_peers = later.same_peers ∙ first.same_peers;
}

push_each-Replicated :
    (net : Network) (rsync root : Bytes) (timeout : ℕ) (ps : List Peer) (d : Disk) (n : ℕ)
    → All (λ p. IsUtf8 p.name) ps
    → Calm d
    → d.effects ≡ n
    → Replicated (contacts net rsync root timeout n ps) d (push_each net rsync root timeout ps d)
unfolding push_each contacts refusals replay
push_each-Replicated net rsync root timeout [] d n u c h = record {
  reported = refl;
  seen = λ j. refl;
  calm = c;
  same_peers = refl;
}
push_each-Replicated net rsync root timeout (p ∷ ps) d n u c h = rw (sym h) (
    Replicated-cons p outcome (net.clock (suc d.effects))
      (contacts net rsync root timeout (suc d.effects) ps) d noted (suc d.effects)
      (push_each net rsync root timeout ps noted) first
      (push_each-Replicated net rsync root timeout ps noted (suc d.effects) u.1 first.calm
        first.same_effects))
  where
    outcome : Option Bytes
    outcome = push_one_peer net d.effects rsync root p.target timeout

    noted : Disk
    noted = note_outcome net p outcome (record d { effects = suc d.effects })

    first : Noted p outcome (net.clock (suc d.effects)) (record d { effects = suc d.effects }) noted
    first =
        note_outcome-Noted net p outcome (record d { effects = suc d.effects }) u.0
          (record {
            readable = c.readable;
            named = c.named;
            decoded = c.decoded;
            no_faults = c.no_faults;
          })

contacts_with-nil :
    (net : Network) (root : Bytes) (n : ℕ) (r : Resolved) → contacts_with net root n [] r ≡ []
unfolding contacts_with contacts
contacts_with-nil net root n (at rsync) = refl
contacts_with-nil net root n (not_found e) = refl

nothing_pushed :
    (d : Disk) (stderr : List Bytes) → Calm d → Replicated [] d ([], record d { stderr = stderr })
unfolding refusals replay
nothing_pushed d stderr c = record {
  reported = refl;
  seen = λ j. refl;
  calm = record {
    readable = c.readable;
    named = c.named;
    decoded = c.decoded;
    no_faults = c.no_faults;
  };
  same_peers = refl;
}

-- If the peers' names are in UTF-8, the health file can be read, as JSON in UTF-8, and no write is
-- going to fail, PushChanges leaves for every name the health that its contacts, one after the other,
-- make of the health before, with each error cut and then as JSON keeps it, reports exactly the
-- contacts that were refused, in their order, and leaves the file of peers alone.
pub push_changes-Replicated :
    (net : Network) (ps : List Peer) (root : Bytes) (d : Disk)
    → All (λ p. IsUtf8 p.name) ps
    → Calm d
    → Replicated
        (contacts_with net root d.effects ps (resolve_rsync net))
        d
        (push_changes net (some ps) root d)
unfolding push_changes push_peers contacts_with
push_changes-Replicated net [] root d u c =
    rw (contacts_with-nil net root d.effects (resolve_rsync net)) (nothing_pushed d d.stderr c)
push_changes-Replicated net (p ∷ ps) root d u c = elim (Resolved-cases (resolve_rsync net)) [
  | inl (e, absent) ↦
      rw (push_changes, push_peers, absent)
        (nothing_pushed d (d.stderr ++ ((codes "peer push skipped: " ++ (e ++ codes "\n")) ∷ [])) c)
  | inr (rsync, found) ↦
      rw (push_changes, push_peers, found)
        (push_each-Replicated net rsync root (push_timeout_from_env net) (p ∷ ps) d d.effects u c
          refl)
]

-- The contacts of a push have the peers' names, in their order.
pub names-contacts :
    (net : Network) (rsync root : Bytes) (timeout n : ℕ) (ps : List Peer)
    → map (λ c. c.0) (contacts net rsync root timeout n ps) ≡ names ps
unfolding contacts
names-contacts net rsync root timeout n [] = refl
names-contacts net rsync root timeout n (p ∷ ps) =
    ap (◌∷◌ p.name) (names-contacts net rsync root timeout (suc n) ps)

not_first : (x j : Bytes) (xs : List Bytes) → mem j (x ∷ xs) ≡ false → equal x j ≡ false
unfolding mem
not_first x j xs h = ground arith

pub replay_absent :
    (cs : List (Bytes × Contact)) (v : Bytes → PeerHealth) (j : Bytes)
    → mem j (map (λ c. c.0) cs) ≡ false
    → replay cs v j ≡ v j
unfolding replay mem
replay_absent [] v j h = refl
replay_absent ((name, d) ∷ rest) v j h =
    replay_absent rest (update name (after_contact d) v) j (ground arith)
    ∙ rw (not_first name j (map (λ c. c.0) rest) h) refl

first_found :
    (d c : Contact) (rest : List (Bytes × Contact)) (j name : Bytes)
    → equal name j ≡ true
    → get ((name, d) ∷ rest) j ≡ some c
    → d ≡ c
unfolding get
first_found d c rest j name same h = ground arith

-- Of contacts with distinct names, each peer keeps what its own contact made of its health.
pub replay-found :
    (cs : List (Bytes × Contact)) (v : Bytes → PeerHealth) (j : Bytes) (c : Contact)
    → IsUnique (map (λ c. c.0) cs)
    → get cs j ≡ some c
    → replay cs v j ≡ after_contact c (v j)
unfolding replay get mem
replay-found [] v j c u h = cc
replay-found ((name, d) ∷ rest) v j c u h = elim (Bool-cases (equal name j)) [
  | inl same ↦
      replay_absent rest (update name (after_contact d) v) j
        (rw (sym ((equal_iff name j).0 same)) u.0)
      ∙ rw (same, first_found d c rest j name same h) refl
  | inr other ↦
      replay-found rest (update name (after_contact d) v) j c u.1 (ground arith) ∙ rw other refl
]
