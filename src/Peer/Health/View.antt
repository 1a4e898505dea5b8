-- ===== src/Peer/Health/View.antt =====
-- What the health file promises: a map from names to the latest contact, whatever the order of its
-- entries and whether the file is there yet.
use thimble.Base.{
  ◌≡◌, ◌≢◌, refl, sym, ap, ◌∙◌, Bool-cases, inl, inr, some, List, [], ◌∷◌, if◌then◌else◌, arith,
  Bytes, equal, equal_iff, All,
}
use thimble.Base.Dict.{get, keys, get-put}
use thimble.Base.Utf8.{utf8, utf8_idem}
use thimble.Peer.Health.Json.{IsUtf8, All-keys-put, get-json_peers, json_peers-IsUtf8}
use thimble.Errors.{ok, ok_inverse}
use thimble.World.{File, missing, corrupt, holds}
use thimble.Peer.Health.{
  PeerHealth, State, Disk, as_json, json_peers, with_version, load_state, save_state, mutate_state,
  blank_health, health_or_blank, edit_health, truncate_error,
}

-- The health of each peer, blank for a peer without an entry.
unfoldable pub view : File State → Bytes → PeerHealth
view missing name = blank_health
view corrupt name = blank_health
view (holds s) name = health_or_blank (get s.peers name)

-- One contact with a peer: a push at a time, a ping that found versions, or a failure.
pub data Contact : Type 0 where
  pushed : Bytes → Contact
  pinged : PeerHealth → Contact
  refused : Bytes → Contact

-- What a contact makes of the peer's health, as JSON keeps it: a failure keeps all but the error.
unfoldable pub after_contact : Contact → PeerHealth → PeerHealth
after_contact (pushed now) h = record h { last_seen = some now; last_error = [] }
after_contact (pinged found) h = as_json found
after_contact (refused reason) h = record h { last_error = utf8 (truncate_error reason 200) }

abbrev pub update : Bytes → (PeerHealth → PeerHealth) → (Bytes → PeerHealth) → Bytes → PeerHealth
update name f v j = if equal name j then f (v j) else v j

-- The contacts one after the other.
unfoldable pub replay : List (Bytes × Contact) → (Bytes → PeerHealth) → Bytes → PeerHealth
replay [] v = v
replay ((name, c) ∷ rest) v = replay rest (update name (after_contact c) v)

-- The names in the file.
unfoldable pub file_names : File State → List Bytes
file_names missing = []
file_names corrupt = []
file_names (holds s) = keys s.peers

-- The file can be read and holds names and errors in UTF-8, as what json.Unmarshal returns does, and
-- no write is going to fail.
pub record Calm (d : Disk) : Type 0 where
  pub readable : d.state ≢ corrupt
  pub named : All IsUtf8 (file_names d.state)
  pub decoded : (j : Bytes) → as_json (view d.state j) ≡ view d.state j
  pub no_faults : d.faults ≡ []

-- An edit of one peer's health, on the disk and on the map.
pub record Edited (name : Bytes) (f : PeerHealth → PeerHealth) (d d' : Disk) : Type 0 where
  pub calm : Calm d'
  pub seen : (j : Bytes) → view d'.state j ≡ update name (λ h. as_json (f h)) (view d.state) j
  pub same_peers : d'.peers_file ≡ d.peers_file
  pub same_stderr : d'.stderr ≡ d.stderr
  pub same_effects : d'.effects ≡ d.effects

pub peers-with_version : (s : State) → (with_version s).peers ≡ s.peers
unfolding with_version
peers-with_version s = ground arith

view-with_version : (s : State) (j : Bytes) → view (holds (with_version s)) j ≡ view (holds s) j
unfolding view
view-with_version s j = ap (λ m. health_or_blank (get m j)) (peers-with_version s)

-- The state that LoadState returns has the health that the file has.
pub view-load_state :
    (file : File State) (s : State)
    → load_state file ≡ ok s
    → (j : Bytes) → view (holds s) j ≡ view file j
unfolding view load_state get
view-load_state missing s h j = rw (sym (ok_inverse h)) refl
view-load_state corrupt s h j = cc
view-load_state (holds t) s h j = rw (sym (ok_inverse h)) (view-with_version t j)

pub update-cong :
    (name : Bytes) (f : PeerHealth → PeerHealth) (v w : Bytes → PeerHealth) (j : Bytes)
    → v j ≡ w j
    → update name f v j ≡ update name f w j
update-cong name f v w j h = ap (λ x. if equal name j then f x else x) h

pub replay-cong :
    (cs : List (Bytes × Contact)) (v w : Bytes → PeerHealth)
    → ((j : Bytes) → v j ≡ w j)
    → (j : Bytes) → replay cs v j ≡ replay cs w j
unfolding replay
replay-cong [] v w h j = h j
replay-cong ((name, c) ∷ rest) v w h j =
    replay-cong rest (update name (after_contact c) v) (update name (after_contact c) w)
      (λ i. update-cong name (after_contact c) v w i (h i)) j

pub view-edit_health :
    (s : State) (name : Bytes) (f : PeerHealth → PeerHealth) (j : Bytes)
    → view (holds (edit_health name f s)) j ≡ update name f (view (holds s)) j
unfolding view edit_health
view-edit_health s name f j =
    rw (get-put s.peers name j (f (health_or_blank (get s.peers name))))
      (elim (Bool-cases (equal name j)) [
        | inl same ↦ rw (same, (equal_iff name j).0 same) refl
        | inr other ↦ rw other refl
      ])

pub load_state_readable :
    (file : File State) → file ≢ corrupt → (s : State) × (load_state file ≡ ok s)
unfolding load_state
load_state_readable missing h = (_, refl)
load_state_readable corrupt h = absurd (h refl)
load_state_readable (holds s) h = (_, refl)

-- The state that LoadState returns has the names that the file has.
names-load_state :
    (file : File State) (s : State)
    → load_state file ≡ ok s
    → All IsUtf8 (file_names file)
    → All IsUtf8 (keys s.peers)
unfolding load_state file_names keys
names-load_state missing s h u = rw (sym (ok_inverse h)) tt
names-load_state corrupt s h u = cc
names-load_state (holds t) s h u = rw (sym (ok_inverse h), peers-with_version t) u

-- What the file holds behind a write of `s`.
abbrev pub written : State → File State
written s = holds (with_version (record s { peers = json_peers s.peers }))

view-written :
    (s : State) (j : Bytes)
    → All IsUtf8 (keys s.peers)
    → view (written s) j ≡ as_json (view (holds s) j)
unfolding view
view-written s j u =
    view-with_version (record s { peers = json_peers s.peers }) j ∙ get-json_peers s.peers j u

names-written : (s : State) → All IsUtf8 (file_names (written s))
unfolding file_names
names-written s =
    rw (peers-with_version (record s { peers = json_peers s.peers })) (json_peers-IsUtf8 s.peers)

-- An edit under a name in UTF-8 leaves such names.
names-edit_health :
    (name : Bytes) (f : PeerHealth → PeerHealth) (file : File State) (s : State)
    → load_state file ≡ ok s
    → IsUtf8 name
    → All IsUtf8 (file_names file)
    → All IsUtf8 (keys (edit_health name f s).peers)
unfolding edit_health
names-edit_health name f file s loaded u us =
    All-keys-put IsUtf8 s.peers name _ u (names-load_state file s loaded us)

-- The health of the other peers is UTF-8 already.
as_json-update :
    (name : Bytes) (f : PeerHealth → PeerHealth) (v : Bytes → PeerHealth) (j : Bytes)
    → as_json (v j) ≡ v j
    → as_json (update name f v j) ≡ update name (λ h. as_json (f h)) v j
as_json-update name f v j same = elim (Bool-cases (equal name j)) [
  | inl here ↦ rw here refl
  | inr other ↦ rw other same
]

as_json_idem : (h : PeerHealth) → as_json (as_json h) ≡ as_json h
as_json_idem h = ap (λ (e : Bytes). record h { last_error = e }) (utf8_idem h.last_error)

-- What is seen of an edit that was written.
view-edited :
    (name : Bytes) (f : PeerHealth → PeerHealth) (file : File State) (s : State) (j : Bytes)
    → load_state file ≡ ok s
    → IsUtf8 name
    → All IsUtf8 (file_names file)
    → as_json (view file j) ≡ view file j
    → view (written (edit_health name f s)) j ≡ update name (λ h. as_json (f h)) (view file) j
view-edited name f file s j loaded u us same =
    view-written (edit_health name f s) j (names-edit_health name f file s loaded u us)
    ∙ ap as_json (
        view-edit_health s name f j
        ∙ update-cong name f (view (holds s)) (view file) j (view-load_state file s loaded j))
    ∙ as_json-update name f (view file) j same

-- An edit that can read and write the file does what it says.
pub mutate_state-Edited :
    (name : Bytes) (f : PeerHealth → PeerHealth) (d : Disk)
    → IsUtf8 name
    → Calm d
    → Edited name f d (mutate_state (edit_health name f) d).1
unfolding mutate_state save_state
mutate_state-Edited name f d u c =
    let (s, loaded) = load_state_readable d.state c.readable in
    let kept = names-edit_health name f d.state s loaded u c.named in
    rw (mutate_state, loaded, save_state, c.no_faults)
      (record {
        calm = record {
          readable = λ e. cc;
          named = names-written (edit_health name f s);
          decoded = λ j.
              ap as_json (view-written (edit_health name f s) j kept)
              ∙ as_json_idem (view (holds (edit_health name f s)) j)
              ∙ sym (view-written (edit_health name f s) j kept);
          no_faults = refl;
        };
        seen = λ j. view-edited name f d.state s j loaded u c.named (c.decoded j);
        same_peers = refl;
        same_stderr = refl;
        same_effects = refl;
      })
