-- ===== src/Peer/Health/Kept.antt =====
-- What an edit of the health file keeps of every peer's health, whatever the names in the file are.
use thimble.Base.{◌≡◌, Bool-cases, inl, inr, ◌⊎◌, true, false, Bytes, equal}
use thimble.Errors.{ok, Result-cases}
use thimble.World.{holds, next_fails}
use thimble.Peer.Health.{
  PeerHealth, State, Disk, as_json, json_peers, load_state, save_state, mutate_state, blank_health,
  edit_health,
}
use thimble.Peer.Health.Json.{json_peers-Traced}
use thimble.Peer.Health.View.{
  view, update, update-cong, written, peers-with_version, view-load_state, view-edit_health,
}

-- What the file has at a name, it had under some name before.
view-traced :
    (s : State) (j : Bytes)
    → (view (written s) j ≡ blank_health)
      ⊎ ((i : Bytes) × (view (written s) j ≡ as_json (view (holds s) i)))
unfolding view
view-traced s j =
    rw (peers-with_version (record s { peers = json_peers s.peers })) (json_peers-Traced s.peers j)

-- A property of every peer's health stays, whether the file can be read and written or not, if
-- the blank health has it, the edit keeps it and it says that the error is UTF-8.
pub mutate_state-keeps :
    (P : PeerHealth → Type 0) (name : Bytes) (f : PeerHealth → PeerHealth) (d : Disk)
    → P blank_health
    → ((h : PeerHealth) → P h → P (as_json (f h)))
    → ((h : PeerHealth) → P h → as_json h ≡ h)
    → ((j : Bytes) → P (view d.state j))
    → (j : Bytes) → P (view (mutate_state (edit_health name f) d).1.state j)
unfolding mutate_state save_state
mutate_state-keeps P name f d blank k same h j = elim (Result-cases (load_state d.state)) [
  | inl (e, failed) ↦ rw (mutate_state, failed) (h j)
  | inr (s, loaded) ↦ elim (Bool-cases (next_fails d.faults)) [
    | inl fails ↦ rw (mutate_state, loaded, save_state, fails) (h j)
    | inr works ↦
        rw (mutate_state, loaded, save_state, works)
          (kept_by_write s loaded (view-traced (edit_health name f s) j))
  ]
]
  where
    kept_by_edit :
        (i : Bytes)
        → (equal name i ≡ true) ⊎ (equal name i ≡ false)
        → P (as_json (update name f (view d.state) i))
    kept_by_edit i (inl here) = rw here (k (view d.state i) (h i))
    kept_by_edit i (inr other) = rw (other, same (view d.state i) (h i)) (h i)

    kept_by_write :
        (s : State)
        → load_state d.state ≡ ok s
        → (view (written (edit_health name f s)) j ≡ blank_health)
          ⊎ ((i : Bytes) × (view (written (edit_health name f s)) j
                ≡ as_json (view (holds (edit_health name f s)) i)))
        → P (view (written (edit_health name f s)) j)
    kept_by_write s loaded (inl empty) = rw empty blank
    kept_by_write s loaded (inr (i, traced)) =
        rw
          (
            traced,
            view-edit_health s name f i,
            update-cong name f (view (holds s)) (view d.state) i
                (view-load_state d.state s loaded i),
          )
          (kept_by_edit i (Bool-cases (equal name i)))
