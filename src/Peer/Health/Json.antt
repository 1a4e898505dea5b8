-- ===== src/Peer/Health/Json.antt =====
-- What the health file has at each name once it was written as JSON and read back.
use thimble.Base.{
  ◌≡◌, refl, sym, ap, ◌∙◌, Bool-cases, Option-cases, inl, inr, ◌⊎◌, Bool, true, false, Option, none,
  some, List, [], ◌∷◌, if◌then◌else◌, Bytes, equal, equal_iff, equal_refl, mem, All,
}
use thimble.Base.Dict.{Dict, get, put, keys, has, mem-keys}
use thimble.Base.Utf8.{utf8, utf8_idem}
use thimble.Base.Sort.{sort_strings, mem-sort_strings, All-sort_strings}
use thimble.Peer.Health.{
  PeerHealth, as_json, json_entries, json_peers, blank_health, health_or_blank,
}

-- A text that JSON leaves as it is.
abbrev pub IsUtf8 : Bytes → Type 0
IsUtf8 s = utf8 s ≡ s

pub All-keys-put {ℓ κ} :
    {V : Type ℓ} (P : Bytes → Type κ) (m : Dict V) (k : Bytes) (v : V)
    → P k
    → All P (keys m)
    → All P (keys (put m k v))
unfolding keys put
All-keys-put P [] k v p ps = (p, tt)
All-keys-put P ((j, w) ∷ m) k v p ps = elim (Bool-cases (equal j k)) [
  | inl same ↦ rw same ps
  | inr other ↦ rw other (ps.0, All-keys-put P m k v p ps.1)
]

-- The names that are written are UTF-8.
json_entries-IsUtf8 :
    (m : Dict PeerHealth) (names : List Bytes) → All IsUtf8 (keys (json_entries m names))
unfolding json_entries keys
json_entries-IsUtf8 m [] = tt
json_entries-IsUtf8 m (k ∷ ks) =
    let later = json_entries-IsUtf8 m ks in
    elim (Bool-cases (has (json_entries m ks) (utf8 k))) [
      | inl there ↦ rw (json_entries, there) later
      | inr free ↦ rw (json_entries, free) (utf8_idem k, later)
    ]

pub json_peers-IsUtf8 : (m : Dict PeerHealth) → All IsUtf8 (keys (json_peers m))
unfolding json_peers
json_peers-IsUtf8 m = json_entries-IsUtf8 m (sort_strings (keys m))

-- Nothing is there but what was there under some name.
Traced : Dict PeerHealth → Option PeerHealth → Type 0
Traced m found =
    (health_or_blank found ≡ blank_health)
    ⊎ ((k : Bytes) × (health_or_blank found ≡ as_json (health_or_blank (get m k))))

json_entries-Traced :
    (m : Dict PeerHealth) (names : List Bytes) (j : Bytes) → Traced m (get (json_entries m names) j)
unfolding json_entries get Traced
json_entries-Traced m [] j = inl refl
json_entries-Traced m (k ∷ ks) j =
    let later = json_entries-Traced m ks j in
    elim (Bool-cases (has (json_entries m ks) (utf8 k))) [
      | inl there ↦ rw (json_entries, there) later
      | inr free ↦ elim (Bool-cases (equal (utf8 k) j)) [
        | inl here ↦ inr (k, rw (json_entries, free, get, here) refl)
        | inr other ↦ rw (json_entries, free, get, other) later
      ]
    ]

pub json_peers-Traced :
    (m : Dict PeerHealth) (j : Bytes)
    → (health_or_blank (get (json_peers m) j) ≡ blank_health)
      ⊎ ((k : Bytes) × (health_or_blank (get (json_peers m) j)
            ≡ as_json (health_or_blank (get m k))))
unfolding json_peers Traced
json_peers-Traced m j = json_entries-Traced m (sort_strings (keys m)) j

has-get {ℓ} :
    {V : Type ℓ} (m : Dict V) (k : Bytes) (o : Option V)
    → get m k ≡ o
    → has m k ≡ elim o [ none ↦ false | some v ↦ true ]
has-get m k o h = ap (λ x. elim x [ none ↦ false | some v ↦ true ]) h

has-found {ℓ} :
    {V : Type ℓ} (m : Dict V) (k : Bytes) (b : Bool) (v : V)
    → get m k ≡ (if b then some v else none)
    → has m k ≡ b
has-found m k true v h = has-get m k (some v) h
has-found m k false v h = has-get m k none h

entry_found :
    (m : Dict PeerHealth) (k : Bytes) (ks : List Bytes)
    → IsUtf8 k
    → get (json_entries m ks) k
      ≡ (if mem k ks then some (as_json (health_or_blank (get m k))) else none)
    → get (json_entries m (k ∷ ks)) k ≡ some (as_json (health_or_blank (get m k)))
unfolding json_entries get
entry_found m k ks u h = elim (Bool-cases (mem k ks)) [
  | inl listed ↦
      let h1 = rw listed at h in rw (json_entries, u, has-get (json_entries m ks) k _ h1) h1
  | inr unlisted ↦
      rw (json_entries, u, has-get (json_entries m ks) k none (rw unlisted at h), get, equal_refl k)
        refl
]

-- Under names in UTF-8 every entry is found again.
get-json_entries :
    (m : Dict PeerHealth) (names : List Bytes) (j : Bytes)
    → All IsUtf8 names
    → get (json_entries m names) j
      ≡ (if mem j names then some (as_json (health_or_blank (get m j))) else none)
unfolding json_entries get mem
get-json_entries m [] j u = refl
get-json_entries m (k ∷ ks) j u =
    let later = get-json_entries m ks j u.1 in
    let at_k = get-json_entries m ks k u.1 in
    elim (Bool-cases (equal k j)) [
      | inl same ↦ rw (same, sym ((equal_iff k j).0 same)) (entry_found m k ks u.0 at_k)
      | inr other ↦ elim (Bool-cases (has (json_entries m ks) k)) [
        | inl there ↦ rw (json_entries, u.0, there, other) later
        | inr free ↦ rw (json_entries, u.0, free, get, other) later
      ]
    ]

pub get-json_peers :
    (m : Dict PeerHealth) (j : Bytes)
    → All IsUtf8 (keys m)
    → health_or_blank (get (json_peers m) j) ≡ as_json (health_or_blank (get m j))
unfolding json_peers utf8
get-json_peers m j u =
    let found = get-json_entries m (sort_strings (keys m)) j (All-sort_strings IsUtf8 (keys m) u) in
    let listed = mem-sort_strings j (keys m) ∙ mem-keys m j in
    elim (Option-cases (get m j)) [
      | inl absent ↦ rw (found, listed, has-get m j none absent, absent) refl
      | inr (h, present) ↦ rw (found, listed, has-get m j (some h) present, present) refl
    ]
