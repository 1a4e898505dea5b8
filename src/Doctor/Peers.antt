-- ===== src/Doctor/Peers.antt =====
-- When the doctor is content with the peers.
use mathlib.Core.Path.{subst}
use thimble.Base.{
  ◌≡◌, ◌≢◌, refl, ap, ◌∙◌, ◌↔◌, inl, inr, Bool, true, false, ◌||◌, Option, none, some, List, [],
  ◌∷◌, arith, Bytes, All, Bool-cases, equal,
}
use thimble.Base.Dict.{get}
use thimble.Base.Sort.{bytes_lt}
use thimble.Errors.{ok}
use thimble.World.{File, corrupt, holds}
use thimble.Peer.{Peer}
use thimble.Peer.File.{load_peers}
use thimble.Peer.Health.{PeerHealth, State, Disk, load_state, health_or_blank}
use thimble.Peer.Health.View.{view, view-load_state, load_state_readable}
use thimble.Doctor.{
  Status, passing, warning, failing, CheckResult, is_failing, has_failures, worsen, IsStale,
  judge_time, check_state, classify_peer, insert_peer, sort_peers, classify_all, worst,
  build_peer_check_results, check_peers,
}

-- The latest contact with the peer succeeded, however long ago.
pub record IsReached (h : PeerHealth) : Type 0 where
  pub time : Bytes
  pub seen : h.last_seen ≡ some time
  pub no_error : equal h.last_error [] ≡ true

or_false : (a b : Bool) → ((a || b) ≡ false) ↔ ((a ≡ false) × (b ≡ false))
or_false true b = (λ e. cc, λ e. e.0)
or_false false b = (λ e. (refl, e), λ e. e.1)

or_assoc : (a b c : Bool) → ((a || b) || c) ≡ (a || (b || c))
or_assoc true b c = refl
or_assoc false b c = refl

judge_time_iff :
    (stale : IsStale) (p : Peer) (seen : Option Bytes)
    → (is_failing (judge_time stale p seen).status ≡ false) ↔ ((t : Bytes) × (seen ≡ some t))
judge_time_iff stale p none = (λ e. cc, λ r. cc)
judge_time_iff stale p (some t) = (λ e. (t, refl), λ r. ground arith)

classify_peer_iff :
    (stale : IsStale) (p : Peer) (h : PeerHealth)
    → (is_failing (classify_peer stale p h).status ≡ false) ↔ IsReached h
unfolding classify_peer
classify_peer_iff stale p h = elim (Bool-cases (equal h.last_error [])) [
  | inl calm ↦
      let judged = judge_time_iff stale p h.last_seen in
      rw (classify_peer, calm)
        (
          λ e. let (t, seen) = judged.0 e in record { time = t; seen = seen; no_error = calm },
          λ r. judged.1 (r.time, r.seen),
        )
  | inr failed ↦ rw (classify_peer, failed) (λ e. cc, λ r. let same = r.no_error in cc)
]

insert_peer-All :
    (P : Peer → Type 0) (p : Peer) (ps : List Peer) → All P (insert_peer p ps) ↔ (P p × All P ps)
unfolding insert_peer
insert_peer-All P p [] = (λ a. (a.0, tt), λ a. (a.0, tt))
insert_peer-All P p (q ∷ qs) = elim (Bool-cases (bytes_lt q.name p.name)) [
  | inl before ↦
      let later = insert_peer-All P p qs in
      rw before (λ a. let b = later.0 a.1 in (b.0, (a.0, b.1)), λ a. (a.1.0, later.1 (a.0, a.1.1)))
  | inr behind ↦ rw behind (λ a. a, λ a. a)
]

sort_peers-All : (P : Peer → Type 0) (ps : List Peer) → All P (sort_peers ps) ↔ All P ps
unfolding sort_peers
sort_peers-All P [] = (λ a. a, λ a. a)
sort_peers-All P (p ∷ ps) =
    let inserted = insert_peer-All P p (sort_peers ps) in
    let rest = sort_peers-All P ps in
    (λ a. let b = inserted.0 a in (b.0, rest.0 b.1), λ a. inserted.1 (a.0, rest.1 a.1))

classify_all_iff :
    (stale : IsStale) (s : State) (ps : List Peer)
    → (has_failures (classify_all stale s ps) ≡ false)
      ↔ All (λ p. IsReached (health_or_blank (get s.peers p.name))) ps
unfolding has_failures classify_all
classify_all_iff stale s [] = (λ e. tt, λ a. refl)
classify_all_iff stale s (p ∷ ps) =
    let here = classify_peer_iff stale p (health_or_blank (get s.peers p.name)) in
    let rest = classify_all_iff stale s ps in
    let either =
      or_false (is_failing (classify_peer stale p (health_or_blank (get s.peers p.name))).status)
        (has_failures (classify_all stale s ps)) in
    (λ e. (here.0 (either.0 e).0, rest.0 (either.0 e).1), λ a. either.1 (here.1 a.0, rest.1 a.1))

is_failing-worsen : (a b : Status) → is_failing (worsen a b) ≡ (is_failing a || is_failing b)
unfolding worsen
is_failing-worsen failing b = refl
is_failing-worsen warning failing = refl
is_failing-worsen warning passing = refl
is_failing-worsen warning warning = refl
is_failing-worsen passing b = refl

-- The first result fails exactly when one of the others does.
is_failing-worst :
    (found : Status) (cs : List CheckResult)
    → is_failing (worst found cs) ≡ (is_failing found || has_failures cs)
unfolding worst has_failures
is_failing-worst passing [] = refl
is_failing-worst warning [] = refl
is_failing-worst failing [] = refl
is_failing-worst found (c ∷ cs) =
    is_failing-worst (worsen found c.status) cs
    ∙ ap (λ b. b || has_failures cs) (is_failing-worsen found c.status)
    ∙ or_assoc (is_failing found) (is_failing c.status) (has_failures cs)

build_peer_check_results_iff :
    (stale : IsStale) (ps : List Peer) (s : State)
    → (has_failures (build_peer_check_results stale ps s) ≡ false)
      ↔ All (λ p. IsReached (health_or_blank (get s.peers p.name))) ps
unfolding build_peer_check_results has_failures
build_peer_check_results_iff stale ps s =
    let results = classify_all stale s (sort_peers ps) in
    let both = or_false (is_failing (worst passing results)) (has_failures results) in
    let each = classify_all_iff stale s (sort_peers ps) in
    let sorted = sort_peers-All (λ p. IsReached (health_or_blank (get s.peers p.name))) ps in
    (
      λ e. sorted.0 (each.0 (both.0 e).1),
      λ a.
          let clean = each.1 (sorted.1 a) in
          both.1 (is_failing-worst passing results ∙ clean, clean),
    )

check_state_iff :
    (stale : IsStale) (file : File State) (s : State) (ps : List Peer)
    → load_state file ≡ ok s
    → (has_failures (check_state stale ps (ok s)) ≡ false)
      ↔ All (λ p. IsReached (view file p.name)) ps
unfolding has_failures view
check_state_iff stale file s [] loaded = (λ e. tt, λ a. refl)
check_state_iff stale file s (p ∷ ps) loaded =
    let same : view (holds s) ≡ view file = λ i j. view-load_state file s loaded j i in
    subst
      (λ v.
        (has_failures (check_state stale (p ∷ ps) (ok s)) ≡ false)
        ↔ All (λ q. IsReached (v q.name)) (p ∷ ps))
      same (build_peer_check_results_iff stale (p ∷ ps) s)

-- With a readable list of peers and state file, the doctor's report on peers, which sorts them and
-- puts a summary of the worst result before theirs, has no failure exactly when every peer of the
-- list has been contacted and has no error from the latest contact, however long ago it was.
pub check_peers_iff :
    (stale : IsStale) (d : Disk) (ps : List Peer)
    → load_peers d.peers_file ≡ ok ps
    → d.state ≢ corrupt
    → (has_failures (check_peers stale d) ≡ false) ↔ All (λ p. IsReached (view d.state p.name)) ps
unfolding check_peers
check_peers_iff stale d ps listed readable =
    let (s, loaded) = load_state_readable d.state readable in
    rw (check_peers, listed, loaded) (check_state_iff stale d.state s ps loaded)
