-- ===== src/Web/Serve.antt =====
-- The mux of the web UI behind its guard, and what a request must bring to change the store.
use thimble.Base.{
  ◌≡◌, refl, ◌⊎◌, inl, inr, true, Option, none, some, List, arith, Bytes, Bool-cases,
}
use thimble.Base.Dict.{Dict}
use thimble.Outside.{Outside}
use thimble.Web.{
  Method, method_get, method_head, method_post, other_method, Request, Server, Response,
  cookie_matches, has_valid_session, require_session, check_token, handle_login, handle_logout,
  handle_index,
}
use thimble.Web.Host.{allow, same_origin, middleware}
use thimble.Web.Secret.{Draws, posted, handle_secret, handle_recipient, handle_namespace}

-- Routes, without the one that changes the selected store
pub data Route : Type 0 where
  index login logout namespace secret recipient : Route

unfoldable pub handle : Outside → Draws → Route → Request → Server → Response × Server
handle o draws index r s = handle_index r s
handle o draws login r s = handle_login r s
handle o draws logout r s = handle_logout s
handle o draws namespace r s = handle_namespace o r s
handle o draws secret r s = handle_secret o draws r s
handle o draws recipient r s = handle_recipient o r s

unfoldable pub serve :
    (Bytes → Bytes) → List Bytes → Outside → Draws → Route → Request → Server → Response × Server
unfolding handle
serve lower hosts o draws route r s = middleware lower hosts (handle o draws route) r s

-- A posted form in a session.
pub record InSession (r : Request) (s : Server) : Type 0 where
  pub is_post : r.method ≡ method_post
  pub has_cookie : cookie_matches s.token r.cookie ≡ true

abbrev SameWorld : Server → Response × Server → Type 0
SameWorld s answer = answer.1.world ≡ s.world

posted_with_cookie :
    (m : Method) (refusal : Response) (rest : Dict (List Bytes) → Server → Response × Server)
    (r : Request) (s : Server)
    → r.method ≡ m
    → cookie_matches s.token r.cookie ≡ true
    → SameWorld s (posted refusal rest r s) ⊎ InSession r s
unfolding posted require_session has_valid_session
posted_with_cookie method_post refusal rest r s m c = inr (record { is_post = m; has_cookie = c })
posted_with_cookie method_get refusal rest r s m c =
    inl (rw (posted, require_session, m, has_valid_session, c) refl)
posted_with_cookie method_head refusal rest r s m c =
    inl (rw (posted, require_session, m, has_valid_session, c) refl)
posted_with_cookie other_method refusal rest r s m c =
    inl (rw (posted, require_session, m, has_valid_session, c) refl)

posted-InSession :
    (refusal : Response) (rest : Dict (List Bytes) → Server → Response × Server) (r : Request)
    (s : Server)
    → SameWorld s (posted refusal rest r s) ⊎ InSession r s
unfolding posted require_session has_valid_session
posted-InSession refusal rest r s = elim (Bool-cases (cookie_matches s.token r.cookie)) [
  | inl valid ↦ posted_with_cookie r.method refusal rest r s refl valid
  | inr invalid ↦ inl (rw (posted, invalid) refl)
]

session_world : (r : Request) (s : Server) → (has_valid_session r s).1.world ≡ s.world
unfolding has_valid_session
session_world r s = elim (Bool-cases (cookie_matches s.token r.cookie)) [
  | inl valid ↦ rw (has_valid_session, valid) refl
  | inr invalid ↦ rw (has_valid_session, invalid) refl
]

check_token-SameWorld :
    (form : Option (Dict (List Bytes))) (s : Server) → SameWorld s (check_token form s)
unfolding check_token
check_token-SameWorld none s = refl
check_token-SameWorld (some form) s = ground arith

handle_login-SameWorld :
    (m : Method) (r : Request) (s : Server) → r.method ≡ m → SameWorld s (handle_login r s)
unfolding handle_login has_valid_session
handle_login-SameWorld method_get r s m = elim (Bool-cases (cookie_matches s.token r.cookie)) [
  | inl valid ↦ rw (handle_login, m, has_valid_session, valid) refl
  | inr invalid ↦ rw (handle_login, m, has_valid_session, invalid) refl
]
handle_login-SameWorld method_post r s m = rw (handle_login, m) (check_token-SameWorld r.form s)
handle_login-SameWorld method_head r s m = rw (handle_login, m) refl
handle_login-SameWorld other_method r s m = rw (handle_login, m) refl

index_in_session :
    (m : Method) (r : Request) (s : Server)
    → r.method ≡ m
    → cookie_matches s.token r.cookie ≡ true
    → SameWorld s (handle_index r s)
unfolding handle_index has_valid_session
index_in_session method_get r s m c = rw (handle_index, m, has_valid_session, c) refl
index_in_session method_post r s m c = rw (handle_index, m, has_valid_session, c) refl
index_in_session method_head r s m c = rw (handle_index, m, has_valid_session, c) refl
index_in_session other_method r s m c = rw (handle_index, m, has_valid_session, c) refl

handle_index-SameWorld : (r : Request) (s : Server) → SameWorld s (handle_index r s)
unfolding handle_index has_valid_session
handle_index-SameWorld r s = elim (Bool-cases (cookie_matches s.token r.cookie)) [
  | inl valid ↦ index_in_session r.method r s refl valid
  | inr invalid ↦ rw (handle_index, has_valid_session, invalid) refl
]

handle-InSession :
    (o : Outside) (draws : Draws) (route : Route) (r : Request) (s : Server)
    → SameWorld s (handle o draws route r s) ⊎ InSession r s
unfolding handle handle_secret handle_recipient handle_namespace handle_logout
handle-InSession o draws index r s = inl (handle_index-SameWorld r s)
handle-InSession o draws login r s = inl (handle_login-SameWorld r.method r s refl)
handle-InSession o draws logout r s = inl refl
handle-InSession o draws namespace r s = posted-InSession _ _ r s
handle-InSession o draws secret r s = posted-InSession _ _ r s
handle-InSession o draws recipient r s = posted-InSession _ _ r s

-- What a request must bring that changes the store.
pub record Guarded (lower : Bytes → Bytes) (hosts : List Bytes) (r : Request) (s : Server)
    : Type 0 where
  pub allowed : allow lower hosts r.host ≡ true
  pub from_here : same_origin lower r ≡ true
  pub session : InSession r s

-- A request on one of these routes leaves the store's files as they are, unless it is a POST to an
-- allowed host from the same origin, with the cookie of the running session.
pub serve-Guarded :
    (lower : Bytes → Bytes) (hosts : List Bytes) (o : Outside) (draws : Draws) (route : Route)
    (r : Request) (s : Server)
    → ((serve lower hosts o draws route r s).1.world ≡ s.world) ⊎ Guarded lower hosts r s
unfolding serve middleware
serve-Guarded lower hosts o draws route r s = elim (Bool-cases (allow lower hosts r.host)) [
  | inr elsewhere ↦ inl (rw (middleware, elsewhere) refl)
  | inl allowed ↦ elim (Bool-cases (same_origin lower r)) [
    | inr foreign ↦ inl (rw (middleware, allowed, foreign) refl)
    | inl from_here ↦ elim (handle-InSession o draws route r s) [
      | inl same ↦ inl (rw (middleware, allowed, from_here) same)
      | inr session ↦ inr (record { allowed = allowed; from_here = from_here; session = session })
    ]
  ]
]
