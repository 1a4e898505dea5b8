-- ===== src/Web.antt =====
-- internal/web: the sessions of the web UI, and the routes that change the store.
pub mod Host
pub mod Secret
pub mod Serve
pub mod Keys
pub mod Command
pub mod Rotation
use thimble.Base.{
  ℕ, Bool, true, false, not, ◌&&◌, ◌||◌, Option, none, some, List, [], ◌∷◌, ◌++◌, if◌then◌else◌,
  Bytes, codes, equal,
}
use thimble.Base.Dict.{Dict, get}
use thimble.Errors.{Error, Result, ok, err}
use thimble.World.{World}
use thimble.Store.Rotate.{url_encode}
use thimble.Outside.{Outside}

pub data Method : Type 0 where
  method_get method_head method_post other_method : Method

-- What url.Parse finds in the Origin header.
pub record Url : Type 0 where
  pub scheme : Bytes
  pub host : Bytes
  pub has_user : Bool
  pub path : Bytes
  pub raw_query : Bytes
  pub fragment : Bytes

-- A request: `form` is `none` when ParseForm fails, or the body is too long for the route.
pub record Request : Type 0 where
  pub method : Method
  pub host : Bytes
  pub tls : Bool
  pub sec_fetch_site : Bytes
  pub origin : Option Url
  pub cookie : Option Bytes
  pub form : Option (Dict (List Bytes))

-- What Current of the catalog of stores returns.
pub data Current : Type 0 where
  selected unselected : Current
  unavailable : Error → Current

-- The server with the store it serves; `activity` is its channel of one signal.
pub record Server : Type 0 where
  pub token : Bytes
  pub loopback : Bool
  pub can_set : Bool
  pub current : Current
  pub activity : Bool
  pub world : World

pub data Response : Type 0 where
  host_not_allowed cross_origin unauthorized method_not_allowed bad_form not_found : Response
  login_page invalid_login invalid_token logged_in logged_out index_page : Response
  to_login to_index : Response
  redirect_error : Error → Response
  redirect_notice : Response
  redirect_saved : List Bytes → Response

abbrev first_or_empty : Option (List Bytes) → Bytes
first_or_empty none = []
first_or_empty (some []) = []
first_or_empty (some (v ∷ vs)) = v

-- r.FormValue
unfoldable pub form_value : Dict (List Bytes) → Bytes → Bytes
form_value form name = first_or_empty (get form name)

-- bumpActivity and markAuthorized
abbrev pub bump_activity : Server → Server
bump_activity s = record s { activity = true }

-- subtle.ConstantTimeCompare tells whether the two texts are equal
unfoldable pub cookie_matches : Bytes → Option Bytes → Bool
cookie_matches token none = false
cookie_matches token (some value) = not (equal value []) && equal value token

-- hasValidSession, whose success counts as activity
unfoldable pub has_valid_session : Request → Server → Bool × Server
unfolding cookie_matches
has_valid_session r s =
    if cookie_matches s.token r.cookie then (true, bump_activity s) else (false, s)

-- requireSession, and the rest of a handler
unfoldable pub require_session : Request → Server → (Server → Response × Server) → Response × Server
unfolding has_valid_session
require_session r s rest =
    let (valid, s') = has_valid_session r s in if valid then rest s' else (unauthorized, s')

-- The cookie that setSessionCookie sends, and the empty one of clearSessionCookie.
unfoldable pub session_cookie : Server → Option Bytes
session_cookie s = some s.token

unfoldable pub cleared_cookie : Option Bytes
cleared_cookie = some []

-- handleLogin on a posted form
unfoldable pub check_token : Option (Dict (List Bytes)) → Server → Response × Server
check_token none s = (invalid_login, s)
check_token (some form) s =
    if equal (form_value form (codes "token")) s.token then (logged_in, s) else (invalid_token, s)

unfoldable pub handle_login : Request → Server → Response × Server
unfolding check_token
handle_login r s = elim r.method [
  | method_get ↦
      let (valid, s') = has_valid_session r s in if valid then (to_index, s') else (login_page, s')
  | method_post ↦ check_token r.form s
  | method_head ↦ (method_not_allowed, s)
  | other_method ↦ (method_not_allowed, s)
]

unfoldable pub handle_logout : Server → Response × Server
handle_logout s = (logged_out, s)

unfoldable pub handle_index : Request → Server → Response × Server
handle_index r s =
    let (valid, s') = has_valid_session r s in
    if valid
    then elim r.method [
      | method_get ↦ (index_page, s')
      | method_head ↦ (method_not_allowed, s')
      | method_post ↦ (method_not_allowed, s')
      | other_method ↦ (method_not_allowed, s')
    ]
    else (to_login, s')

-- RandomToken, for the n-th read of the random source
unfoldable pub random_token : Outside → ℕ → Result Bytes
random_token o n = elim (o.random n 32) [ err e ↦ err e | ok b ↦ ok (url_encode b) ]

-- Rotate
unfoldable pub rotate : Outside → ℕ → Server → Result (Unit {0}) × Server
unfolding random_token
rotate o n s = elim (random_token o n) [
  | err e ↦ (err e, s)
  | ok token ↦ (ok tt, bump_activity (record s { token = token }))
]
