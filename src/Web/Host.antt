-- ===== src/Web/Host.antt =====
-- internal/web/host_guard.go: which hosts and which origins a request may name. The parameter
-- `lower` is strings.ToLower, whose tables are Unicode's.
use thimble.Base.{
  Bool, true, false, not, ◌&&◌, ◌||◌, Option, none, some, List, [], ◌∷◌, ◌++◌, ◌==◌, if◌then◌else◌,
  Bytes, codes, contains, cut_at, equal, mem, reverse,
}
use thimble.Base.Space.{trim_space}
use thimble.Web.{
  Method, method_get, method_head, method_post, other_method, Url, Request, Server, Response,
  host_not_allowed, cross_origin,
}

-- The text before and behind the last colon.
unfoldable pub cut_last_colon : Bytes → Option (Bytes × Bytes)
cut_last_colon s = elim (cut_at b':' (reverse s)) [
  | none ↦ none
  | some (back, front) ↦ some (reverse front, reverse back)
]

abbrev has_bracket : Bytes → Bool
has_bracket = contains (λ c. c == b'[' || c == b']')

-- A host in brackets: the port stands behind the bracket and a colon.
abbrev port_behind : Bytes → Bytes → Option (Bytes × Bytes)
port_behind host [] = none
port_behind host (c ∷ port) =
    if c == b':' && not (has_bracket host || has_bracket port || contains (λ c. c == b':') port)
    then some (host, port)
    else none

-- net.SplitHostPort; `none` is its error
unfoldable pub split_host_port : Bytes → Option (Bytes × Bytes)
unfolding cut_last_colon
split_host_port [] = none
split_host_port (c ∷ cs) =
    if c == b'['
    then elim (cut_at b']' cs) [ none ↦ none | some (host, rest) ↦ port_behind host rest ]
    else elim (cut_last_colon (c ∷ cs)) [
      | none ↦ none
      | some (host, port) ↦
          if contains (λ c. c == b':') host || has_bracket host || has_bracket port
          then none
          else some (host, port)
    ]

-- net.JoinHostPort
unfoldable pub join_host_port : Bytes → Bytes → Bytes
join_host_port host port =
    if contains (λ c. c == b':') host
    then b'[' ∷ (host ++ (codes "]:" ++ port))
    else host ++ (b':' ∷ port)

abbrev drop_front : Bytes → Bytes → Bytes
drop_front mark [] = []
drop_front mark (c ∷ cs) = if equal (c ∷ []) mark then cs else c ∷ cs

-- strings.TrimSuffix and strings.TrimPrefix of one byte
unfoldable pub trim_suffix : Bytes → Bytes → Bytes
trim_suffix s mark = reverse (drop_front mark (reverse s))

unfoldable pub bare_host : (Bytes → Bytes) → Bytes → Bytes
unfolding trim_suffix
bare_host lower host =
    drop_front (codes "[") (trim_suffix (lower (trim_suffix host (codes "."))) (codes "]"))

abbrev parts_of : Bytes → Bytes × Bytes
parts_of raw = elim (split_host_port raw) [ none ↦ (raw, []) | some parts ↦ parts ]

unfoldable pub normalize_authority : (Bytes → Bytes) → Bytes → Bytes
unfolding bare_host
normalize_authority lower raw =
    let (host, port) = parts_of (trim_space raw) in
    if equal port [] then bare_host lower host else join_host_port (bare_host lower host) port

unfoldable pub expand_parts : Bytes → Bytes → List Bytes
expand_parts host port =
    if equal host []
    then []
    else if equal port []
    then host ∷ []
    else join_host_port host port ∷ host ∷ []

unfoldable pub expand_host : (Bytes → Bytes) → Bytes → List Bytes
unfolding bare_host expand_parts
expand_host lower raw =
    let (host, port) = parts_of (trim_space raw) in
    if equal (trim_space raw) [] then [] else expand_parts (bare_host lower host) port

-- NewHostGuard: the authorities that are allowed
unfoldable pub new_host_guard : (Bytes → Bytes) → List Bytes → List Bytes
unfolding expand_host
new_host_guard lower [] = []
new_host_guard lower (raw ∷ rest) = expand_host lower raw ++ new_host_guard lower rest

abbrev any_in : List Bytes → List Bytes → Bool
any_in hosts [] = false
any_in hosts (c ∷ cs) = mem c hosts || any_in hosts cs

unfoldable pub allow : (Bytes → Bytes) → List Bytes → Bytes → Bool
unfolding expand_host
allow lower hosts host = not (equal host []) && any_in hosts (expand_host lower host)

-- the comparison of the Origin header with the request's host
unfoldable pub origin_matches : (Bytes → Bytes) → Request → Option Url → Bool
unfolding normalize_authority
origin_matches lower r none = false
origin_matches lower r (some origin) =
    not (equal origin.scheme [])
    && not (equal origin.host [])
    && not origin.has_user
    && equal origin.path []
    && equal origin.raw_query []
    && equal origin.fragment []
    && equal (lower origin.scheme) (if r.tls then codes "https" else codes "http")
    && equal (normalize_authority lower origin.host) (normalize_authority lower r.host)

abbrev is_read : Method → Bool
is_read method_get = true
is_read method_head = true
is_read method_post = false
is_read other_method = false

unfoldable pub same_origin : (Bytes → Bytes) → Request → Bool
unfolding origin_matches
same_origin lower r =
    if is_read r.method
    then true
    else if not (equal r.sec_fetch_site [])
    then equal r.sec_fetch_site (codes "same-origin") || equal r.sec_fetch_site (codes "none")
    else origin_matches lower r r.origin

-- Middleware
unfoldable pub middleware :
    (Bytes → Bytes)
    → List Bytes
    → (Request → Server → Response × Server)
    → Request
    → Server
    → Response × Server
unfolding allow same_origin
middleware lower hosts next r s =
    if not (allow lower hosts r.host)
    then (host_not_allowed, s)
    else if not (same_origin lower r)
    then (cross_origin, s)
    else next r s
