-- ===== src/Api/Server.antt =====
-- internal/api/server.go: the two muxes of `New`, the middleware, and what the envelopes write. Paths are
-- clean ones (net/http redirects any other); a pattern with GET also takes HEAD, as net/http has it.
use netflow_collector.Base.{
  ℕ, ◌≡◌, refl, ap, Bool, true, false, not, ◌&&◌, ◌||◌, Option, none, some, List, [], ◌∷◌, ◌++◌,
  codes, take, length, In, ◌↔◌, if◌then◌else◌, arith, Bool-cases, inl, inr, ◌==◌,
}
use netflow_collector.Api.Auth.{Text, bytes_eq, authorized, bearer_token, authorized_iff}
pub mod Reached

pub record Request : Type 0 where
  pub method : Text
  pub path : Text
  pub authorization : Text

-- The handlers, and what the muxes and `requireAPIKey` answer themselves.
pub data Route : Type 0 where
  flows : Route
  exporters : Route
  metrics : Route
  healthz : Route
  readyz : Route
  method_not_allowed : Route
  not_found : Route
  unauthorized : Route
  redirected : Route  -- from /v1 to /v1/

abbrev pub is_get : Text → Bool
is_get method = bytes_eq method (codes "GET") || bytes_eq method (codes "HEAD")

abbrev pub get_or : Route → Route → Text → Route
get_or r other method = if is_get method then r else other

-- The inner mux: the table of routes.
unfoldable pub v1_route : Text → Text → Route
v1_route method path =
    if bytes_eq path (codes "/v1/flows")
    then get_or flows method_not_allowed method
    else if bytes_eq path (codes "/v1/exporters")
    then get_or exporters method_not_allowed method
    else not_found

abbrev pub in_v1 : Text → Bool
in_v1 path = bytes_eq (take 4 path) (codes "/v1/")

-- The outer mux of what is not below /v1/: another method than GET falls to the pattern "/".
unfoldable pub public_route : Text → Text → Route
public_route method path =
    if bytes_eq path (codes "/metrics")
    then get_or metrics not_found method
    else if bytes_eq path (codes "/healthz")
    then get_or healthz not_found method
    else if bytes_eq path (codes "/readyz")
    then get_or readyz not_found method
    else if bytes_eq path (codes "/v1")
    then redirected
    else not_found

-- `statusWriter`, with what has been written.
pub data Body : Type 0 where
  content : Route → Body
  error : Route → Body
  internal_error : Body

pub record StatusWriter : Type 0 where
  pub status : ℕ
  pub wrote : Bool
  pub bodies : List Body

unfoldable pub write_json : ℕ → Body → StatusWriter → StatusWriter
write_json code b w = record {
  status = if w.wrote then w.status else code;
  wrote = true;
  bodies = w.bodies ++ (b ∷ []);
}

abbrev pub fresh : StatusWriter
fresh = record { status = 200; wrote = false; bodies = [] }

-- A handler writes, and may panic then.
abbrev pub Handlers : Type 0
Handlers = Route → StatusWriter → StatusWriter × Bool

unfoldable pub run_route : Handlers → Route → StatusWriter → StatusWriter × Bool
run_route handlers unauthorized w = (write_json 401 (error unauthorized) w, false)
run_route handlers not_found w = (write_json 404 (error not_found) w, false)
run_route handlers method_not_allowed w = (write_json 405 (error method_not_allowed) w, false)
run_route handlers redirected w = (write_json 301 (content redirected) w, false)
run_route handlers flows w = handlers flows w
run_route handlers exporters w = handlers exporters w
run_route handlers metrics w = handlers metrics w
run_route handlers healthz w = handlers healthz w
run_route handlers readyz w = handlers readyz w

-- The deferred function of the middleware: a panic becomes a 500, unless a status was written.
unfoldable pub middleware : StatusWriter × Bool → StatusWriter
middleware (w, panicked) = if panicked then write_json 500 internal_error w else w

module _ (trim_space : Text → Text) (equal_fold : Text → Text → Bool) (keys : List Text) where
  -- The outer mux, with `requireAPIKey` before the inner one.
  unfoldable pub route_of : Request → Route
  route_of r =
      if in_v1 r.path
      then if authorized trim_space equal_fold keys r.authorization
        then v1_route r.method r.path
        else unauthorized
      else public_route r.method r.path

  unfoldable pub serve : Handlers → Request → StatusWriter
  serve handlers r = middleware (run_route handlers (route_of r) fresh)
