-- ===== src/Api/Server/Reached.antt =====
-- internal/api/server.go: who reaches the handlers of /v1, and what everyone else is told.
use netflow_collector.Base.{
  ◌≡◌, refl, Bool, true, false, ◌&&◌, ◌||◌, List, codes, In, ◌↔◌, ◌∙◌, sym, some, arith, Bool-cases,
  inl, inr,
}
use netflow_collector.Api.Auth.{
  Text, bytes_eq, bytes_eq_sound, authorized, bearer_token, authorized_iff,
}
use netflow_collector.Api.Server.{
  Request, Route, flows, exporters, unauthorized, is_get, v1_route, in_v1, public_route, route_of,
}

-- A handler of the inner mux.
abbrev pub of_v1 : Route → Bool
of_v1 flows = true
of_v1 exporters = true
of_v1 Route.metrics = false
of_v1 Route.healthz = false
of_v1 Route.readyz = false
of_v1 Route.method_not_allowed = false
of_v1 Route.not_found = false
of_v1 unauthorized = false
of_v1 Route.redirected = false

-- The paths of the table of routes.
abbrev pub listed : Text → Bool
listed path = bytes_eq path (codes "/v1/flows") || bytes_eq path (codes "/v1/exporters")

listed-in_v1 : (path : Text) → listed path ≡ true → in_v1 path ≡ true
unfolding bytes_eq
listed-in_v1 path e = elim (Bool-cases (bytes_eq path (codes "/v1/flows"))) [
  | inl f ↦ rw (bytes_eq_sound path (codes "/v1/flows") f) refl
  | inr n ↦ rw (bytes_eq_sound path (codes "/v1/exporters") (ground (arith, e, n))) refl
]

v1_route_lem : (method path : Text) → of_v1 (v1_route method path) ≡ (listed path && is_get method)
unfolding v1_route
v1_route_lem method path = ground arith

public_route_lem : (method path : Text) → of_v1 (public_route method path) ≡ false
unfolding public_route
public_route_lem method path = ground arith

module _ (trim_space : Text → Text) (equal_fold : Text → Text → Bool) (keys : List Text) where
  route_lem :
      (r : Request)
      → of_v1 (route_of trim_space equal_fold keys r) ≡ (
          listed r.path
          && (is_get r.method && authorized trim_space equal_fold keys r.authorization))
  unfolding route_of
  route_lem r =
      ground
        (arith, v1_route_lem r.method r.path, public_route_lem r.method r.path, listed-in_v1 r.path)

  -- A request reaches a handler of the /v1 table exactly if its path is one of the table's, its method is
  -- GET or HEAD, and its header carries a bearer token that is one of the keys.
  pub route_of_iff :
      (r : Request)
      → (of_v1 (route_of trim_space equal_fold keys r) ≡ true) ↔ (
          (listed r.path ≡ true)
          × (is_get r.method ≡ true)
          × ((token : Text) × (bearer_token trim_space equal_fold r.authorization ≡ some token)
              × In token keys))
  route_of_iff r =
      let (to, from) = authorized_iff trim_space equal_fold keys r.authorization in
      (
        λ e.
            let all = sym (route_lem r) ∙ e in
            (ground (arith, all), ground (arith, all), to (ground (arith, all))),
        λ h. route_lem r ∙ ground (arith, h.0, h.1, from h.2),
      )
