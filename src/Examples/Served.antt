-- ===== src/Examples/Served.antt =====
-- Requests through the muxes and the middleware, with one key, "k".
use netflow_collector.Base.{◌≡◌, refl, true, some, [], ◌∷◌, codes, In, ◌↔◌}
use netflow_collector.Api.Auth.{Text, bytes_eq, authorized, accepts, bearer_token, key_matches}
use netflow_collector.Api.Server.{
  Request, Route, StatusWriter, Handlers, content, internal_error, route_of, serve, middleware,
  run_route, write_json, v1_route, is_get,
}
use netflow_collector.Api.Server.Reached.{of_v1, listed, route_of_iff}
use netflow_collector.Examples.Requests.{trim}

abbrev asked : Request
asked = record { method = codes "GET"; path = codes "/v1/flows"; authorization = codes "Bearer k" }

-- Handlers that panic after they have written, and before.
abbrev late : Handlers
late r w = (write_json 200 (content r) w, true)

abbrev early : Handlers
early r w = (w, true)

abbrev answer : Handlers → Request → StatusWriter
answer handlers r = serve trim (λ a b. bytes_eq a b) (codes "k" ∷ []) handlers r

early_panic : (answer early asked).status ≡ 500
unfolding serve route_of authorized accepts bearer_token key_matches bytes_eq v1_route run_route
    middleware write_json
early_panic = refl

late_panic : (answer late asked).bodies ≡ content Route.flows ∷ internal_error ∷ []
unfolding serve route_of authorized accepts bearer_token key_matches bytes_eq v1_route run_route
    middleware write_json
late_panic = refl

posted : (answer late (record asked { method = codes "POST" })).status ≡ 405
unfolding serve route_of authorized accepts bearer_token key_matches bytes_eq v1_route run_route
    middleware write_json
posted = refl

route_of_iff_example :
    (of_v1 (route_of trim (λ a b. bytes_eq a b) (codes "k" ∷ []) asked) ≡ true) ↔ (
      (listed (codes "/v1/flows") ≡ true)
      × (is_get (codes "GET") ≡ true)
      × ((token : Text) × (bearer_token trim (λ a b. bytes_eq a b) (codes "Bearer k") ≡ some token)
          × In token (codes "k" ∷ [])))
route_of_iff_example = route_of_iff trim (λ a b. bytes_eq a b) (codes "k" ∷ []) asked

-- Without a key, and the same request with one.
abbrev keyless : Request
keyless = record asked { authorization = [] }

turned_away : (answer late keyless).status ≡ 401
unfolding serve route_of authorized accepts bearer_token key_matches bytes_eq v1_route run_route
    middleware write_json
turned_away = refl
