-- ===== src/Api/Routes/Listing.antt =====
-- internal/httpapi/routes_admin.go: writeRoutes on the table of a wired handler.
use decision_gateway.Prelude.{◌≡◌, refl, some, List, [], ◌∷◌, arith, Text, text}
use decision_gateway.Net.Url.{Url}
use decision_gateway.Net.Headers.{set}
use decision_gateway.Gateway.{Route}
use decision_gateway.Writer.{Writer, write, edit_header}
use decision_gateway.World.{Env}
use decision_gateway.Proxy.Build.Wiring.{IsBacked}
use decision_gateway.Api.Json.{json_object}
use decision_gateway.Api.Routes.{route_objects, routes_json, write_routes}

-- The object that lists a route with backend `u`.
abbrev pub route_object : Env → Route → Url → Text
route_object env r u =
    json_object ((text "prefix", r.prefix) ∷ (text "backend", env.url_string u) ∷ [])

route_objects_return :
    (env : Env) (rs : List Route)
    → IsBacked rs
    → (objects : List Text) × (route_objects env rs ≡ some objects)
unfolding route_objects
route_objects_return env [] b = ([], refl)
route_objects_return env (r ∷ rs) ((u, has_u), b) =
    let (objects, ends) = route_objects_return env rs b in
    (route_object env r u ∷ objects, ground arith)

pub write_routes_return :
    (env : Env) (rs : List Route) (w : Writer)
    → IsBacked rs
    → (objects : List Text) × (write_routes env (some rs) w
        ≡ some (
            write
              (routes_json objects)
              (edit_header (set (text "Content-Type") (text "application/json")) w)))
unfolding write_routes
write_routes_return env rs w b =
    let (objects, ends) = route_objects_return env rs b in (objects, ground arith)
