-- ===== src/Api/Routes.antt =====
-- internal/httpapi/routes_admin.go: reading and replacing the route table.
pub mod Listing
pub mod Reading
use decision_gateway.Prelude.{
  ℕ, Bool, true, false, not, ◌||◌, Option, none, some, List, [], ◌∷◌, ◌++◌, if◌then◌else◌, Text,
  text, text_eq, is_blank, Outcome, ok, err, panic, itoa,
}
use decision_gateway.Net.Headers.{set}
use decision_gateway.Gateway.{
  Route, RouterError, no_routes, empty_prefix, nil_backend, duplicate_prefix, new_router,
}
use decision_gateway.Writer.{Writer, write, edit_header}
use decision_gateway.World.{World, Env, Handler, RouteSpec}
use decision_gateway.Proxy.Build.{BuildConfig}
use decision_gateway.Proxy.Holder.{replace, current_routes}
use decision_gateway.Api.Json.{json_object, json_array, go_quote}
use decision_gateway.Api.Health.{answer}

unfoldable pub write_error : Writer → ℕ → Text → Writer
unfolding answer
write_error w status msg = answer status ((text "error", msg) ∷ []) w

-- The loop of `writeRoutes`; a nil backend has no text, and panics.
unfoldable pub route_objects : Env → List Route → Option (List Text)
route_objects env [] = some []
route_objects env (r ∷ rs) = elim (r.backend) [
  | none ↦ none
  | some u ↦ elim (route_objects env rs) [
    | none ↦ none
    | some rest ↦
        some
          (json_object ((text "prefix", r.prefix) ∷ (text "backend", env.url_string u) ∷ []) ∷ rest)
  ]
]

unfoldable pub routes_json : List Text → Text
routes_json objects = text "{\"routes\":" ++ json_array objects ++ b'}' ∷ 10 ∷ []

unfoldable pub write_routes : Env → Option (List Route) → Writer → Option Writer
unfolding route_objects routes_json
write_routes env none w = none
write_routes env (some rs) w = elim (route_objects env rs) [
  | none ↦ none
  | some objects ↦ some (
      write (routes_json objects)
        (edit_header (set (text "Content-Type") (text "application/json")) w))
]

-- The route of a spec, unless its backend is no URL with a scheme and a host.
unfoldable pub spec_route : Env → RouteSpec → Option Route
spec_route env spec = elim (env.parse_url spec.backend) [
  | none ↦ none
  | some u ↦
      if is_blank u.scheme || is_blank u.host
      then none
      else some (record { prefix = spec.prefix; backend = some u })
]

-- The loop of `postRoutes`: the routes, or the backend of the first spec that has none.
unfoldable pub spec_routes : Env → List RouteSpec → Outcome Text (List Route)
unfolding spec_route
spec_routes env [] = ok []
spec_routes env (spec ∷ specs) = elim (spec_route env spec) [
  | none ↦ err spec.backend
  | some r ↦ elim (spec_routes env specs) [ ok rs ↦ ok (r ∷ rs) | err e ↦ err e | panic ↦ panic ]
]

-- `err.Error()` of NewRouter's errors
unfoldable pub router_message : RouterError → Text
router_message no_routes = text "no routes configured"
router_message (empty_prefix i) = text "route[" ++ itoa i ++ text "] prefix is empty"
router_message (nil_backend i) = text "route[" ++ itoa i ++ text "] backend is nil"
router_message (duplicate_prefix p i j) =
    text "duplicate prefix "
    ++ go_quote p
    ++ text " at routes["
    ++ itoa i
    ++ text "] and routes["
    ++ itoa j
    ++ text "]"

-- What a POST does to the table: the new state, or the status and message of a refusal.
unfoldable pub post_table : Env → BuildConfig → Text → World → Outcome (ℕ × Text) World
post_table env cfg body s = elim (env.decode_routes body) [
  | none ↦ err (400, text "malformed JSON body")
  | some [] ↦ err (400, text "routes array is required and must not be empty")
  | some (spec ∷ specs) ↦ elim (spec_routes env (spec ∷ specs)) [
    | err backend ↦ err (400, text "invalid backend URL: " ++ backend)
    | panic ↦ panic
    | ok rs ↦ elim (new_router rs) [
      | err e ↦ err (400, text "router validation: " ++ router_message e)
      | panic ↦ panic
      | ok router ↦ elim (replace cfg (some router) s) [
        | err e ↦ err (500, text "replace: router is required")
        | panic ↦ panic
        | ok s' ↦ ok s'
      ]
    ]
  ]
]

unfoldable pub with_state : World → Option Writer → Option (Writer × World)
with_state s none = none
with_state s (some w) = some (w, s)

unfoldable pub answer_post :
    Env → Outcome (ℕ × Text) World → Writer → World → Option (Writer × World)
answer_post env panic w s = none
answer_post env (err (status, msg)) w s = some (write_error w status msg, s)
answer_post env (ok s') w s = with_state s' (write_routes env (current_routes s') w)

unfoldable pub post_routes : Env → BuildConfig → Handler
unfolding answer_post with_state
post_routes env cfg r w s = answer_post env (post_table env cfg r.body s) w s

-- `RoutesAdmin`; the test is whether the Holder is not nil.
unfoldable pub routes_admin : Env → BuildConfig → Bool → Handler
unfolding post_routes with_state
routes_admin env cfg false r w s = some (write_error w 500 (text "routes admin not configured"), s)
routes_admin env cfg true r w s =
    if text_eq r.method (text "GET")
    then with_state s (write_routes env (current_routes s) w)
    else if text_eq r.method (text "POST")
    then post_routes env cfg r w s
    else some (
      write_error (edit_header (set (text "Allow") (text "GET, POST")) w) 405
          (text "method not allowed"),
      s,
    )
