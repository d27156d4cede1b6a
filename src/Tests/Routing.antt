-- ===== src/Tests/Routing.antt =====
-- internal/gateway/router.go and the --route flags.
use decision_gateway.Prelude.{
  ◌≡◌, refl, ◌≢◌, ◌↔◌, none, some, [], ◌∷◌, Permᴰ, Text, text, text_eq, has_prefix, ok, err,
}
use decision_gateway.Net.Headers.{canonical_key}
use decision_gateway.Gateway.{Router, new_router, match, duplicate_prefix}
use decision_gateway.Gateway.Validation.{IsTable, Explains}
use decision_gateway.Gateway.Construction.{
  IsRouterOf, new_router_accepts_iff, new_router-IsRouterOf, new_router-Explains,
}
use decision_gateway.Gateway.Matching.{IsLongest}
use decision_gateway.Gateway.Order.{match-some_iff}
use decision_gateway.Gateway.Extensional.{SameRoutes, match_extensional, match_order_irrelevant}
use decision_gateway.Cmd.Flags.{split_arrow, parse_route_flags, flag_string}
use decision_gateway.Cmd.Flags.Parsing.{AllName, parse_route_flags_iff}
use decision_gateway.Middleware.Names.{correlation_id_header}
use decision_gateway.Tests.Sample.{
  root_route, api_route, routes, router, swapped_routes, env, flags,
}

pub builds : new_router routes ≡ ok router
unfolding new_router text_eq
builds = refl

builds_swapped : new_router swapped_routes ≡ ok router
unfolding new_router text_eq
builds_swapped = refl

repeats :
    new_router (root_route ∷ api_route ∷ root_route ∷ []) ≡ err (duplicate_prefix (text "/") 0 2)
unfolding new_router text_eq
repeats = refl

pub longest : match router (text "/api/x") ≡ some api_route
unfolding match has_prefix
longest = refl

shorter : match router (text "/ap") ≡ some root_route
unfolding match has_prefix
shorter = refl

first_arrow : split_arrow (text "/a=>b=>c") ≡ some (text "/a", text "b=>c")
unfolding split_arrow
first_arrow = refl

no_arrow : split_arrow (text "/a=b>c") ≡ none
unfolding split_arrow
no_arrow = refl

parses : parse_route_flags env flags ≡ ok routes
unfolding parse_route_flags split_arrow
parses = refl

prints : flag_string flags ≡ text "/=>http://b:1,/api=>http://b:1"
unfolding flag_string
prints = refl

canonical : canonical_key (text "X-Correlation-ID") ≡ correlation_id_header
unfolding canonical_key
canonical = refl

new_router_accepts_iff_example :
    ((q : Router) × (new_router routes ≡ ok q)) ↔ ((routes ≢ []) × IsTable routes)
new_router_accepts_iff_example = new_router_accepts_iff routes

new_router-IsRouterOf_example : IsRouterOf routes router
new_router-IsRouterOf_example = new_router-IsRouterOf routes router builds

new_router-Explains_example :
    Explains (root_route ∷ api_route ∷ root_route ∷ []) (duplicate_prefix (text "/") 0 2)
new_router-Explains_example =
    new_router-Explains (root_route ∷ api_route ∷ root_route ∷ []) (duplicate_prefix (text "/") 0 2)
      repeats

match-some_iff_example :
    (match router (text "/api/x") ≡ some api_route) ↔ IsLongest (text "/api/x") routes api_route
match-some_iff_example = match-some_iff routes router (text "/api/x") api_route builds

-- The other order gives the same router.
alike : match router (text "/api") ≡ match router (text "/api")
alike =
    match_order_irrelevant routes swapped_routes router router (text "/api") (Permᴰ.swap refl refl)
      builds builds_swapped

match_extensional_example :
    ((path : Text) → match router path ≡ match router path) ↔ SameRoutes routes swapped_routes
match_extensional_example =
    match_extensional routes swapped_routes router router builds builds_swapped

parse_route_flags_iff_example :
    (parse_route_flags env flags ≡ ok routes) ↔ ((flags ≢ []) × AllName env flags routes)
parse_route_flags_iff_example = parse_route_flags_iff env flags routes
