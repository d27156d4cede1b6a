-- ===== src/Tests/Relisting.antt =====
-- A table that is posted, listed and posted again, with a decoder that reads listings.
use decision_gateway.Prelude.{List, Option, Bool, true, none, ◌&&◌, ◌++◌, if◌then◌else◌}
use decision_gateway.Api.Utf8.{is_utf8}
use decision_gateway.Net.Url.{Url}
use decision_gateway.Prelude.{◌≡◌, refl, some, [], ◌∷◌, ◌++◌, text, ok}
use decision_gateway.Gateway.{Router, new_router}
use decision_gateway.Gateway.Rebuilding.{new_router-routes}
use decision_gateway.World.{World, Env, RouteSpec}
use decision_gateway.Proxy.Build
use decision_gateway.Api.Json.{json_string}
use decision_gateway.Api.Json.Reading.{read_listing, read_string}
use decision_gateway.Api.Json.Strings.{read_string-json_string}
use decision_gateway.Tests.Sample.{backend, env, world, routes, router, spec}
use decision_gateway.Tests.Routing.{builds}
use decision_gateway.Tests.Forwarding.{handler}

new_router-routes_example : new_router router.routes ≡ ok router
new_router-routes_example = new_router-routes routes router builds

reads_back :
    read_string (json_string (text "a\"\n<b>\\") ++ text ",1") ≡ some (text "a\"\n<b>\\", text ",1")
unfolding decision_gateway.Api.Utf8.repair
reads_back = read_string-json_string (text "a\"\n<b>\\") (text ",1")

abbrev api_spec : RouteSpec
api_spec = record { prefix = text "/api"; backend = text "http://b:1" }

-- A byte of no character, one of U+2028 and one of a character of two bytes.
encodes_others :
    json_string (255 ∷ 226 ∷ 128 ∷ 168 ∷ 195 ∷ 169 ∷ [])
    ≡ text "\"\\ufffd\\u2028" ++ 195 ∷ 169 ∷ 34 ∷ []
unfolding json_string
encodes_others = refl

abbrev are_utf8 : List RouteSpec → Bool
are_utf8 [] = true
are_utf8 (spec ∷ specs) = is_utf8 spec.prefix && is_utf8 spec.backend && are_utf8 specs

abbrev keep_utf8 : Option (List RouteSpec) → Option (List RouteSpec)
keep_utf8 none = none
keep_utf8 (some specs) = if are_utf8 specs then some specs else none

-- A decoder of listings that takes UTF-8 only.
abbrev reading : Env
reading = record env { decode_routes = λ t. keep_utf8 (read_listing t) }

abbrev replaced_world : World
replaced_world = record world { current = some handler }
