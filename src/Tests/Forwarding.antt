-- ===== src/Tests/Forwarding.antt =====
-- A request for the sample table, and what its backend is sent.
use decision_gateway.Prelude.{◌≡◌, refl, ◌≢◌, none, some, [], ◌∷◌, text, ok}
use decision_gateway.Net.Url.{Url}
use decision_gateway.Net.Http.{Request, fresh_response}
use decision_gateway.Gateway.Matching.{IsLongest}
use decision_gateway.Gateway.Order.{match-some_iff}
use decision_gateway.Writer.{server}
use decision_gateway.Proxy.Build.{new}
use decision_gateway.Proxy.Build
use decision_gateway.Proxy.Build.Selection.{proxy_to}
use decision_gateway.Middleware.CorrelationId.{id_from_context}
use decision_gateway.Handlers.Outbound.{KeepsIdOnHop}
use decision_gateway.Handlers.Sending.{Forwards, serve_sends}
use decision_gateway.Tests.Sample.{backend, api_route, routes, router, env, world, get_request}
use decision_gateway.Tests.Routing.{builds, longest}
use decision_gateway.Tests.Table.{config}
use decision_gateway.Tests.Serving.{env-IsSteady}

abbrev pub handler : Build.Handler
handler = record {
  router = router;
  proxies = (text "/", proxy_to config backend) ∷ (text "/api", proxy_to config backend) ∷ [];
}

abbrev request : Request
request = record (get_request (text "/api/x")) {
  context = record { correlation_id = some (text "id"); span = none };
}

pub made : new (some router) config ≡ ok handler
unfolding new decision_gateway.Gateway.routes_of Build.new_reverse_proxy
made = refl

pub is_longest : IsLongest (text "/api/x") routes api_route
is_longest = (match-some_iff routes router (text "/api/x") api_route builds).0 longest

unnamed : KeepsIdOnHop request.header
unfolding decision_gateway.Net.Headers.named_keys decision_gateway.Net.Headers.values
unnamed = tt

identified : id_from_context request.context ≢ []
unfolding id_from_context
identified e = cc

serve_sends_example :
    (u : Url) × (api_route.backend ≡ some u)
    × Forwards env handler u request (server fresh_response) world
serve_sends_example =
    serve_sends env config routes router handler api_route request (server fresh_response) world
      env-IsSteady builds made is_longest identified unnamed
