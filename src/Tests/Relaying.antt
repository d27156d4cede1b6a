-- ===== src/Tests/Relaying.antt =====
-- A proxied request's reply and its spans, at the sample table.
use decision_gateway.Net.Url.{Url}
use decision_gateway.World.{Env, cut}
use decision_gateway.Prelude.{◌≡◌, refl, true, some, [], ◌∷◌, text, ok}
use decision_gateway.Net.Http.{fresh_response}
use decision_gateway.Writer.{Writer, recorder, server, response_of}
use decision_gateway.Proxy.Transport.{instrumented}
use decision_gateway.Proxy.Build.{new}
use decision_gateway.Proxy.Build
use decision_gateway.Proxy.Build.Selection.{proxy_to}
use decision_gateway.Proxy.Forward.{AreWhole, is_cut}
use decision_gateway.Pipeline.{IsFresh}
use decision_gateway.Handlers.Relaying.{Relays, serve-Relays}
use decision_gateway.Handlers.Hops.{IsTraced, Speaks, serve_traces}
use decision_gateway.Middleware.AccessLog.{fresh_recorder}
use decision_gateway.Cmd.Compose.{build_config}
use decision_gateway.Tests.Sample.{
  reply, backend, api_route, routes, router, env, world, get_request, options,
}
use decision_gateway.Tests.Routing.{builds}
use decision_gateway.Tests.Table.{config}
use decision_gateway.Tests.Forwarding.{handler, made, is_longest}

-- The writer of the access log over the server's.
abbrev layered : Writer
layered = recorder fresh_recorder (server fresh_response)

layered-IsFresh : IsFresh layered
unfolding response_of
layered-IsFresh = record { unsent = refl; agrees = (refl, refl, tt); unstamped = (refl, tt) }

env-AreWhole : AreWhole env
unfolding is_cut
env-AreWhole n rt q = refl

serve-Relays_example : Relays env handler (get_request (text "/api/x")) layered world
serve-Relays_example =
    serve-Relays env config routes router handler api_route (get_request (text "/api/x")) layered
      world env-AreWhole builds made is_longest layered-IsFresh

abbrev traced_handler : Build.Handler
traced_handler = record {
  router = router;
  proxies =
      (text "/", proxy_to (build_config options) backend)
      ∷ (text "/api", proxy_to (build_config options) backend)
      ∷ [];
}

made_traced : new (some router) (build_config options) ≡ ok traced_handler
unfolding new decision_gateway.Gateway.routes_of Build.new_reverse_proxy
made_traced = refl

wraps : (build_config options).transport_wrapper ≡ some (instrumented true)
unfolding build_config
wraps = refl

serve_traces_example :
    (t : IsTraced env traced_handler (get_request (text "/api/x")) layered world)
    × (api_route.backend ≡ some t.u)
    × Speaks (build_config options).protocol t.over
serve_traces_example =
    serve_traces env (build_config options) routes router traced_handler api_route
      (get_request (text "/api/x")) layered world env-AreWhole builds made_traced is_longest wraps

-- A backend that breaks off in the body.
abbrev breaking : Env
breaking = record env { network = λ n rt r. cut reply }
