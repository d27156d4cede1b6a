-- ===== src/Handlers/Sending.antt =====
-- internal/proxy/proxy.go: the request that a backend is sent.
use decision_gateway.Prelude.{◌≡◌, ◌∙◌, ◌≢◌, some, List, [], ◌∷◌, ok}
use decision_gateway.Net.Url.{Url}
use decision_gateway.Net.Headers.{get}
use decision_gateway.Net.Http.{Request}
use decision_gateway.Gateway.{Route, Router, new_router}
use decision_gateway.Gateway.Matching.{IsLongest}
use decision_gateway.Middleware.Names.{correlation_id_header}
use decision_gateway.Middleware.CorrelationId.{id_from_context}
use decision_gateway.Writer.{Writer, set_matched_route}
use decision_gateway.World.{World, Env}
use decision_gateway.Proxy.Transport.{RoundTripper}
use decision_gateway.Proxy.Build.{BuildConfig, new, ReverseProxy}
use decision_gateway.Proxy.Build
use decision_gateway.Proxy.Build.Selection.{proxy_to}
use decision_gateway.Proxy.Forward.{outbound, relay}
use decision_gateway.Proxy.Serve.{serve, stamp_id}
use decision_gateway.Otel.Instrumented.{round_trip}
use decision_gateway.Pipeline.Traced.{IsSteady}
use decision_gateway.Handlers.Selection.{serve_longest}
use decision_gateway.Handlers.{inbound}
use decision_gateway.Handlers.Network.{round_trip-Sends, forward_whole, sent-IsDelivery}
use decision_gateway.Handlers.Outbound.{KeepsIdOnHop, IsDelivery, outbound_carries}

-- A forwarded request is sent once, to the backend and with the ID that was stamped.
pub record Forwards (env : Env) (h : Build.Handler) (u : Url) (r : Request) (w : Writer) (s : World)
    : Type 0 where
  pub w' : Writer
  pub s' : World
  pub over : RoundTripper
  pub sent : Request
  pub ends : serve env h r w s ≡ some (w', s')
  pub logged : s'.forwarded ≡ (over, sent) ∷ s.forwarded
  pub delivery : IsDelivery u (inbound r) sent
  pub carries : get correlation_id_header sent.header ≡ id_from_context r.context

-- A handler made from the routes of a table sends a request, whose path has a prefix of the table
-- and which has a correlation ID in its context, exactly once: to the scheme and host of the
-- backend of the route with the longest such prefix, under the backend's path, with the client's
-- method, host and body, and with that ID in its header. The propagator keeps the ID, and the
-- client's Connection header does not name it; every reply of a backend can be copied to its client
-- in full.
pub serve_sends :
    (env : Env) (cfg : BuildConfig) (rs : List Route) (router : Router) (h : Build.Handler)
    (route : Route) (r : Request) (w : Writer) (s : World)
    → IsSteady env
    → new_router rs ≡ ok router
    → new (some router) cfg ≡ ok h
    → IsLongest r.url.path rs route
    → id_from_context r.context ≢ []
    → KeepsIdOnHop r.header
    → (u : Url) × (route.backend ≡ some u) × Forwards env h u r w s
serve_sends env cfg rs router h route r w s prop built made longest filled keeps =
    let (u, has_u, ends) = serve_longest env cfg rs router h route r w s built made longest in
    let rt = (proxy_to cfg u).transport in
    let out = outbound u (stamp_id r) in
    let d = round_trip-Sends env rt out s in
    (
      u,
      has_u,
      record {
        w' = relay (round_trip env rt out s).0 (set_matched_route route.prefix w);
        s' = (round_trip env rt out s).1;
        over = d.over;
        sent = d.sent;
        ends =
            ends
            ∙ forward_whole env (proxy_to cfg u) (stamp_id r) (set_matched_route route.prefix w) s
                prop.whole;
        logged = d.logged;
        delivery = sent-IsDelivery env u r d.sent d.same;
        carries = d.same.id prop ∙ outbound_carries u r filled keeps;
      },
    )
