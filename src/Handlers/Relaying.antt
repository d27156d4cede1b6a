-- ===== src/Handlers/Relaying.antt =====
-- internal/proxy/proxy.go: what the client gets of a backend's reply.
use decision_gateway.Prelude.{◌≡◌, ap, ◌∙◌, subst, none, some, List, ◌∷◌, length, ok}
use decision_gateway.Net.Http.{Request, Response}
use decision_gateway.Gateway.{Route, Router, new_router}
use decision_gateway.Gateway.Matching.{IsLongest}
use decision_gateway.Writer.{Writer, set_matched_route, response_of}
use decision_gateway.Writer.Agreement.{
  sent, response_of-set_matched_route, set_matched_route-Agrees,
}
use decision_gateway.World.{World, Env}
use decision_gateway.Proxy.Build.{BuildConfig, new}
use decision_gateway.Proxy.Build
use decision_gateway.Proxy.Build.Selection.{proxy_to}
use decision_gateway.Proxy.Forward.{AreWhole, outbound, relay}
use decision_gateway.Proxy.Serve.{serve, stamp_id}
use decision_gateway.Proxy.Transport.{RoundTripper}
use decision_gateway.Otel.Instrumented.{round_trip}
use decision_gateway.Pipeline.{IsFresh}
use decision_gateway.Proxy.Relayed.{IsRelayed, relay-IsRelayed}
use decision_gateway.Handlers.Selection.{serve_longest}
use decision_gateway.Handlers.Network.{round_trip-Sends, forward_whole}

-- A request is sent to the backend once, and the client gets what came back.
pub record Relays (env : Env) (h : Build.Handler) (r : Request) (w : Writer) (s : World)
    : Type 0 where
  pub w' : Writer
  pub s' : World
  pub over : RoundTripper
  pub sent_out : Request
  pub ends : serve env h r w s ≡ some (w', s')
  pub logged : s'.forwarded ≡ (over, sent_out) ∷ s.forwarded
  pub relayed :
      IsRelayed (env.network (length s.forwarded) over sent_out) (response_of w) (response_of w')

-- When a request whose path has a prefix of the table comes with a writer that no status was sent
-- through, through whatever layers, the handler returns after one request to the network, and the
-- client gets the status and the body of the reply to it and, after the headers set before, the
-- headers of the reply but for those of one hop; where the network fails the status is 502 and the
-- body is as before. Every reply can be copied to its client in full.
pub serve-Relays :
    (env : Env) (cfg : BuildConfig) (rs : List Route) (router : Router) (h : Build.Handler)
    (route : Route) (r : Request) (w : Writer) (s : World)
    → AreWhole env
    → new_router rs ≡ ok router
    → new (some router) cfg ≡ ok h
    → IsLongest r.url.path rs route
    → IsFresh w
    → Relays env h r w s
serve-Relays env cfg rs router h route r w s whole built made longest fresh =
    let (u, has_u, ends) = serve_longest env cfg rs router h route r w s built made longest in
    let out = outbound u (stamp_id r) in
    let (trip, s1) = round_trip env (proxy_to cfg u).transport out s in
    let d = round_trip-Sends env (proxy_to cfg u).transport out s in
    let w1 = set_matched_route route.prefix w in
    let below = response_of-set_matched_route route.prefix w in
    let unsent : sent w1 ≡ none = ap (λ (x : Response). x.status) below ∙ fresh.unsent in
    let got =
      relay-IsRelayed trip w1 (set_matched_route-Agrees route.prefix w fresh.agrees) unsent in
    record {
      w' = relay trip w1;
      s' = s1;
      over = d.over;
      sent_out = d.sent;
      ends =
          ends
          ∙ forward_whole env (proxy_to cfg u) (stamp_id r) (set_matched_route route.prefix w) s
              whole;
      logged = d.logged;
      relayed =
          subst (λ t. IsRelayed t (response_of w) (response_of (relay trip w1))) d.answered
            (subst (λ x. IsRelayed trip x (response_of (relay trip w1))) below got);
    }
