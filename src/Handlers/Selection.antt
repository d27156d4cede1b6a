-- ===== src/Handlers/Selection.antt =====
-- internal/proxy/proxy.go: the proxy that ServeHTTP hands a request to.
use decision_gateway.Prelude.{◌≡◌, ap, ◌∙◌, some, List, All-mem, ok}
use decision_gateway.Net.Url.{Url}
use decision_gateway.Net.Http.{Request}
use decision_gateway.Gateway.{Route, Router, new_router, match}
use decision_gateway.Gateway.Validation.{IsServable}
use decision_gateway.Gateway.Construction.{new_router_accepts_iff}
use decision_gateway.Gateway.Matching.{IsLongest}
use decision_gateway.Gateway.Order.{match-some_iff}
use decision_gateway.Writer.{Writer, set_matched_route}
use decision_gateway.World.{World, Env}
use decision_gateway.Proxy.Build.{BuildConfig, find_proxy, new}
use decision_gateway.Proxy.Build
use decision_gateway.Proxy.Build.Wiring.{find_proxy-leads}
use decision_gateway.Proxy.Build.Selection.{proxy_to, new-built}
use decision_gateway.Proxy.Forward.{forward}
use decision_gateway.Proxy.Serve.{serve, stamp_id}
use decision_gateway.Handlers.Proxying.{serve_found}

-- A handler made from the routes of a table hands every request whose path has a prefix of the
-- table to the reverse proxy for the backend of the route with the longest such prefix, after
-- stamp_id, and with that prefix on the writer.
pub serve_longest :
    (env : Env) (cfg : BuildConfig) (rs : List Route) (router : Router) (h : Build.Handler)
    (route : Route) (r : Request) (w : Writer) (s : World)
    → new_router rs ≡ ok router
    → new (some router) cfg ≡ ok h
    → IsLongest r.url.path rs route
    → (u : Url) × (route.backend ≡ some u)
      × (serve env h r w s
          ≡ forward env (proxy_to cfg u) (stamp_id r) (set_matched_route route.prefix w) s)
serve_longest env cfg rs router h route r w s built made longest =
    let table = ((new_router_accepts_iff rs).0 (router, built)).1 in
    let (_, (u, has_u)) = All-mem IsServable table.servable longest.listed in
    let chosen = (match-some_iff rs router r.url.path route built).1 longest in
    (
      u,
      has_u,
      serve_found env h r w s route (proxy_to cfg u)
          (ap (λ x. match x r.url.path) (new-built cfg router h made).0 ∙ chosen)
          (find_proxy-leads cfg rs router h route u built made longest.listed has_u),
    )
