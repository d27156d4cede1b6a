-- ===== src/Proxy/Serve.antt =====
-- internal/proxy/proxy.go: the Handler's ServeHTTP and the not-found handler.
use decision_gateway.Prelude.{
  Option, none, some, [], ◌∷◌, ◌++◌, if◌then◌else◌, Text, text, is_blank,
}
use decision_gateway.Net.Headers.{set}
use decision_gateway.Net.Http.{Request}
use decision_gateway.Gateway.{Route, match}
use decision_gateway.Middleware.Names.{correlation_id_header}
use decision_gateway.Middleware.CorrelationId.{id_from_context}
use decision_gateway.Writer.{write_header, write, set_matched_route, edit_header}
use decision_gateway.World.{Env, Handler}
use decision_gateway.Proxy.Build.{find_proxy}
use decision_gateway.Proxy.Build
use decision_gateway.Proxy.Forward.{forward}

abbrev pub not_found_body : Text
not_found_body = text "{\"error\":\"no route matched\"}" ++ 10 ∷ []

unfoldable pub not_found : Handler
not_found r w s =
    let w1 = edit_header (set (text "Content-Type") (text "application/json")) w in
    some (write not_found_body (write_header 404 w1), s)

-- The correlation ID on the request that goes to the backend.
unfoldable pub stamp_id : Request → Request
stamp_id r =
    let id = id_from_context r.context in
    if is_blank id then r else record r { header = set correlation_id_header id r.header }

dispatch : Env → Build.Handler → Option Route → Handler
dispatch env h none r w s = not_found r w s
dispatch env h (some route) r w s = elim (find_proxy route.prefix h.proxies) [
  | none ↦ none
  | some rp ↦ forward env rp (stamp_id r) (set_matched_route route.prefix w) s
]

unfoldable pub serve : Env → Build.Handler → Handler
unfolding dispatch not_found stamp_id
serve env h r w s = dispatch env h (match h.router r.url.path) r w s
