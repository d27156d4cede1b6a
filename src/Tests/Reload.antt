-- ===== src/Tests/Reload.antt =====
-- A table that is posted to a running gateway, and the transport that its handler uses.
use decision_gateway.Prelude.{◌≡◌, ◌⊎◌, true, none, text, pos, negsuc}
use decision_gateway.Net.Http.{Request, fresh_response}
use decision_gateway.Writer.{server}
use decision_gateway.Proxy.Transport.{
  HttpTransport, http1, upstream_http1, new_tuned_transport, PoolConfig,
}
use decision_gateway.Proxy.Transport.Bounds.{IsBounded, new_tuned_transport-IsBounded}
use decision_gateway.Api.Routes.{routes_admin}
use decision_gateway.Handlers.{Behaved, Unmarked}
use decision_gateway.Handlers.Proxying.{IsHeld}
use decision_gateway.Handlers.Table.{Posted, routes_admin-Behaves}
use decision_gateway.Handlers.Reload.{routes_admin_swaps}
use decision_gateway.Cmd.Compose.{held}
use decision_gateway.Cmd.Compose.Boot.{setup-Expects}
use decision_gateway.Tests.Sample.{env, sdk, world, options, get_request}
use decision_gateway.Tests.Table.{config}
use decision_gateway.Tests.Serving.{booted, boots}

abbrev pub post_request : Request
post_request = record (get_request (text "/admin/routes")) {
  method = text "POST";
  body = text "{}";
}

posted :
    Behaved IsHeld Unmarked
      (routes_admin env config true)
      post_request
      (server fresh_response)
      booted
posted =
    routes_admin-Behaves env config post_request (server fresh_response) booted
      (setup-Expects env sdk options world held booted boots).1

routes_admin_swaps_example :
    (posted.s' ≡ booted)
    ⊎ ((post_request.method ≡ text "POST") × Posted env post_request.body booted posted.s')
routes_admin_swaps_example =
    routes_admin_swaps env config post_request (server fresh_response) booted posted.w' posted.s'
      posted.ends

abbrev no_pool : PoolConfig
no_pool = record { max_idle_conns_per_host = negsuc 4; idle_conn_timeout = pos 0 }

new_tuned_transport-IsBounded_example :
    (t : HttpTransport) × (new_tuned_transport (pos 5) no_pool upstream_http1 none ≡ http1 t)
    × IsBounded (pos 5) no_pool t
new_tuned_transport-IsBounded_example = new_tuned_transport-IsBounded (pos 5) no_pool
