-- ===== src/Tests/Fronts.antt =====
-- A request to the sample gateway, with the Holder and without.
use decision_gateway.Prelude.{
  ◌≡◌, refl, sym, ◌∙◌, ◌≢◌, true, false, [], ◌∷◌, text, text_eq, has_prefix,
}
use decision_gateway.Net.Http.{fresh_response}
use decision_gateway.Writer.{server}
use decision_gateway.Proxy.Build
use decision_gateway.Api.Health.{healthz}
use decision_gateway.Cmd.Mux.Select.{admin, proxied, is_direct, path_way}
use decision_gateway.Cmd.Compose.{held, fixed, handler}
use decision_gateway.Cmd.Compose.Serving.{way}
use decision_gateway.Cmd.Compose.Fronts.{handler-fixed}
use decision_gateway.Proxy.Build.Selection.{proxy_to}
use decision_gateway.Cmd.Compose.{build_config}
use decision_gateway.Tests.Sample.{backend, env, options, router, get_request}
use decision_gateway.Tests.Serving.{redirect, booted}

abbrev front : Build.Handler
front = record {
  router = router;
  proxies =
      (text "/", proxy_to (build_config options) backend)
      ∷ (text "/api", proxy_to (build_config options) backend)
      ∷ [];
}

proxies_api : way (record options { routes_admin = true }) (text "GET") (text "/api/x") ≡ proxied
unfolding path_way is_direct text_eq decision_gateway.Cmd.Mux.clean_path has_prefix
proxies_api = refl

not_for_admin : way (record options { routes_admin = true }) (text "GET") (text "/api/x") ≢ admin
not_for_admin e = let both : proxied ≡ admin = sym proxies_api ∙ e in cc

handler-fixed_example :
    handler env healthz redirect
      (record options { routes_admin = true })
      held
      (get_request (text "/api/x"))
      (server fresh_response)
      booted
    ≡ handler env healthz redirect
        (record options { routes_admin = false })
        (fixed front)
        (get_request (text "/api/x"))
        (server fresh_response)
        booted
handler-fixed_example =
    handler-fixed env healthz redirect options front (get_request (text "/api/x"))
      (server fresh_response) booted not_for_admin refl
