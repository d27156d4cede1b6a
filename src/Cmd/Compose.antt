-- ===== src/Cmd/Compose.antt =====
-- cmd/decision-gateway/main.go: from the options to the handler of the server. The handler behind
-- /metrics and the mux's redirection are parameters.
pub mod Serving
pub mod Fronts
pub mod Announce
pub mod Refusal
pub mod Boot
pub mod Returning
use decision_gateway.Prelude.{
  ℕ, ◌⊎◌, inl, inr, Bool, true, false, Option, none, some, List, [], ◌∷◌, if◌then◌else◌, Text, text,
  Outcome, ok, err, panic, ℤ,
}
use decision_gateway.Prelude.Results.{◌>>=◌}
use decision_gateway.Net.Url.{Url}
use decision_gateway.Gateway.{Route, Router, RouterError, new_router}
use decision_gateway.Metrics.Registry.{Sink, new_sink}
use decision_gateway.World.{World, Env, Handler, RouteSpec, BootEntry, read_clock}
use decision_gateway.Otel.Bootstrap.{Sdk, Tracer, Globals, bootstrap}
use decision_gateway.Proxy.Transport.{instrumented, upstream_http1, upstream_h2c}
use decision_gateway.Proxy.Build.{BuildConfig, BuildError}
use decision_gateway.Proxy.Build
use decision_gateway.Proxy.Serve.{serve}
use decision_gateway.Proxy.Holder.{new_holder, serve_current}
use decision_gateway.Api.Health.{healthz, readyz, is_ready}
use decision_gateway.Api.Routes.{routes_admin}
use decision_gateway.Middleware.CorrelationId.{correlation_id}
use decision_gateway.Middleware.AccessLog.{access_log}
use decision_gateway.Metrics.{metrics}
use decision_gateway.Otel.Trace.{trace}
use decision_gateway.Cmd.Flags.{RouteFlagList, FlagError, parse_route_flags}
use decision_gateway.Cmd.Mux.{Patterns, serve_mux}

-- The values of the flags.
pub record Options : Type 0 where
  pub listen : Text
  pub backend_timeout : ℤ
  pub upstream_max_idle_conns : ℤ
  pub upstream_idle_timeout : ℤ
  pub upstream_h2c : Bool
  pub metrics_enabled : Bool
  pub routes_admin : Bool
  pub otel_enabled : Bool
  pub route : RouteFlagList

unfoldable pub build_config : Options → BuildConfig
build_config o = record {
  backend_timeout = o.backend_timeout;
  pool = record {
    max_idle_conns_per_host = o.upstream_max_idle_conns;
    idle_conn_timeout = o.upstream_idle_timeout;
  };
  protocol = if o.upstream_h2c then upstream_h2c else upstream_http1;
  transport_wrapper = if o.otel_enabled then some (instrumented true) else none;
}

-- The catch-all handler: the holder, which is in the state, or one handler for good.
pub data Front : Type 0 where
  held : Front
  fixed : Build.Handler → Front

pub data RunError : Type 0 where
  flag_error : FlagError → RunError
  router_error : RouterError → RunError
  bootstrap_error : Text → RunError
  build_error : BuildError → RunError
  server_error : Text → RunError

pub raise {ℓ κ μ} : {E : Type ℓ} {F : Type κ} {A : Type μ} → (E → F) → Outcome E A → Outcome F A
raise f (ok a) = ok a
raise f (err e) = err (f e)
raise f panic = panic

abbrev pub instrumentation : Text
instrumentation = text "github.com/helmedeiros/decision-gateway/cmd/decision-gateway"

finish_bootstrap : World → (Text ⊎ Tracer) × Globals → Outcome RunError World
finish_bootstrap s (inl e, g) = err (bootstrap_error e)
finish_bootstrap s (inr tracer, g) = ok (record s { telemetry = g })

-- The call of gwotel.Bootstrap.
pub start_tracing : Bool → Sdk → World → Outcome RunError World
unfolding finish_bootstrap
start_tracing false sdk s = ok s
start_tracing true sdk s = finish_bootstrap s (bootstrap sdk instrumentation s.telemetry)

pub build_front : Options → Router → World → Outcome RunError (Front × World)
build_front o router s =
    if o.routes_admin
    then (do s' ← raise build_error (new_holder (some router) (build_config o) s); ok (held, s'))
    else (do h ← raise build_error (Build.new (some router) (build_config o)); ok (fixed h, s))

-- The routes as bootBoot describes them; `none` where a backend is nil, of which String panics.
pub describe_routes : Env → List Route → Option (List RouteSpec)
describe_routes env [] = some []
describe_routes env (r ∷ rs) = elim (r.backend) [
  | none ↦ none
  | some u ↦ elim (describe_routes env rs) [
    | none ↦ none
    | some rest ↦ some (record { prefix = r.prefix; backend = env.url_string u } ∷ rest)
  ]
]

-- `bootBoot`, with the Front that `run` goes on with.
pub boot_boot : Env → Options → List Route → Front → World → Outcome RunError (Front × World)
unfolding describe_routes
boot_boot env o routes front s = elim (describe_routes env routes) [
  | none ↦ panic
  | some descs ↦
      let clock : ℕ × World = read_clock env s in
      let entry : BootEntry = record {
        time = clock.0;
        level = text "info";
        msg = text "gateway.boot";
        listen = o.listen;
        routes = descs;
        backend_timeout = o.backend_timeout;
      } in
      ok (front, record (clock.1) { boot_log = entry ∷ s.boot_log })
]

-- The call of gwmetrics.New, whose sink the middleware needs.
pub start_metrics : Bool → Env → Outcome RunError (Option Sink)
start_metrics false env = ok none
start_metrics true env = elim (new_sink env.prometheus) [
  | none ↦ panic
  | some sink ↦ ok (some sink)
]

-- `run` up to the listener. What is left out in between, the mux and the middlewares, changes
-- no state.
unfoldable pub setup : Env → Sdk → Options → World → Outcome RunError (Front × World)
unfolding raise start_tracing build_front start_metrics boot_boot
setup env sdk o s = do
  routes ← raise flag_error (parse_route_flags env o.route)
  router ← raise router_error (new_router routes)
  s1 ← start_tracing o.otel_enabled sdk s
  built ← build_front o router s1
  sink ← start_metrics o.metrics_enabled env
  boot_boot env o routes built.0 built.1

unfoldable pub serve_front : Env → Front → Handler
serve_front env held = serve_current env
serve_front env (fixed h) = serve env h

module _ (env : Env) (metrics_page : Handler) (redirect : Url → Handler) where
  patterns : Options → Front → Patterns
  patterns o front = record {
    healthz = healthz;
    readyz = readyz is_ready;
    metrics = if o.metrics_enabled then some metrics_page else none;
    routes = if o.routes_admin then some (routes_admin env (build_config o) true) else none;
    rest = serve_front env front;
  }

  unfoldable pub mux : Options → Front → Handler
  unfolding patterns
  mux o front = serve_mux redirect (patterns o front)

  -- The composition order of `run`.
  unfoldable pub handler : Options → Front → Handler
  handler o front =
      let logged = access_log env (mux o front) in
      let metered = if o.metrics_enabled then metrics env logged else logged in
      correlation_id env (trace env o.otel_enabled metered)
