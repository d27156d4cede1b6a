-- ===== src/Cmd/Compose/Fronts.antt =====
-- cmd/decision-gateway/main.go: the composed handler with the Holder and without.
use decision_gateway.Prelude.{◌≡◌, refl, ◌∙◌, ◌≢◌, Bool, true, false, some, if◌then◌else◌}
use decision_gateway.Net.Url.{Url}
use decision_gateway.Net.Http.{Request}
use decision_gateway.Writer.{Writer, recorder, meter, tracer}
use decision_gateway.World.{World, Env, Handler, read_clock}
use decision_gateway.Proxy.Build
use decision_gateway.Proxy.Holder.{serve_current}
use decision_gateway.Otel.Spans.{start_span, in_span}
use decision_gateway.Otel.Trace.{fresh_tracer, traced, trace}
use decision_gateway.Metrics.{fresh_meter, metrics}
use decision_gateway.Middleware.AccessLog.{fresh_recorder, access_log}
use decision_gateway.Middleware.CorrelationId.{resolve_id, with_id, correlation_id}
use decision_gateway.Pipeline.Identified.{resolve_id-Prepared}
use decision_gateway.Cmd.Mux.Select.{admin, serve_mux-agree}
use decision_gateway.Cmd.Compose.{Options, held, fixed, serve_front, patterns, mux, handler}
use decision_gateway.Cmd.Compose.Serving.{way}

module _ (env : Env) (o : Options) (h : Build.Handler) where
  -- The two do the same with every request that is not for the admin endpoint, while `h` is the
  -- current handler.
  abbrev Agree : Handler → Handler → Type 0
  Agree j k =
      (r : Request) (w : Writer) (s : World)
      → way o r.method r.url.path ≢ admin
      → s.current ≡ some h
      → j r w s ≡ k r w s

  access_log-Agree : (j k : Handler) → Agree j k → Agree (access_log env j) (access_log env k)
  unfolding access_log read_clock
  access_log-Agree j k a r w s ne e =
      rw (a r (recorder fresh_recorder w) (read_clock env s).1 ne e) refl

  metrics-Agree : (j k : Handler) → Agree j k → Agree (metrics env j) (metrics env k)
  unfolding metrics read_clock
  metrics-Agree j k a r w s ne e = rw (a r (meter fresh_meter w) (read_clock env s).1 ne e) refl

  traced-Agree : (j k : Handler) → Agree j k → Agree (traced env j) (traced env k)
  unfolding traced read_clock start_span
  traced-Agree j k a r w s ne e =
      let ctx = env.extract r.header r.context in
      let (c, s1) = start_span env ctx s in
      rw
        (a (record r { context = in_span c ctx }) (tracer fresh_tracer w) (read_clock env s1).1 ne
          e)
        refl

  trace-Agree : (b : Bool) (j k : Handler) → Agree j k → Agree (trace env b j) (trace env b k)
  unfolding trace
  trace-Agree true j k a = traced-Agree j k a
  trace-Agree false j k a = a

  metered-Agree :
      (b : Bool) (j k : Handler)
      → Agree j k
      → Agree (if b then metrics env j else j) (if b then metrics env k else k)
  metered-Agree true j k a = metrics-Agree j k a
  metered-Agree false j k a = a

  correlation_id-Agree :
      (j k : Handler) → Agree j k → Agree (correlation_id env j) (correlation_id env k)
  unfolding correlation_id with_id
  correlation_id-Agree j k a r w s ne e =
      let (id, s') = resolve_id env r s in
      a (with_id id r) _ s' ne ((resolve_id-Prepared env r s).current ∙ e)

  serve_front-agree :
      (r : Request) (w : Writer) (s : World)
      → s.current ≡ some h
      → serve_front env held r w s ≡ serve_front env (fixed h) r w s
  unfolding serve_front serve_current
  serve_front-agree r w s e = rw e refl

-- With the admin endpoint and the Holder in the request path, every request that is not for the
-- endpoint gets what it gets without them, with the Holder's current handler in the place of the
-- Holder: the same response, and the same shared state after it.
pub handler-fixed :
    (env : Env) (metrics_page : Handler) (redirect : Url → Handler) (o : Options)
    (h : Build.Handler) (r : Request) (w : Writer) (s : World)
    → way (record o { routes_admin = true }) r.method r.url.path ≢ admin
    → s.current ≡ some h
    → handler env metrics_page redirect (record o { routes_admin = true }) held r w s
      ≡ handler env metrics_page redirect (record o { routes_admin = false }) (fixed h) r w s
unfolding handler mux
handler-fixed env metrics_page redirect o h r w s ne e =
    let on : Options = record o { routes_admin = true } in
    let off : Options = record o { routes_admin = false } in
    let j = mux env metrics_page redirect on held in
    let k = mux env metrics_page redirect off (fixed h) in
    let muxes : Agree env on h j k = λ r w s ne e.
      serve_mux-agree redirect (patterns env metrics_page redirect on held)
        (patterns env metrics_page redirect off (fixed h)) o.metrics_enabled r w s refl refl refl
        (serve_front-agree env on h r w s e) ne in
    let logged = access_log-Agree env on h j k muxes in
    let metered = metered-Agree env on h o.metrics_enabled _ _ logged in
    correlation_id-Agree env on h _ _ (trace-Agree env on h o.otel_enabled _ _ metered) r w s ne e
