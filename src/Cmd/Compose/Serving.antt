-- ===== src/Cmd/Compose/Serving.antt =====
-- cmd/decision-gateway/main.go: a request at the handler that `run` composes.
use decision_gateway.Prelude.{
  ◌≡◌, ap, inl, inr, Bool, true, false, Option, none, some, if◌then◌else◌, Text,
}
use decision_gateway.Net.Url.{Url}
use decision_gateway.Net.Http.{Request}
use decision_gateway.World.{World, Env, Handler}
use decision_gateway.Proxy.Build.{BuildConfig, new}
use decision_gateway.Proxy.Build
use decision_gateway.Proxy.Build.Wiring.{IsWired}
use decision_gateway.Api.Health.{is_ready}
use decision_gateway.Api.Routes.{routes_admin}
use decision_gateway.Cmd.Mux.{select}
use decision_gateway.Cmd.Mux.Select.{
  Way, admin, elsewhere, proxied, path_way, Given, Leads, select-Leads, serve_mux_cases, is_direct,
}
use decision_gateway.Cmd.Compose.{
  Options, Front, held, fixed, build_config, serve_front, patterns, mux, handler,
}
use decision_gateway.Handlers.{Behaved, Behaves, Behaved-marks, Marking, Untouched, hands_on}
use decision_gateway.Handlers.Reload.{Reloads, routes_admin-Reloads}
use decision_gateway.Writer.{Writer}
use decision_gateway.Handlers.Answers.{healthz-Behaves, readyz-Behaves}
use decision_gateway.Handlers.Proxying.{IsHeld, match_now, serve-Behaves, serve_current-Behaves}
use decision_gateway.Gateway.{Route, match}
use decision_gateway.Handlers.Network.{Passed}
use decision_gateway.Middleware.AccessLog.{access_log}
use decision_gateway.Metrics.{metrics}
use decision_gateway.Middleware.Uuid.Layout.{IsRandom}
use decision_gateway.Pipeline.{Reports, Counting}
use decision_gateway.Pipeline.Logged.{access_log-Reports}
use decision_gateway.Pipeline.Metered.{metrics-Reports}
use decision_gateway.Pipeline.Traced.{IsSteady, trace-Observed}
use decision_gateway.Pipeline.Identified.{Served, correlation_id-Served}

-- What the catch-all handler needs of the Holder's current handler.
abbrev pub Expects : Front → Option Build.Handler → Type 0
Expects held = λ c. IsHeld c
Expects (fixed h) = λ c. IsWired h

-- The admin endpoint is there only with a Holder.
abbrev pub Suits : Options → Front → Type 0
Suits o held = Unit
Suits o (fixed h) = o.routes_admin ≡ false

-- What the model takes from outside: the handler behind /metrics and the mux's redirection behave.
pub record AreHandlers (front : Front) (metrics_page : Handler) (redirect : Url → Handler)
    : Type 0 where
  pub metrics_behaves : Behaves (Expects front) Untouched metrics_page
  pub redirect_behaves : (u : Url) → Behaves (Expects front) Untouched (redirect u)

-- The route that the catch-all handler selects, by the table that is current when the request
-- comes.
abbrev pub front_match : Front → Option Build.Handler → Text → Option Route
front_match held current path = match_now current path
front_match (fixed h) current path = match h.router path

-- Where the mux hands a request.
abbrev pub way : Options → Text → Text → Way
way o method path =
    if is_direct method path then path_way o.metrics_enabled o.routes_admin path else elsewhere

-- The footprint of a request that is handed to the catch-all handler, to the admin endpoint, or
-- elsewhere.
abbrev pub Passage : Env → Way → Option Route → Marking
Passage env proxied chosen x current f = Passed env x chosen f × (f.current ≡ current)
Passage env admin chosen x current f = Reloads env x current f
Passage env elsewhere chosen x current f = Untouched x current f

-- The marking of the composed handler.
abbrev pub Routed : Env → Options → Front → Marking
Routed env o front x current f =
    Passage env (way o x.method x.url.path) (front_match front current x.url.path) x current f

serve_front-Behaves :
    (env : Env) (front : Front)
    → IsSteady env
    → Behaves
        (Expects front)
        (λ x current f.
          Passed env x (front_match front current x.url.path) f × (f.current ≡ current))
        (serve_front env front)
unfolding serve_front
serve_front-Behaves env held prop r w s j = serve_current-Behaves env prop r w s j
serve_front-Behaves env (fixed h) prop r w s j = serve-Behaves env h prop j r w s j

module _ (env : Env) (metrics_page : Handler) (redirect : Url → Handler) (o : Options) where
  metrics-Given :
      (P : Handler → Type 0) (b : Bool)
      → P metrics_page
      → Given P b (if b then some metrics_page else none)
  metrics-Given P true p = p
  metrics-Given P false p = tt

  routes-Given :
      (front : Front) (b : Bool) (r : Request) (w : Writer) (s : World)
      → Suits (record o { routes_admin = b }) front
      → Expects front s.current
      → Given
          (λ h. Behaved (Expects front) (Reloads env) h r w s)
          b
          (if b then some (routes_admin env (build_config o) true) else none)
  routes-Given held true r w s st j = routes_admin-Reloads env (build_config o) r w s j
  routes-Given (fixed h) true r w s st j = absurd (cc st)
  routes-Given _ false r w s st j = tt

  -- What the mux hands on behaves as its way tells.
  Leads-Behaved :
      (front : Front) (k : Way) (h : Handler) (r : Request) (w : Writer) (s : World)
      → IsSteady env
      → Expects front s.current
      → Leads
          (λ h. Behaved (Expects front) Untouched h r w s)
          (λ h. Behaved (Expects front) (Reloads env) h r w s)
          k
          h
          (serve_front env front)
      → Behaved
          (Expects front)
          (λ x current f. Passage env k (front_match front current x.url.path) x current f)
          h
          r
          w
          s
  Leads-Behaved front elsewhere h r w s prop j led = Behaved-marks (λ f m. m) led
  Leads-Behaved front admin h r w s prop j led = Behaved-marks (λ f m. m) led
  Leads-Behaved front proxied h r w s prop j led =
      hands_on {k = serve_front env front} (ap (λ (k : Handler). k r w s) led)
        (Behaved-marks (λ f m. m) (serve_front-Behaves env front prop r w s j))

  mux-Behaves :
      (front : Front)
      → IsSteady env
      → Suits o front
      → AreHandlers front metrics_page redirect
      → Behaves (Expects front) (Routed env o front) (mux env metrics_page redirect o front)
  unfolding mux
  mux-Behaves front prop suits out r w s j =
      let p = patterns env metrics_page redirect o front in
      let P = λ (h : Handler). Behaved (Expects front) Untouched h r w s in
      elim (serve_mux_cases redirect p r w s) [
        | inl (direct, e) ↦
            let led =
              select-Leads P (λ h. Behaved (Expects front) (Reloads env) h r w s) p
                o.metrics_enabled o.routes_admin r.url.path (healthz-Behaves r w s j)
                (readyz-Behaves is_ready r w s j)
                (metrics-Given P o.metrics_enabled (out.metrics_behaves r w s j))
                (routes-Given front o.routes_admin r w s suits j) in
            hands_on {k = select p r.url.path} e (
              Behaved-marks (λ f m. rw direct m)
                (Leads-Behaved front (path_way o.metrics_enabled o.routes_admin r.url.path)
                  (select p r.url.path) r w s prop j led))
        | inr (unclean, (u, e)) ↦
            hands_on {k = redirect u} e
              (Behaved-marks (λ f m. rw unclean m) (out.redirect_behaves u r w s j))
      ]

  metered-Reports :
      (front : Front) (b : Bool)
      → IsSteady env
      → Suits o front
      → AreHandlers front metrics_page redirect
      → Reports (Expects front) (Routed env o front) (Counting b) (
          if b
          then metrics env (access_log env (mux env metrics_page redirect o front))
          else access_log env (mux env metrics_page redirect o front))
  metered-Reports front true prop suits out =
      metrics-Reports env _ (access_log-Reports env _ (mux-Behaves front prop suits out))
  metered-Reports front false prop suits out =
      access_log-Reports env _ (mux-Behaves front prop suits out)

pub handler-Served :
    (env : Env) (metrics_page : Handler) (redirect : Url → Handler) (o : Options) (front : Front)
    (r : Request) (s : World)
    → IsRandom env
    → IsSteady env
    → AreHandlers front metrics_page redirect
    → Suits o front
    → Expects front s.current
    → Served env o.otel_enabled o.metrics_enabled
        (Expects front)
        (Routed env o front)
        (handler env metrics_page redirect o front)
        r
        s
unfolding handler
handler-Served env metrics_page redirect o front r s rand prop out suits j =
    correlation_id-Served env rand _
      (λ q w t fresh held.
        trace-Observed env prop _
          (metered-Reports env metrics_page redirect o front o.metrics_enabled prop suits out)
          o.otel_enabled q w t fresh held)
      r s j
