-- ===== src/Cmd/Run/Lifecycle.antt =====
-- cmd/decision-gateway/main.go: the readiness flag and the requests over the phases of `run`.
use decision_gateway.Prelude.{
  ℕ, ◌≡◌, refl, sym, ap, ◌∙◌, subst, true, some, List, [], ◌∷◌, Text, text, text_eq, text_eq_iff,
  ok,
}
use decision_gateway.Net.Url.{Url}
use decision_gateway.Net.Http.{Request, Response, fresh_response}
use decision_gateway.Writer.{server, response_of, write, write_header, edit_header}
use decision_gateway.World.{World, Env, Handler}
use decision_gateway.Api.Health.{mark_ready, mark_not_ready, is_ready, readyz, answer}
use decision_gateway.Middleware.Uuid.Layout.{IsRandom}
use decision_gateway.Pipeline.Traced.{IsSteady}
use decision_gateway.Pipeline.Identified.{Served}
use decision_gateway.Cmd.Compose.{Options, Front, handler, setup}
use decision_gateway.Cmd.Compose.Serving.{Expects, Suits, Routed, AreHandlers, handler-Served}
use decision_gateway.Otel.Bootstrap.{Sdk}
use decision_gateway.Cmd.Compose.Boot.{setup-Expects}
use decision_gateway.Cmd.Run.{
  Phase, starting, serving, draining, returned, Process, at, Step, open_up, cancel, drained, fail,
  request, Runs, here, next,
}

-- 1 while `run` waits in its select, else 0.
abbrev pub readiness : Phase → ℕ
readiness serving = 1
readiness _ = 0

pub record IsSound (front : Front) (p : Process) : Type 0 where
  pub flag : p.world.ready ≡ readiness p.phase
  pub current : Expects front p.world.current

module _ (env : Env) (metrics_page : Handler) (redirect : Url → Handler) (o : Options)
    (front : Front) (rand : IsRandom env) (prop : IsSteady env)
    (out : AreHandlers front metrics_page redirect) (suits : Suits o front) where
  pub Step-IsSound :
      {p q : Process}
      → Step (handler env metrics_page redirect o front) p q
      → IsSound front p
      → IsSound front q
  unfolding mark_ready mark_not_ready
  Step-IsSound open_up i = record { flag = refl; current = i.current }
  Step-IsSound cancel i = record { flag = refl; current = i.current }
  Step-IsSound drained i = record { flag = i.flag; current = i.current }
  Step-IsSound (fail e) i = record { flag = refl; current = i.current }
  Step-IsSound (request {p} {s} {s'} r w e) i =
      let served =
        handler-Served env metrics_page redirect o front r s rand prop out suits i.current in
      let same : served.s' ≡ s' = cc (e, served.ends) in
      record {
        flag = ap (λ (t : World). t.ready) (sym same) ∙ served.ready ∙ i.flag;
        current = subst (λ (t : World). Expects front t.current) same served.keeps;
      }

  pub Runs-IsSound :
      {p q : Process}
      → Runs (handler env metrics_page redirect o front) p q
      → IsSound front p
      → IsSound front q
  Runs-IsSound here i = i
  Runs-IsSound (next rs st) i = Step-IsSound st (Runs-IsSound rs i)

-- What GET /readyz answers with.
abbrev pub probe_status : Phase → ℕ
probe_status serving = 200
probe_status _ = 503

abbrev ready_fields : List (Text × Text)
ready_fields = (text "status", text "ready") ∷ []

abbrev unready_fields : List (Text × Text)
unready_fields =
    (text "reason", text "gateway not yet bound to listener")
    ∷ (text "status", text "not_ready")
    ∷ []

module _ (env : Env) (sdk : Sdk) (o : Options) (s : World) (front : Front) (s' : World)
    (metrics_page : Handler) (redirect : Url → Handler) (q : Process) (unready : s.ready ≡ 0)
    (boots : setup env sdk o s ≡ ok (front, s')) (rand : IsRandom env) (prop : IsSteady env)
    (out : AreHandlers front metrics_page redirect)
    (runs : Runs (handler env metrics_page redirect o front) (at starting s') q) where
  launched : IsSound front q
  launched =
      let (suits, expects, kept) = setup-Expects env sdk o s front s' boots in
      Runs-IsSound env metrics_page redirect o front rand prop out suits runs
        (record { flag = kept ∙ unready; current = expects })

  -- After a successful `setup` from a state that is not ready, and after any run from there
  -- (requests, replacements of the table, cancellation, a failure of the server), the next request
  -- is served: the composed handler returns, and its response, access entry, metrics and span agree,
  -- with the route that the table then in place selects; a request for such a route is sent once, to
  -- the route's backend with the correlation ID of the response, unless the client's Connection
  -- header names it, and the client gets what comes back.
  -- The random source, the propagator, the metrics page and the mux's redirection behave as
  -- documented, and every reply of a backend can be copied to its client in full.
  pub run_serves :
      (r : Request)
      → Served env o.otel_enabled o.metrics_enabled
          (Expects front)
          (Routed env o front)
          (handler env metrics_page redirect o front)
          r
          q.world
  run_serves r =
      let (suits, _, _) = setup-Expects env sdk o s front s' boots in
      handler-Served env metrics_page redirect o front r q.world rand prop out suits
        launched.current

  -- After a successful `setup` from a state that is not ready, and after any run from there, with
  -- the same code outside, the readiness flag is 1 exactly while `run` waits in its select, and a
  -- GET that reaches `readyz` gets status 200 then and 503 otherwise.
  pub probe_follows :
      (r : Request)
      → r.method ≡ text "GET"
      → (q.world.ready ≡ readiness q.phase)
        × ((response : Response) × (readyz is_ready r (server fresh_response) q.world
              ≡ some (server response, q.world))
            × (response.status ≡ some (probe_status q.phase)))
  unfolding readyz is_ready answer response_of write write_header edit_header
  probe_follows r get = (launched.flag, go q.phase launched.flag)
    where
      is_get : text_eq r.method (text "GET") ≡ true
      is_get = (text_eq_iff _ _).1 get

      go :
          (p : Phase)
          → q.world.ready ≡ readiness p
          → (response : Response) × (readyz is_ready r (server fresh_response) q.world
              ≡ some (server response, q.world))
            × (response.status ≡ some (probe_status p))
      go serving f =
          (response_of (answer 200 ready_fields (server fresh_response)), rw (is_get, f) refl, refl)
      go starting f = (
        response_of (answer 503 unready_fields (server fresh_response)),
        rw (is_get, f) refl,
        refl,
      )
      go draining f = (
        response_of (answer 503 unready_fields (server fresh_response)),
        rw (is_get, f) refl,
        refl,
      )
      go (returned e) f = (
        response_of (answer 503 unready_fields (server fresh_response)),
        rw (is_get, f) refl,
        refl,
      )
