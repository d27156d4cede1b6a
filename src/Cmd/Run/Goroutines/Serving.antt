-- ===== src/Cmd/Run/Goroutines/Serving.antt =====
-- cmd/decision-gateway/main.go: what clients get while the goroutines of `run` interleave.
use decision_gateway.Prelude.{◌≡◌, ap, ◌∙◌, some, List, Text, text, ok}
use decision_gateway.Net.Url.{Url}
use decision_gateway.Net.Http.{Request, Response, fresh_response}
use decision_gateway.Writer.{server}
use decision_gateway.World.{World, Env, Handler}
use decision_gateway.Gateway.{Route, Router, new_router, match}
use decision_gateway.Api.Health.{is_ready, readyz}
use decision_gateway.Middleware.Uuid.Layout.{IsRandom}
use decision_gateway.Pipeline.Traced.{IsSteady}
use decision_gateway.Pipeline.Identified.{Served}
use decision_gateway.Otel.Bootstrap.{Sdk}
use decision_gateway.Cmd.Flags.Parsing.{AllName}
use decision_gateway.Cmd.Compose.{Options, Front, handler, setup}
use decision_gateway.Cmd.Compose.Serving.{Expects, Routed, AreHandlers, front_match}
use decision_gateway.Cmd.Run.Lifecycle.{readiness, probe_status, run_serves, probe_follows}
use decision_gateway.Cmd.Run.Tables.{table_after, run_tables}
use decision_gateway.Cmd.Run.Goroutines.{Goroutines, Ticks, served}
use decision_gateway.Cmd.Run.Goroutines.Refinement.{phase_of, process_of, Mirrors, Ticks-Mirrors}

module _ (env : Env) (sdk : Sdk) (o : Options) (s : World) (front : Front) (s' : World)
    (metrics_page : Handler) (redirect : Url → Handler) (c : Goroutines) (unready : s.ready ≡ 0)
    (boots : setup env sdk o s ≡ ok (front, s')) (rand : IsRandom env) (prop : IsSteady env)
    (out : AreHandlers front metrics_page redirect)
    (ts : Ticks (handler env metrics_page redirect o front) s' c) where
  mirrors : Mirrors (handler env metrics_page redirect o front) s' (served ts) (process_of c)
  mirrors = Ticks-Mirrors (handler env metrics_page redirect o front) s' ts

  pub goroutines_serve :
      (r : Request)
      → Served env o.otel_enabled o.metrics_enabled
          (Expects front)
          (Routed env o front)
          (handler env metrics_page redirect o front)
          r
          c.world
  goroutines_serve =
      run_serves env sdk o s front s' metrics_page redirect (process_of c) unready boots rand prop
        out mirrors.0

  -- After a successful `setup` from a state that is not ready, and however the goroutines
  -- interleave, the readiness flag is 1 exactly between the markReady and the markNotReady of `run`,
  -- and a GET that reaches `readyz` gets status 200 then and 503 otherwise. The code outside behaves
  -- as documented, and every reply of a backend can be copied to its client in full.
  pub goroutines_probe :
      (r : Request)
      → r.method ≡ text "GET"
      → (c.world.ready ≡ readiness (phase_of c.stage))
        × ((response : Response) × (readyz is_ready r (server fresh_response) c.world
              ≡ some (server response, c.world))
            × (response.status ≡ some (probe_status (phase_of c.stage))))
  goroutines_probe =
      probe_follows env sdk o s front s' metrics_page redirect (process_of c) unready boots rand
        prop out mirrors.0

  -- After a successful `setup` from a state that is not ready, and however the goroutines
  -- interleave, a path is routed by the table that was asked for last: that of the latest request
  -- served that is a POST to the admin endpoint, where that is registered, with a body that holds a
  -- table that `new_router` accepts; or, where there was none, that of the flags. A refused table
  -- changes nothing. The code outside behaves as documented, and every reply of a backend can be
  -- copied to its client in full.
  pub goroutines_route :
      (rs : List Route) × (router : Router) × AllName env o.route rs
      × (new_router rs ≡ ok router)
      × ((path : Text)
          → front_match front c.world.current path
            ≡ match (table_after env o router (served ts)) path)
  goroutines_route =
      let (rs, router, named, accepted, routes) =
        run_tables env sdk o s front s' metrics_page redirect (process_of c) unready boots rand prop
          out mirrors.0 in
      (
        rs,
        router,
        named,
        accepted,
        λ path. routes path ∙ ap (λ l. match (table_after env o router l) path) mirrors.1,
      )
