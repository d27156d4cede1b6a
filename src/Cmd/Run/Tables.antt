-- ===== src/Cmd/Run/Tables.antt =====
-- cmd/decision-gateway/main.go: the table by which the requests of a run are routed.
use decision_gateway.Prelude.{
  ◌≡◌, refl, sym, ap, ◌∙◌, subst, ◌≢◌, inl, inr, Bool, true, false, Option, none, some, List, [],
  ◌∷◌, Bool-cases, Text, ok,
}
use decision_gateway.Net.Url.{Url}
use decision_gateway.Net.Http.{Request}
use decision_gateway.World.{World, Env, Handler}
use decision_gateway.Gateway.{Route, Router, new_router, match}
use decision_gateway.Proxy.Build
use decision_gateway.Api.Health.{mark_ready, mark_not_ready}
use decision_gateway.Handlers.{Footprint, Inbound, inbound}
use decision_gateway.Handlers.Reload.{posted_router, Installs}
use decision_gateway.Middleware.Uuid.Layout.{IsRandom}
use decision_gateway.Pipeline.Traced.{IsSteady}
use decision_gateway.Otel.Bootstrap.{Sdk}
use decision_gateway.Cmd.Flags.Parsing.{AllName}
use decision_gateway.Cmd.Mux.Select.{Way, admin, elsewhere, proxied, path_way-no_admin, is_direct}
use decision_gateway.Cmd.Compose.{Options, Front, held, fixed, handler, setup}
use decision_gateway.Cmd.Compose.Serving.{
  way, Passage, Routed, Suits, AreHandlers, front_match, handler-Served,
}
use decision_gateway.Cmd.Compose.Boot.{Placed, BootVerdict, setup-BootVerdict, setup-Expects}
use decision_gateway.Cmd.Run.{
  starting, Process, at, open_up, cancel, drained, fail, request, Runs, here, next,
}
use decision_gateway.Cmd.Run.Lifecycle.{IsSound, Runs-IsSound}
use decision_gateway.Cmd.Run.Logging.{requests}

-- The router that a request asks for: one that is posted to the admin endpoint.
abbrev asked_on : Env → Way → Text → Text → Option Router
asked_on env admin method body = posted_router env method body
asked_on env elsewhere method body = none
asked_on env proxied method body = none

abbrev pub asked_router : Env → Options → Request → Option Router
asked_router env o r = asked_on env (way o r.method r.url.path) r.method r.body

abbrev next_table : Option Router → Router → Router
next_table none router = router
next_table (some router') router = router'

-- The table after some requests, the latest first: the one that was asked for last, or that at the
-- start.
abbrev pub table_after : Env → Options → Router → List Request → Router
table_after env o router [] = router
table_after env o router (r ∷ rs) = next_table (asked_router env o r) (table_after env o router rs)

-- The handler behind the catch-all pattern.
abbrev front_handler : Front → Option Build.Handler → Option Build.Handler
front_handler held current = current
front_handler (fixed h) current = some h

abbrev HasTable : Front → Router → Option Build.Handler → Type 0
HasTable front router current =
    (h : Build.Handler) × (front_handler front current ≡ some h) × (h.router ≡ router)

HasTable-match :
    (front : Front) (router : Router) (current : Option Build.Handler) (path : Text)
    → HasTable front router current
    → front_match front current path ≡ match router path
HasTable-match held router none path (h, e, same) = absurd (cc e)
HasTable-match held router (some k) path (h, e, same) =
    ap (λ (t : Router). match t path) (cc (e, same))
HasTable-match (fixed k) router current path (h, e, same) =
    ap (λ (t : Router). match t path) (cc (e, same))

-- Without the admin endpoint no request asks for a table.
asked_on-none :
    (env : Env) (k : Way) (method body : Text) → k ≢ admin → asked_on env k method body ≡ none
asked_on-none env admin method body ne = absurd (ne refl)
asked_on-none env elsewhere method body ne = refl
asked_on-none env proxied method body ne = refl

asked_router-none :
    (env : Env) (o : Options) (r : Request) → o.routes_admin ≡ false → asked_router env o r ≡ none
asked_router-none env o r off =
    asked_on-none env (way o r.method r.url.path) r.method r.body
      (elim (Bool-cases (is_direct r.method r.url.path)) [
        | inl direct ↦ rw (direct, off) (path_way-no_admin o.metrics_enabled r.url.path)
        | inr unclean ↦ rw unclean (λ e. cc)
      ])

Installs-HasTable :
    (asked : Option Router) (router : Router) (before after : Option Build.Handler)
    → Installs asked before after
    → HasTable held router before
    → HasTable held (next_table asked router) after
Installs-HasTable none router before after e (h, is, same) = (h, e ∙ is, same)
Installs-HasTable (some asked) router before after (h, is, same, _) t = (h, is, same)

-- What the footprint of a request tells of the Holder.
Passage-Installs :
    (env : Env) (k : Way) (chosen : Option Route) (x : Inbound) (current : Option Build.Handler)
    (f : Footprint)
    → Passage env k chosen x current f
    → Installs (asked_on env k x.method x.body) current f.current
Passage-Installs env proxied chosen x current f m = m.1
Passage-Installs env admin chosen x current f m = m.1
Passage-Installs env elsewhere chosen x current f m = m.1

module _ (env : Env) (metrics_page : Handler) (redirect : Url → Handler) (o : Options)
    (router : Router) (rand : IsRandom env) (prop : IsSteady env) where
  -- A request leaves the table in place, or the one that it asks for.
  request-HasTable :
      (front : Front) (r : Request) (id : Text) (before : Router) (current : Option Build.Handler)
      (f : Footprint)
      → Suits o front
      → Routed env o front (record (inbound r) { id = id }) current f
      → HasTable front before current
      → HasTable front (next_table (asked_router env o r) before) f.current
  request-HasTable held r id before current f suits routed t =
      Installs-HasTable (asked_router env o r) before current f.current
        (Passage-Installs env (way o r.method r.url.path) (front_match held current r.url.path)
          (record (inbound r) { id = id }) current f routed)
        t
  request-HasTable (fixed h) r id before current f suits routed t =
      rw (asked_router-none env o r suits) t

  Runs-HasTable :
      (front : Front) {p q : Process}
      → AreHandlers front metrics_page redirect
      → Suits o front
      → (rs : Runs (handler env metrics_page redirect o front) p q) → IsSound front p
      → HasTable front router p.world.current
      → HasTable front (table_after env o router (requests rs)) q.world.current
  unfolding mark_ready mark_not_ready
  Runs-HasTable front out suits here i t = t
  Runs-HasTable front out suits (next rs open_up) i t = Runs-HasTable front out suits rs i t
  Runs-HasTable front out suits (next rs cancel) i t = Runs-HasTable front out suits rs i t
  Runs-HasTable front out suits (next rs drained) i t = Runs-HasTable front out suits rs i t
  Runs-HasTable front out suits (next rs (fail e)) i t = Runs-HasTable front out suits rs i t
  Runs-HasTable front out suits (next rs (request {p} {s} {s'} r w e)) i t =
      let now = Runs-IsSound env metrics_page redirect o front rand prop out suits rs i in
      let served =
        handler-Served env metrics_page redirect o front r s rand prop out suits now.current in
      let same : served.s' ≡ s' = cc (e, served.ends) in
      subst
        (λ (z : World).
          HasTable front
            (next_table (asked_router env o r) (table_after env o router (requests rs))) z.current)
        same
        (request-HasTable front r served.id (table_after env o router (requests rs)) s.current _
          suits served.routed (Runs-HasTable front out suits rs i t))

-- The table that `setup` puts in place.
Placed-HasTable :
    (h : Build.Handler) (router : Router) (b : Bool) (s1 : World) (front : Front) (s2 : World)
    → h.router ≡ router
    → Placed b h s1 front s2
    → HasTable front router s2.current
Placed-HasTable h router true s1 front s2 same (is_held, s) = (h, rw (is_held, s) refl, same)
Placed-HasTable h router false s1 front s2 same (is_fixed, s) = (h, rw is_fixed refl, same)

-- After a successful `setup` from a state that is not ready, and after any run from there, a path
-- is routed by the table that was asked for last: that of the latest request of the run that is a
-- POST to the admin endpoint, where that is registered, with a body that holds a table that
-- `new_router` accepts; or, where there was none, that of the flags. A refused table changes
-- nothing. The code outside behaves as documented, and every reply can be copied in full.
pub run_tables :
    (env : Env) (sdk : Sdk) (o : Options) (s : World) (front : Front) (s' : World)
    (metrics_page : Handler) (redirect : Url → Handler) (q : Process)
    → s.ready ≡ 0
    → setup env sdk o s ≡ ok (front, s')
    → IsRandom env
    → IsSteady env
    → AreHandlers front metrics_page redirect
    → (runs : Runs (handler env metrics_page redirect o front) (at starting s') q)
    → (rs : List Route) × (router : Router) × AllName env o.route rs
      × (new_router rs ≡ ok router)
      × ((path : Text)
          → front_match front q.world.current path
            ≡ match (table_after env o router (requests runs)) path)
run_tables env sdk o s front s' metrics_page redirect q unready boots rand prop out runs =
    let (suits, expects, kept) = setup-Expects env sdk o s front s' boots in
    let b = subst (BootVerdict env sdk o s) boots (setup-BootVerdict env sdk o s) in
    let placed = Placed-HasTable b.h b.router o.routes_admin b.s1 front b.s2 b.routed b.placed in
    let begun : HasTable front b.router s'.current =
      subst (HasTable front b.router) (sym (ap (λ (t : World). t.current) b.announced.logged))
        placed in
    let after =
      Runs-HasTable env metrics_page redirect o b.router rand prop front out suits runs
        (record { flag = kept ∙ unready; current = expects }) begun in
    (
      b.rs,
      b.router,
      b.named,
      b.accepted,
      λ path.
          HasTable-match front (table_after env o b.router (requests runs)) q.world.current path
            after,
    )
