-- ===== src/Cmd/Run/Logging.antt =====
-- cmd/decision-gateway/main.go: what the requests of a run leave on stdout.
use decision_gateway.Prelude.{◌≡◌, refl, sym, ap, ◌∙◌, List, [], ◌∷◌, ◌++◌, map, ok}
use mathlib.Core.List.{reverse}
use decision_gateway.Net.Url.{Url}
use decision_gateway.Net.Http.{Request}
use decision_gateway.World.{World, Env, Handler, AccessEntry}
use decision_gateway.Middleware.Uuid.Layout.{IsRandom}
use decision_gateway.Pipeline.Traced.{IsSteady}
use decision_gateway.Cmd.Compose.{Options, Front, handler, setup}
use decision_gateway.Cmd.Compose.Serving.{Suits, AreHandlers, handler-Served}
use decision_gateway.Otel.Bootstrap.{Sdk}
use decision_gateway.Cmd.Compose.Boot.{setup-Expects}
use decision_gateway.Cmd.Run.{
  starting, Process, at, open_up, cancel, drained, fail, request, Runs, here, next,
}
use decision_gateway.Cmd.Run.Lifecycle.{IsSound, Runs-IsSound}
use decision_gateway.Api.Health.{mark_ready, mark_not_ready}
use decision_gateway.Events.{Formats, stdout, boot_json, entry_json}
use decision_gateway.Events.Printable.{IsFormat}
use decision_gateway.Events.Lines.{lines, stdout-lines}

-- The requests of a run, the latest first.
abbrev pub requests : {h : Handler} {p q : Process} → Runs h p q → List Request
requests here = []
requests (next rs open_up) = requests rs
requests (next rs cancel) = requests rs
requests (next rs drained) = requests rs
requests (next rs (fail e)) = requests rs
requests (next rs (request r w e)) = r ∷ requests rs

-- An entry tells the method and the path of a request.
abbrev pub Tells : AccessEntry → Request → Type 0
Tells e r = (e.attrs.method ≡ r.method) × (e.attrs.path ≡ r.url.path)

-- Each entry of a log, the latest first, tells a request, and the requests are in order.
abbrev pub AreLogged : List AccessEntry → List Request → Type 0
AreLogged [] [] = Unit
AreLogged (e ∷ es) (r ∷ rs) = Tells e r × AreLogged es rs
AreLogged _ _ = ⊥

module _ (env : Env) (metrics_page : Handler) (redirect : Url → Handler) (o : Options)
    (front : Front) (rand : IsRandom env) (prop : IsSteady env)
    (out : AreHandlers front metrics_page redirect) (suits : Suits o front) where
  Runs-logs :
      {p q : Process} (rs : Runs (handler env metrics_page redirect o front) p q)
      → IsSound front p
      → (es : List AccessEntry) × (q.world.access_log ≡ es ++ p.world.access_log)
        × AreLogged es (requests rs)
  unfolding mark_ready mark_not_ready
  Runs-logs here i = ([], refl, tt)
  Runs-logs (next rs open_up) i = Runs-logs rs i
  Runs-logs (next rs cancel) i = Runs-logs rs i
  Runs-logs (next rs drained) i = Runs-logs rs i
  Runs-logs (next rs (fail e)) i = Runs-logs rs i
  Runs-logs (next rs (request {p} {s} {s'} r w e)) i =
      let now = Runs-IsSound env metrics_page redirect o front rand prop out suits rs i in
      let served =
        handler-Served env metrics_page redirect o front r s rand prop out suits now.current in
      let same : served.s' ≡ s' = cc (e, served.ends) in
      let (es, log, told) = Runs-logs rs i in
      (
        served.entry ∷ es,
        ap (λ (t : World). t.access_log) (sym same)
            ∙ served.logged
            ∙ ap (λ l. served.entry ∷ l) log,
        ((served.entry_method, served.entry_path), told),
      )

-- After a successful `setup` from a state that is not ready, and after any run from there, stdout
-- consists of one line for each boot event, one for each access entry that was there before the
-- run, and one for each request of the run, in order: the JSON of an entry with that request's
-- method and path, whatever bytes they hold. The code outside behaves as documented, and every reply of
-- a backend can be copied to its client in full.
pub run_logs :
    (env : Env) (sdk : Sdk) (o : Options) (s : World) (front : Front) (s' : World)
    (metrics_page : Handler) (redirect : Url → Handler) (f : Formats) (q : Process)
    → s.ready ≡ 0
    → setup env sdk o s ≡ ok (front, s')
    → IsRandom env
    → IsSteady env
    → AreHandlers front metrics_page redirect
    → IsFormat f
    → (rs : Runs (handler env metrics_page redirect o front) (at starting s') q)
    → (es : List AccessEntry) × AreLogged es (requests rs)
      × (lines (stdout f q.world)
          ≡ map (boot_json f) (reverse q.world.boot_log)
            ++ map (entry_json f) (reverse (es ++ s'.access_log)))
run_logs env sdk o s front s' metrics_page redirect f q unready boots rand prop out is rs =
    let (suits, expects, kept) = setup-Expects env sdk o s front s' boots in
    let (es, log, told) =
      Runs-logs env metrics_page redirect o front rand prop out suits rs
        (record { flag = kept ∙ unready; current = expects }) in
    (
      es,
      told,
      stdout-lines f q.world is
          ∙ ap (λ l. map (boot_json f) (reverse q.world.boot_log) ++ map (entry_json f) (reverse l))
              log,
    )
