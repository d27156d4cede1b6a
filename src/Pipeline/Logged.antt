-- ===== src/Pipeline/Logged.antt =====
-- internal/middleware/accesslog.go: the access log around a handler that behaves.
use decision_gateway.Prelude.{◌+◌, ◌≡◌, refl, ap, ◌∙◌, subst, Option, some, [], ◌∷◌, Text}
use decision_gateway.Net.Http.{Request}
use decision_gateway.Writer.{Writer, StatusRecorder, recorder, response_of}
use decision_gateway.Writer.Acts.{last_route, Acts-Agrees, Acts-Stamped, Acts-recorder}
use decision_gateway.Writer.Agreement.{Agrees}
use decision_gateway.Writer.Routes.{Stamped}
use decision_gateway.World.{World, Env, Handler, read_clock}
use decision_gateway.Proxy.Build
use decision_gateway.Middleware.AccessLog.{fresh_recorder, access_entry, access_log}
use decision_gateway.Handlers.{Behaves, Marking, footprint, inbound}
use decision_gateway.Pipeline.{IsFresh, Reports, Uncounted}

fresh_recorder-Agrees : (w : Writer) → IsFresh w → Agrees (recorder fresh_recorder w)
fresh_recorder-Agrees w f = (rw f.unsent refl, rw f.unsent refl, f.agrees)

access_log_returns :
    (env : Env) (next : Handler) (r : Request) (w x : Writer) (s s2 : World) (rec : StatusRecorder)
    → next r (recorder fresh_recorder w) (read_clock env s).1 ≡ some (recorder rec x, s2)
    → access_log env next r w s
      ≡ some (
        x,
        record s2 {
          clock_reads = s2.clock_reads + 1;
          access_log =
              access_entry (env.now s.clock_reads) (env.now s2.clock_reads) rec r ∷ s2.access_log;
        },
      )
unfolding access_log read_clock
access_log_returns env next r w x s s2 rec e = rw e refl

module _ {J : Option Build.Handler → Type 0} {Q : Marking} (env : Env) (next : Handler)
    (b : Behaves J Q next) where
  pub access_log-Reports : Reports J Q Uncounted (access_log env next)
  unfolding access_log read_clock access_entry response_of
  access_log-Reports r w s fresh j =
      let s1 : World = (read_clock env s).1 in
      let inner = b r (recorder fresh_recorder w) s1 j in
      let (rec, x, shape, acts) = Acts-recorder fresh_recorder w refl inner.acts in
      let (_, agrees) = Acts-Agrees inner.acts tt (fresh_recorder-Agrees w fresh) in
      let route : Text = last_route [] inner.acts in
      let stamped = Acts-Stamped [] inner.acts (refl, fresh.unstamped) in
      let a : Agrees (recorder rec x) = subst Agrees shape agrees in
      let st : Stamped route (recorder rec x) = subst (Stamped route) shape stamped in
      let entry = access_entry (env.now s.clock_reads) (env.now inner.s'.clock_reads) rec r in
      record {
        w' = x;
        s' = record (inner.s') {
          clock_reads = inner.s'.clock_reads + 1;
          access_log = entry ∷ inner.s'.access_log;
        };
        route = route;
        entry = entry;
        ends =
            access_log_returns env next r w x s inner.s' rec
              (inner.ends ∙ ap (λ v. some (v, inner.s')) shape);
        acts = acts;
        agrees = a.2;
        stamped = st.1;
        marks =
            subst (λ v. Q (inbound r) s.current (footprint route w v s inner.s')) shape
              (inner.marks (fresh.unsent, fresh_recorder-Agrees w fresh));
        keeps = inner.keeps;
        ready = inner.frame.ready;
        logged = rw inner.frame.access_log refl;
        describes = record {
          method = refl;
          path = refl;
          status_sent = a.1;
          route_stamped = st.0;
          correlation_id = refl;
        };
        counts = (inner.frame.counted, inner.frame.observed);
        upstream = inner.frame.upstream;
      }
