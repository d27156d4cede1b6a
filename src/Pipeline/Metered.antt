-- ===== src/Pipeline/Metered.antt =====
-- internal/observability/metrics/metrics.go: the metrics around a handler that reports.
use decision_gateway.Prelude.{
  ℕ, ◌+◌, ◌-◌, ◌≡◌, refl, sym, ap, ◌∙◌, subst, Option, some, ◌∷◌, arith, Text, itoa,
}
use decision_gateway.Net.Http.{Request, or_ok}
use decision_gateway.Writer.{Writer, MetricsWriter, meter, response_of}
use decision_gateway.Writer.Acts.{Acts-meter}
use decision_gateway.Writer.Agreement.{Agrees, sent}
use decision_gateway.Writer.Routes.{Stamped}
use decision_gateway.World.{World, Labels, Env, Handler, read_clock}
use decision_gateway.Proxy.Build
use decision_gateway.Metrics.{fresh_meter, labels_of, metrics}
use decision_gateway.Handlers.{Marking, footprint, inbound}
use decision_gateway.Pipeline.{IsFresh, Describes, Reports, Uncounted, Counted}

fresh_meter-IsFresh : (w : Writer) → IsFresh w → IsFresh (meter fresh_meter w)
unfolding response_of
fresh_meter-IsFresh w f = record {
  unsent = f.unsent;
  agrees = (rw f.unsent refl, rw f.unsent refl, f.agrees);
  unstamped = (refl, f.unstamped);
}

metrics_returns :
    (env : Env) (next : Handler) (r : Request) (w x : Writer) (s s2 : World) (sw : MetricsWriter)
    → next r (meter fresh_meter w) (read_clock env s).1 ≡ some (meter sw x, s2)
    → metrics env next r w s
      ≡ some (
        x,
        record s2 {
          clock_reads = s2.clock_reads + 1;
          counted = labels_of sw r ∷ s2.counted;
          observed = (labels_of sw r, env.now s2.clock_reads - env.now s.clock_reads) ∷ s2.observed;
        },
      )
unfolding metrics read_clock
metrics_returns env next r w x s s2 sw e = rw e refl

abbrev after_metrics : Labels → ℕ → World → World
after_metrics labels d s2 = record s2 {
  clock_reads = s2.clock_reads + 1;
  counted = labels ∷ s2.counted;
  observed = (labels, d) ∷ s2.observed;
}

counts_of :
    (r : Request) (sw : MetricsWriter) (route : Text) (code : ℕ) (s s2 : World) (d : ℕ)
    → sw.route ≡ route
    → sw.status ≡ code
    → Uncounted r code route s s2
    → Counted r code route s (after_metrics (labels_of sw r) d s2)
unfolding labels_of
counts_of r sw route code s s2 d p q (none_counted, none_observed) =
    let labels : Labels = record { method = r.method; route = route; status = itoa code } in
    let same : labels_of sw r ≡ labels = ground arith in
    subst (λ l. Counted r code route s (after_metrics l d s2)) (sym same)
      (ap (λ t. labels ∷ t) none_counted, (d, ap (λ t. (labels, d) ∷ t) none_observed))

module _ {J : Option Build.Handler → Type 0} {Q : Marking} (env : Env) (next : Handler)
    (b : Reports J Q Uncounted next) where
  pub metrics-Reports : Reports J Q Counted (metrics env next)
  unfolding read_clock response_of labels_of
  metrics-Reports r w s fresh j =
      let s1 : World = (read_clock env s).1 in
      let inner = b r (meter fresh_meter w) s1 (fresh_meter-IsFresh w fresh) j in
      let (sw, x, shape, acts) = Acts-meter fresh_meter w refl inner.acts in
      let a : Agrees (meter sw x) = subst Agrees shape inner.agrees in
      let st : Stamped inner.route (meter sw x) = subst (Stamped inner.route) shape inner.stamped in
      let same : sent inner.w' ≡ sent x = ap sent shape in
      record {
        w' = x;
        s' = record (inner.s') {
          clock_reads = inner.s'.clock_reads + 1;
          counted = labels_of sw r ∷ inner.s'.counted;
          observed =
              (labels_of sw r, env.now inner.s'.clock_reads - env.now s.clock_reads)
              ∷ inner.s'.observed;
        };
        route = inner.route;
        entry = inner.entry;
        ends =
            metrics_returns env next r w x s inner.s' sw
              (inner.ends ∙ ap (λ v. some (v, inner.s')) shape);
        acts = acts;
        agrees = a.2;
        stamped = st.1;
        marks =
            subst (λ v. Q (inbound r) s.current (footprint inner.route w v s inner.s')) shape
              inner.marks;
        keeps = inner.keeps;
        ready = inner.ready;
        logged = inner.logged;
        describes = subst (λ c. Describes r (or_ok c) inner.route inner.entry) same inner.describes;
        counts =
            counts_of r sw inner.route (or_ok (sent x)) s inner.s'
              (env.now inner.s'.clock_reads - env.now s.clock_reads) st.0 a.1 inner.counts;
        upstream = inner.upstream;
      }
