-- ===== src/Pipeline/Traced.antt =====
-- internal/observability/otel/middleware.go: the request span around a handler that reports.
use decision_gateway.Prelude.{
  ℕ, ◌+◌, ◌-◌, ◌≡◌, refl, ap, ◌∙◌, subst, Bool, true, false, Option, none, some, List, [], ◌∷◌,
  Text, itoa,
}
use decision_gateway.Net.Headers.{Headers, get}
use decision_gateway.Middleware.Names.{correlation_id_header}
use decision_gateway.Middleware.CorrelationId.{id_from_context}
use decision_gateway.Net.Http.{Context, Request, SpanContext, or_ok}
use decision_gateway.Writer.{Writer, SpanWriter, tracer, response_of}
use decision_gateway.Writer.Acts.{Acts, Acts-tracer}
use decision_gateway.Writer.Agreement.{Agrees, sent}
use decision_gateway.Writer.Routes.{Stamped}
use decision_gateway.World.{World, AccessEntry, Labels, Env, Handler, Span, read_clock}
use decision_gateway.Proxy.Build
use decision_gateway.Otel.Spans.{in_span, start_span}
use decision_gateway.Otel.Trace.{fresh_tracer, request_span, traced, trace}
use decision_gateway.Handlers.{Marking, footprint, inbound}
use decision_gateway.Pipeline.{IsFresh, Describes, Reports, Counting}
use decision_gateway.Proxy.Forward.{AreWhole}
use decision_gateway.Pipeline.Spans.{Spanned, request_span-IsRequestSpan}

-- What is documented of the propagator: it adds a span to the context, and keeps what is there. And
-- the replies of the network can be copied to the client in full: the proxy ends its handler with a
-- panic where one cannot.
pub record IsSteady (env : Env) : Type 0 where
  pub extract_keeps :
      (h : Headers) (c : Context) → (env.extract h c).correlation_id ≡ c.correlation_id
  pub whole : AreWhole env
  pub inject_keeps :
      (c : Context) (h : Headers)
      → get correlation_id_header (env.inject c h) ≡ get correlation_id_header h

-- What a request leaves behind the tracing layer.
pub record Observed (env : Env) (has_tracer has_metrics : Bool) (J : Option Build.Handler → Type 0)
    (Q : Marking) (h : Handler) (r : Request) (w : Writer) (s : World) : Type 0 where
  pub w' : Writer
  pub s' : World
  pub route : Text
  pub entry : AccessEntry
  pub ends : h r w s ≡ some (w', s')
  pub acts : Acts w w'
  pub agrees : Agrees w'
  pub marks : Q (inbound r) s.current (footprint route w w' s s')
  pub keeps : J s'.current
  pub ready : s'.ready ≡ s.ready
  pub logged : s'.access_log ≡ entry ∷ s.access_log
  pub describes : Describes r (or_ok (sent w')) route entry
  pub counts : Counting has_metrics r (or_ok (sent w')) route s s'
  pub spanned : Spanned env has_tracer r (or_ok (sent w')) route s s'

fresh_tracer-IsFresh : (w : Writer) → IsFresh w → IsFresh (tracer fresh_tracer w)
unfolding response_of
fresh_tracer-IsFresh w f = record {
  unsent = f.unsent;
  agrees = (rw f.unsent refl, f.agrees);
  unstamped = refl;
}

traced_returns :
    (env : Env) (next : Handler) (r : Request) (w x : Writer) (s s2 : World) (sw : SpanWriter)
    → next
        (record r {
          context =
              in_span
                (start_span env (env.extract r.header r.context) s).0
                (env.extract r.header r.context);
        })
        (tracer fresh_tracer w)
        (read_clock env (start_span env (env.extract r.header r.context) s).1).1
      ≡ some (tracer sw x, s2)
    → traced env next r w s
      ≡ some (
        x,
        record s2 {
          clock_reads = s2.clock_reads + 1;
          spans =
              request_span env r
                (env.extract r.header r.context).span
                (env.start_span s.spans_started (env.extract r.header r.context))
                sw
                (env.now s2.clock_reads - env.now s.clock_reads)
              ∷ s2.spans;
        },
      )
unfolding traced read_clock start_span
traced_returns env next r w x s s2 sw e = rw e refl

-- The handlers below see the request as it came.
inbound-moved :
    (env : Env) (p : IsSteady env) (r : Request) (c : SpanContext)
    → inbound (record r { context = in_span c (env.extract r.header r.context) }) ≡ inbound r
unfolding id_from_context
inbound-moved env p r c =
    ap (λ (o : Option Text). record (inbound r) { id = elim o [ none ↦ [] | some id ↦ id ] })
      (p.extract_keeps r.header r.context)

-- The entry of the request under its span describes the request.
Describes-moved :
    (env : Env) (p : IsSteady env) (r : Request) (c : SpanContext) (status : ℕ) (route : Text)
    (e : AccessEntry)
    → Describes (record r { context = in_span c (env.extract r.header r.context) }) status route e
    → Describes r status route e
unfolding id_from_context
Describes-moved env p r c status route e d = record {
  method = d.method;
  path = d.path;
  status_sent = d.status_sent;
  route_stamped = d.route_stamped;
  correlation_id =
      d.correlation_id
      ∙ ap (λ (o : Option Text). elim o [ none ↦ [] | some id ↦ id ])
          (p.extract_keeps r.header r.context);
}

-- What is counted depends on neither the context nor the spans.
pub Counting-moved :
    (has_metrics : Bool) (r : Request) (ctx : Context) (status : ℕ) (route : Text) (s s1 s2 : World)
    (n : ℕ) (spans : List Span)
    → s1.counted ≡ s.counted
    → s1.observed ≡ s.observed
    → Counting has_metrics (record r { context = ctx }) status route s1 s2
    → Counting has_metrics r status route s (record s2 { clock_reads = n; spans = spans })
Counting-moved false r ctx status route s s1 s2 n spans e f c = (c.0 ∙ e, c.1 ∙ f)
Counting-moved true r ctx status route s s1 s2 n spans e f (c, (d, o)) =
    let labels : Labels = record { method = r.method; route = route; status = itoa status } in
    (c ∙ ap (λ t. labels ∷ t) e, (d, o ∙ ap (λ t. (labels, d) ∷ t) f))

module _ {J : Option Build.Handler → Type 0} {Q : Marking} {has_metrics : Bool} (env : Env)
    (p : IsSteady env) (next : Handler) (b : Reports J Q (Counting has_metrics) next) where
  traced-Observed :
      (r : Request) (w : Writer) (s : World)
      → IsFresh w
      → J s.current
      → Observed env true has_metrics J Q (traced env next) r w s
  unfolding read_clock start_span response_of
  traced-Observed r w s fresh j =
      let ctx = env.extract r.header r.context in
      let (c, s1) = start_span env ctx s in
      let q : Request = record r { context = in_span c ctx } in
      let inner =
        b q (tracer fresh_tracer w) (read_clock env s1).1 (fresh_tracer-IsFresh w fresh) j in
      let (sw, x, shape, acts) = Acts-tracer fresh_tracer w refl inner.acts in
      let a : Agrees (tracer sw x) = subst Agrees shape inner.agrees in
      let st : Stamped inner.route (tracer sw x) =
        subst (Stamped inner.route) shape inner.stamped in
      let same : sent inner.w' ≡ sent x = ap sent shape in
      let d = env.now inner.s'.clock_reads - env.now s.clock_reads in
      let span = request_span env r ctx.span c sw d in
      record {
        w' = x;
        s' = record (inner.s') {
          clock_reads = inner.s'.clock_reads + 1;
          spans = span ∷ inner.s'.spans;
        };
        route = inner.route;
        entry = inner.entry;
        ends =
            traced_returns env next r w x s inner.s' sw
              (inner.ends ∙ ap (λ v. some (v, inner.s')) shape);
        acts = acts;
        agrees = a.1;
        marks =
            subst (λ i. Q i s.current (footprint inner.route w x s inner.s'))
              (inbound-moved env p r c)
              (subst (λ v. Q (inbound q) s.current (footprint inner.route w v s inner.s')) shape
                inner.marks);
        keeps = inner.keeps;
        ready = inner.ready;
        logged = inner.logged;
        describes =
            Describes-moved env p r c (or_ok (sent x)) inner.route inner.entry
              (subst (λ o. Describes q (or_ok o) inner.route inner.entry) same inner.describes);
        counts =
            Counting-moved has_metrics r (in_span c ctx) (or_ok (sent x)) inner.route s
              (read_clock env s1).1 inner.s' (inner.s'.clock_reads + 1) (span ∷ inner.s'.spans) refl
              refl
              (subst
                (λ o. Counting has_metrics q (or_ok o) inner.route (read_clock env s1).1 inner.s')
                same inner.counts);
        spanned = (
          span,
          inner.s'.spans,
          refl,
          inner.upstream,
          request_span-IsRequestSpan env r ctx.span c sw d (or_ok (sent x)) inner.route a.0 st,
        );
      }

  untraced-Observed :
      (r : Request) (w : Writer) (s : World)
      → IsFresh w
      → J s.current
      → Observed env false has_metrics J Q next r w s
  untraced-Observed r w s fresh j =
      let inner = b r w s fresh j in
      record {
        w' = inner.w';
        s' = inner.s';
        route = inner.route;
        entry = inner.entry;
        ends = inner.ends;
        acts = inner.acts;
        agrees = inner.agrees;
        marks = inner.marks;
        keeps = inner.keeps;
        ready = inner.ready;
        logged = inner.logged;
        describes = inner.describes;
        counts = inner.counts;
        spanned = inner.upstream;
      }

  pub trace-Observed :
      (has_tracer : Bool) (r : Request) (w : Writer) (s : World)
      → IsFresh w
      → J s.current
      → Observed env has_tracer has_metrics J Q (trace env has_tracer next) r w s
  unfolding trace
  trace-Observed true r w s fresh j = traced-Observed r w s fresh j
  trace-Observed false r w s fresh j = untraced-Observed r w s fresh j
