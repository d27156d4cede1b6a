-- ===== src/Otel/Trace.antt =====
-- internal/observability/otel/middleware.go: one span for each inbound request.
use decision_gateway.Prelude.{
  ℕ, ◌-◌, ◌/◌, Bool, Option, none, some, List, [], ◌∷◌, leb, if◌then◌else◌, Text, text,
}
use decision_gateway.Net.Http.{Request, SpanContext, status_ok}
use decision_gateway.Writer.{Writer, SpanWriter, tracer}
use decision_gateway.World.{
  Attribute, string_attr, int_attr, duration_attr, Span, World, Env, Handler, read_clock, ◌>>=◌,
}
use decision_gateway.Otel.Spans.{in_span, start_span, end_span}

abbrev pub fresh_tracer : SpanWriter
fresh_tracer = record { status = status_ok; matched_route = [] }

unfoldable pub route_attribute : Text → List Attribute
route_attribute [] = []
route_attribute (c ∷ route) = string_attr (text "http.route") (c ∷ route) ∷ []

span_error : Env → ℕ → Option Text
span_error env status = if leb 500 status then some (env.status_text status) else none

unfoldable pub request_span :
    Env → Request → Option SpanContext → SpanContext → SpanWriter → ℕ → Span
unfolding route_attribute span_error
request_span env r parent c sw duration = record {
  name = text "gateway.request";
  context = c;
  parent = parent;
  attributes =
      string_attr (text "http.method") r.method
      ∷ string_attr (text "http.target") r.url.path
      ∷ int_attr (text "http.status_code") sw.status
      ∷ duration_attr (text "gateway.duration_ms") (duration / 1000)
      ∷ route_attribute sw.matched_route;
  error = span_error env sw.status;
}

-- What follows `h.ServeHTTP(sw, r.WithContext(ctx))`.
finish_trace :
    Env → Request → Option SpanContext → SpanContext → ℕ → Writer × World → Option (Writer × World)
finish_trace env r parent c start (tracer sw w, s) =
    let (stop, s') = read_clock env s in
    some (w, end_span (request_span env r parent c sw (stop - start)) s')
finish_trace env r parent c start (_, s) = none

-- `Middleware` with a tracer.
unfoldable pub traced : Env → Handler → Handler
unfolding finish_trace
traced env next r w s =
    let ctx = env.extract r.header r.context in
    let (c, s1) = start_span env ctx s in
    let (start, s2) = read_clock env s1 in
    do
      end ← next (record r { context = in_span c ctx }) (tracer fresh_tracer w) s2
      finish_trace env r ctx.span c start end

-- `Middleware`; the test is whether the tracer is set.
unfoldable pub trace : Env → Bool → Handler → Handler
unfolding traced
trace env has_tracer next = if has_tracer then traced env next else next
