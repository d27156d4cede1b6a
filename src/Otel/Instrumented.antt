-- ===== src/Otel/Instrumented.antt =====
-- internal/observability/otel/transport.go: one span for each call of a backend.
use decision_gateway.Prelude.{
  true, false, Option, none, some, [], ◌∷◌, leb, if◌then◌else◌, length, text,
}
use decision_gateway.Net.Http.{Request, SpanContext}
use decision_gateway.Proxy.Transport.{RoundTripper, default_transport, unset, instrumented}
use decision_gateway.World.{string_attr, int_attr, Span, World, Env, Trip, replied, failed, cut}
use decision_gateway.Otel.Spans.{in_span, start_span, end_span}

-- A transport of the libraries: the request leaves the gateway.
unfoldable pub send : Env → RoundTripper → Request → World → Trip × World
send env rt r s =
    (env.network (length s.forwarded) rt r, record s { forwarded = (rt, r) ∷ s.forwarded })

unfoldable pub upstream_span : Env → Request → Option SpanContext → SpanContext → Trip → Span
upstream_span env r parent c trip = record {
  name = text "gateway.proxy.upstream";
  context = c;
  parent = parent;
  attributes =
      string_attr (text "http.method") r.method
      ∷ string_attr (text "http.url") (env.url_string r.url)
      ∷ string_attr (text "upstream.host") r.url.host
      ∷ elim trip [
        | replied reply ↦ int_attr (text "upstream.status_code") reply.status ∷ []
        | failed e ↦ []
        | cut reply ↦ int_attr (text "upstream.status_code") reply.status ∷ []
      ];
  error = elim trip [
    | replied reply ↦ if leb 500 reply.status then some reply.status_line else none
    | failed e ↦ some e
    | cut reply ↦ if leb 500 reply.status then some reply.status_line else none
  ];
}

-- The outbound request under its span: the context in it, and the trace headers injected.
unfoldable pub propagate : Env → SpanContext → Request → Request
propagate env c r =
    let ctx = in_span c r.context in record r { context = ctx; header = env.inject ctx r.header }

unfoldable pub round_trip : Env → RoundTripper → Request → World → Trip × World
unfolding upstream_span
round_trip env (instrumented false unset) r s = send env default_transport r s
round_trip env (instrumented false inner) r s = round_trip env inner r s
round_trip env (instrumented true unset) r s =
    let (c, s1) = start_span env r.context s in
    let (trip, s2) = send env default_transport (propagate env c r) s1 in
    (trip, end_span (upstream_span env r r.context.span c trip) s2)
round_trip env (instrumented true inner) r s =
    let (c, s1) = start_span env r.context s in
    let (trip, s2) = round_trip env inner (propagate env c r) s1 in
    (trip, end_span (upstream_span env r r.context.span c trip) s2)
round_trip env rt r s = send env rt r s
