-- ===== src/Otel/Spans.antt =====
-- Starting and ending a span. The tracer's IDs come from the environment; a span's parent is the
-- span that the context holds when it starts.
use decision_gateway.Prelude.{◌+◌, some, ◌∷◌}
use decision_gateway.Net.Http.{Context, SpanContext}
use decision_gateway.World.{Span, World, Env}

abbrev pub in_span : SpanContext → Context → Context
in_span c ctx = record ctx { span = some c }

-- `tracer.Start(ctx, …)`
unfoldable pub start_span : Env → Context → World → SpanContext × World
start_span env ctx s =
    (env.start_span s.spans_started ctx, record s { spans_started = s.spans_started + 1 })

-- `span.End()`
abbrev pub end_span : Span → World → World
end_span span s = record s { spans = span ∷ s.spans }
