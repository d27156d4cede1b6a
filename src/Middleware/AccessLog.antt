-- ===== src/Middleware/AccessLog.antt =====
-- internal/middleware/accesslog.go: the AccessLog middleware. The wrapper that `next` is given is
-- read back from the writer that `next` leaves; another writer there would be a panic, and does
-- not occur.
use decision_gateway.Prelude.{ℕ, ◌-◌, false, Option, none, some, [], ◌∷◌, if◌then◌else◌, Text, text}
use decision_gateway.Net.Http.{Request, SpanContext, status_ok}
use decision_gateway.Writer.{Writer, StatusRecorder, recorder}
use decision_gateway.World.{AccessEntry, World, Env, Handler, read_clock, ◌>>=◌}
use decision_gateway.Middleware.CorrelationId.{id_from_context}

abbrev pub fresh_recorder : StatusRecorder
fresh_recorder = record { status = status_ok; wrote_header = false; route = [] }

-- The IDs of a span context that is valid, else "".
trace_ids : Option SpanContext → Text × Text
trace_ids none = ([], [])
trace_ids (some c) = if c.is_valid then (c.trace_id, c.span_id) else ([], [])

unfoldable pub access_entry : ℕ → ℕ → StatusRecorder → Request → AccessEntry
unfolding trace_ids
access_entry start stop rec r =
    let (trace_id, span_id) = trace_ids r.context.span in
    record {
      time = start;
      level = text "info";
      msg = text "gateway.access";
      attrs = record {
        method = r.method;
        path = r.url.path;
        status = rec.status;
        duration = stop - start;
        route = rec.route;
        correlation_id = id_from_context r.context;
        trace_id = trace_id;
        span_id = span_id;
      };
    }

-- What follows `next.ServeHTTP(wrapped, r)`.
finish_access : Env → ℕ → Request → Writer × World → Option (Writer × World)
finish_access env start r (recorder rec w, s) =
    let (stop, s') = read_clock env s in
    some (w, record s' { access_log = access_entry start stop rec r ∷ s'.access_log })
finish_access env start r (_, s) = none

unfoldable pub access_log : Env → Handler → Handler
unfolding finish_access
access_log env next r w s =
    let (start, s') = read_clock env s in
    do end ← next r (recorder fresh_recorder w) s'; finish_access env start r end
