-- ===== src/Writer.antt =====
-- http.ResponseWriter: the server's response and the wrappers that embed a writer, those of
-- internal/middleware/accesslog.go, internal/observability/metrics/metrics.go and
-- internal/observability/otel/middleware.go. A method of a wrapper takes the embedded writer, and
-- the embedded writer as the same call leaves it, for where the method forwards the call.
pub mod Agreement
pub mod Responses
pub mod Routes
pub mod Acts
pub mod Identity
use decision_gateway.Prelude.{ℕ, Bool, true, if◌then◌else◌, Text}
use decision_gateway.Net.Headers.{Headers}
use decision_gateway.Net.Http.{Response, response_write_header, response_write}

pub record StatusRecorder : Type 0 where
  pub status : ℕ
  pub wrote_header : Bool
  pub route : Text

pub record MetricsWriter : Type 0 where
  pub status : ℕ
  pub route : Text
  pub wrote_header : Bool

pub record SpanWriter : Type 0 where
  pub status : ℕ
  pub matched_route : Text

pub data Writer : Type 0 where
  server : Response → Writer
  recorder : StatusRecorder → Writer → Writer
  meter : MetricsWriter → Writer → Writer
  tracer : SpanWriter → Writer → Writer

recorder_write_header : ℕ → StatusRecorder → Writer → Writer → Writer
recorder_write_header code s w forwarded =
    if s.wrote_header
    then recorder s w
    else recorder (record s { wrote_header = true; status = code }) forwarded

recorder_write : StatusRecorder → Writer → Writer
recorder_write s forwarded =
    recorder (if s.wrote_header then s else record s { wrote_header = true }) forwarded

-- `forwarded` is the embedded writer after its own SetMatchedRoute, if it is a RouteRecorder.
recorder_set_matched_route : Text → StatusRecorder → Writer → Writer
recorder_set_matched_route prefix s forwarded = recorder (record s { route = prefix }) forwarded

meter_write_header : ℕ → MetricsWriter → Writer → Writer → Writer
meter_write_header code s w forwarded =
    if s.wrote_header
    then meter s w
    else meter (record s { wrote_header = true; status = code }) forwarded

meter_write : MetricsWriter → Writer → Writer
meter_write s forwarded =
    meter (if s.wrote_header then s else record s { wrote_header = true }) forwarded

meter_set_matched_route : Text → MetricsWriter → Writer → Writer
meter_set_matched_route route s forwarded = meter (record s { route = route }) forwarded

tracer_write_header : ℕ → SpanWriter → Writer → Writer
tracer_write_header code s forwarded = tracer (record s { status = code }) forwarded

tracer_set_matched_route : Text → SpanWriter → Writer → Writer
tracer_set_matched_route route s w = tracer (record s { matched_route = route }) w

-- `w.WriteHeader(code)`, by dynamic dispatch
unfoldable pub write_header : ℕ → Writer → Writer
unfolding response_write_header recorder_write_header meter_write_header tracer_write_header
write_header code (server r) = server (response_write_header code r)
write_header code (recorder s w) = recorder_write_header code s w (write_header code w)
write_header code (meter s w) = meter_write_header code s w (write_header code w)
write_header code (tracer s w) = tracer_write_header code s (write_header code w)

-- `w.Write(b)`; the span writer has the embedded writer's method
unfoldable pub write : Text → Writer → Writer
unfolding response_write recorder_write meter_write
write b (server r) = server (response_write b r)
write b (recorder s w) = recorder_write s (write b w)
write b (meter s w) = meter_write s (write b w)
write b (tracer s w) = tracer s (write b w)

-- `w.(RouteRecorder)` and, where the assertion holds, `SetMatchedRoute(prefix)`
unfoldable pub set_matched_route : Text → Writer → Writer
unfolding recorder_set_matched_route meter_set_matched_route tracer_set_matched_route
set_matched_route prefix (server r) = server r
set_matched_route prefix (recorder s w) =
    recorder_set_matched_route prefix s (set_matched_route prefix w)
set_matched_route prefix (meter s w) = meter_set_matched_route prefix s (set_matched_route prefix w)
set_matched_route prefix (tracer s w) = tracer_set_matched_route prefix s w

-- A change of the map that `w.Header()` returns, which is the server's at every layer.
unfoldable pub edit_header : (Headers → Headers) → Writer → Writer
edit_header f (server r) = server (record r { header = f r.header })
edit_header f (recorder s w) = recorder s (edit_header f w)
edit_header f (meter s w) = meter s (edit_header f w)
edit_header f (tracer s w) = tracer s (edit_header f w)

-- The server's response under the layers.
unfoldable pub response_of : Writer → Response
response_of (server r) = r
response_of (recorder s w) = response_of w
response_of (meter s w) = response_of w
response_of (tracer s w) = response_of w
