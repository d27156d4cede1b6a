-- ===== src/Otel.antt =====
-- internal/observability/otel: spans for the gateway's requests and for its calls of backends.
pub mod Bootstrap
pub mod Spans
pub mod Trace
pub mod Instrumented
