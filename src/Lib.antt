-- ===== src/Lib.antt =====
-- decision-gateway: a reverse proxy that selects a backend by the longest matching path prefix. This
-- library models the Go code of cmd/decision-gateway and internal/, and proves the results below.
--
-- The process (Cmd): cmd/decision-gateway/main.go parses flags, builds a router, a proxy handler and
-- a mux, wraps the mux in middlewares, and serves until its context ends.
--   Cmd.Flags      routes.go: routeFlagList, parseRouteFlags, splitArrow
--   Cmd.Args       main.go, run: the other flags, their defaults and FlagSet.Parse
--   Cmd.Compose    main.go, run: setup (routes, router, tracing, proxy, boot event), mux and handler
--                  (the composition CorrelationID(trace(metrics(access log(mux)))))
--   Cmd.Mux        http.ServeMux with the patterns that run registers
--   Cmd.Run        run after the mux: the phases, the readiness flag and the exit status, as a step
--                  relation; in Run.Goroutines its two goroutines, their channel, the signal
--                  and the requests in flight
-- The parts it puts together:
--   Gateway        internal/gateway/router.go: NewRouter, Match, Routes
--   Proxy          internal/proxy: New, ServeHTTP, the reverse proxy (Forward), the transports, and
--                  the Holder, whose current handler is a field of the shared state; in
--                  Holder.Threads its calls overlap, step by step under the RWMutex
--   Middleware     internal/middleware: CorrelationID, newUUID, AccessLog
--   Metrics        internal/observability/metrics/metrics.go: New (Registry), Sink.Middleware
--   Otel           internal/observability/otel: Bootstrap, Middleware, InstrumentedTransport
--   Api            internal/httpapi: Healthz, Readyz, RoutesAdmin, and the JSON that they write;
--                  Api.Utf8 has the characters that the encoder takes a string for, and
--                  Api.Json.Reading is a reader of the JSON, to state what it means
--   Events         the JSON of the access log and of the boot event, and stdout; in Events.Threads
--                  the requests that overlap in the access log, under its mutex
--   Writer         http.ResponseWriter: the server's response under the status writers of the three
--                  middlewares, with the methods that each overrides
--   World          the state that handlers share, what they record, and the code outside (Env)
--   Net            the parts of net/http and net/url that requests and responses carry
-- Their proofs stand below them; those on several parts are in Handlers (what a handler below the
-- middlewares does) and Pipeline (each middleware around such a handler). Tests runs the definitions
-- at sample inputs.
--
-- A handler is a function from a request, a writer and the state to the writer and the state that it
-- leaves, or `none` for a panic. Strings are lists of bytes, header keys are canonical, a nil
-- pointer is `none`. An error is a value with what the source prints. Recursion is structural, but in
-- itoa (Prelude.Decimal), whose fuel is one more than the number to print, and that has no more
-- digits, and in the reader of a listing (Api.Json.Reading), whose fuel is the length of the text,
-- and each route takes up at least one character.
--
-- Outside the repository, and a field of Env: the clock, crypto/rand, the network behind a transport,
-- the OpenTelemetry propagator and tracer, url.Parse and URL.String, json.Decoder and http.StatusText.
-- The handler behind /metrics and the mux's redirection are arguments. What is assumed of them is in
-- IsRandom, IsSteady, AreHandlers, IsDecoder and IsUrlCodec. Also arguments are the formats of times
-- and of floating-point numbers (Formats, with IsFormat), the parsers of numbers and durations (Values,
-- with Printer), and the constructors of the OpenTelemetry SDK (Sdk). What Prometheus takes is a field
-- of Env too (Prometheus, with IsPrometheus).
--
-- A reply may break off, or its client may leave, while its body is copied (Trip, cut): the reverse
-- proxy then panics with http.ErrAbortHandler, and the handler gives `none` through all middlewares,
-- which have no defer but that of a span. What such a panic leaves of the state is not modelled, and
-- the runs of Cmd.Run have no step for it: the results on whole requests assume that no reply is cut,
-- which is AreWhole, a field of IsSteady.
--
-- Not modelled: what a panic of a handler leaves behind, what goes to stderr, the flush of the
-- telemetry SDK when run returns, two requests at once outside the Holder and the mutex of the access
-- log (in Run.Goroutines requests overlap, and each runs its handler in one step), and in the reverse
-- proxy escaped paths, trailers and upgrades.
pub mod Prelude
pub mod Net
pub mod Gateway
pub mod Middleware
pub mod Writer
pub mod Proxy
pub mod World
pub mod Metrics
pub mod Otel
pub mod Api
pub mod Cmd
pub mod Handlers
pub mod Events
pub mod Pipeline
pub mod Tests
