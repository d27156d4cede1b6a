-- ===== src/World.antt =====
-- The state that the gateway's handlers share, and the code outside the repository that they call.
-- A handler takes a request, a writer and the state, and returns both anew, or `none` when it
-- panics.
use decision_gateway.Prelude.{Bool, ℕ, ◌+◌, Option, none, some, List, Text, ℤ}
use decision_gateway.Net.Url.{Url}
use decision_gateway.Net.Headers.{Headers}
use decision_gateway.Net.Http.{Context, Request, Reply, SpanContext}
use decision_gateway.Proxy.Transport.{RoundTripper}
use decision_gateway.Proxy.Build.{Handler as ProxyHandler}
use decision_gateway.Writer.{Writer}
use decision_gateway.Otel.Bootstrap.{Globals}

-- internal/middleware/accesslog.go; "" and a duration stand for fields that are left out or are
-- floating-point milliseconds. The duration is in nanoseconds.
pub record AccessAttrs : Type 0 where
  pub method : Text
  pub path : Text
  pub status : ℕ
  pub duration : ℕ
  pub route : Text
  pub correlation_id : Text
  pub trace_id : Text
  pub span_id : Text

pub record AccessEntry : Type 0 where
  -- the clock's reading, which the entry prints in RFC 3339
  pub time : ℕ
  pub level : Text
  pub msg : Text
  pub attrs : AccessAttrs

-- The labels of the two metrics.
pub record Labels : Type 0 where
  pub method : Text
  pub route : Text
  pub status : Text

pub data Attribute : Type 0 where
  string_attr : Text → Text → Attribute
  int_attr : Text → ℕ → Attribute
  -- a duration in microseconds, which the source turns into milliseconds
  duration_attr : Text → ℕ → Attribute

-- internal/httpapi/routes_admin.go
pub record RouteSpec : Type 0 where
  pub prefix : Text
  pub backend : Text

-- cmd/decision-gateway/main.go, bootBoot: the boot event, with the backend timeout that it prints.
pub record BootEntry : Type 0 where
  pub time : ℕ
  pub level : Text
  pub msg : Text
  pub listen : Text
  pub routes : List RouteSpec
  pub backend_timeout : ℤ

-- A span that has ended.
pub record Span : Type 0 where
  pub name : Text
  pub context : SpanContext
  pub parent : Option SpanContext
  pub attributes : List Attribute
  pub error : Option Text

pub record World : Type 0 where
  -- readyState
  pub ready : ℕ
  -- the Holder's current handler, where there is a Holder
  pub current : Option ProxyHandler
  -- what was written, oldest last
  pub boot_log : List BootEntry
  pub access_log : List AccessEntry
  pub counted : List Labels
  pub observed : List (Labels × ℕ)
  pub spans : List Span
  -- what was sent to backends, oldest last
  pub forwarded : List (RoundTripper × Request)
  -- what OpenTelemetry keeps for the whole process
  pub telemetry : Globals
  -- how often the clock and the random source were read, and how many spans were started
  pub clock_reads : ℕ
  pub random_reads : ℕ
  pub spans_started : ℕ

pub data Trip : Type 0 where
  replied : Reply → Trip
  failed : Text → Trip
  -- a reply whose body breaks off, or whose client has gone: what it has of the body was copied
  cut : Reply → Trip

-- The Prometheus client: whether it makes a histogram with the given buckets, and whether a new
-- registry takes metrics of the given names; it panics where not.
pub record Prometheus : Type 0 where
  pub accepts_buckets : List ℕ → Bool
  pub registers : List Text → Bool

-- The n-th reading of a source, or a function of a library.
pub record Env : Type 0 where
  -- time.Now, in nanoseconds
  pub now : ℕ → ℕ
  -- crypto/rand.Read into 16 bytes; `none` is an error
  pub rand_read : ℕ → Option Text
  -- what the backend or the network does with the n-th request that is sent
  pub network : ℕ → RoundTripper → Request → Trip
  -- OpenTelemetry: the global propagator and the tracer
  pub extract : Headers → Context → Context
  pub inject : Context → Headers → Headers
  pub start_span : ℕ → Context → SpanContext
  -- url.Parse and URL.String
  pub parse_url : Text → Option Url
  pub url_string : Url → Text
  -- json.Decoder.Decode into a routesBody
  pub decode_routes : Text → Option (List RouteSpec)
  pub prometheus : Prometheus
  -- http.StatusText
  pub status_text : ℕ → Text

abbrev pub Handler : Type 0
Handler = Request → Writer → World → Option (Writer × World)

infixl 5 ◌>>=◌
abbrev pub ◌>>=◌ :
    Option (Writer × World) → (Writer × World → Option (Writer × World)) → Option (Writer × World)
none >>= f = none
some x >>= f = f x

module _ (env : Env) where
  -- `time.Now()`
  unfoldable pub read_clock : World → ℕ × World
  read_clock s = (env.now s.clock_reads, record s { clock_reads = s.clock_reads + 1 })
