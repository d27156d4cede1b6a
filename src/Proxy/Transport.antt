-- ===== src/Proxy/Transport.antt =====
-- The transports of internal/proxy/proxy.go, as configurations: what a transport does on the
-- network is a parameter of the model. Durations are in nanoseconds.
pub mod Bounds
use decision_gateway.Prelude.{ℕ, ◌*◌, Bool, Option, none, some, if◌then◌else◌, ℤ, pos, is_positive}

pub data UpstreamProtocol : Type 0 where
  upstream_http1 upstream_h2c : UpstreamProtocol

pub record PoolConfig : Type 0 where
  pub max_idle_conns_per_host : ℤ
  pub idle_conn_timeout : ℤ

-- The fields of http.Transport that the gateway sets.
pub record HttpTransport : Type 0 where
  pub max_idle_conns_per_host : ℤ
  pub idle_conn_timeout : ℤ
  pub tls_handshake_timeout : ℤ
  pub expect_continue_timeout : ℤ
  pub response_header_timeout : ℤ

-- http.RoundTripper. `instrumented` is otel's InstrumentedTransport, with whether its Tracer is
-- set; `unset` is a nil Inner, and `default_transport` is http.DefaultTransport.
pub data RoundTripper : Type 0 where
  http1 : HttpTransport → RoundTripper
  h2c : RoundTripper
  default_transport : RoundTripper
  unset : RoundTripper
  instrumented : Bool → RoundTripper → RoundTripper

abbrev pub Wrapper : Type 0
Wrapper = Option (RoundTripper → RoundTripper)

abbrev pub second : ℕ
second = 1_000_000_000

unfoldable pub new_http1_transport : ℤ → PoolConfig → RoundTripper
new_http1_transport timeout pool = http1 (record {
  max_idle_conns_per_host =
      if is_positive pool.max_idle_conns_per_host then pool.max_idle_conns_per_host else pos 128;
  idle_conn_timeout =
      if is_positive pool.idle_conn_timeout then pool.idle_conn_timeout else pos (90 * second);
  tls_handshake_timeout = pos (10 * second);
  expect_continue_timeout = pos (1 * second);
  response_header_timeout = timeout;
})

abbrev pub new_h2c_transport : RoundTripper
new_h2c_transport = h2c

unfoldable pub base_transport : ℤ → PoolConfig → UpstreamProtocol → RoundTripper
base_transport timeout pool upstream_h2c = new_h2c_transport
base_transport timeout pool upstream_http1 = new_http1_transport timeout pool

unfoldable pub wrap : Wrapper → RoundTripper → RoundTripper
wrap none base = base
wrap (some wrapper) base = wrapper base

unfoldable pub new_tuned_transport : ℤ → PoolConfig → UpstreamProtocol → Wrapper → RoundTripper
unfolding new_http1_transport base_transport wrap
new_tuned_transport timeout pool protocol wrapper =
    wrap wrapper (base_transport timeout pool protocol)
