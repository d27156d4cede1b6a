-- ===== src/Proxy/Transport/Bounds.antt =====
-- internal/proxy/proxy.go: the settings that newHTTP1Transport gives.
use decision_gateway.Prelude.{
  ℕ, zero, suc, ◌*◌, ◌<◌, ◌≡◌, refl, ◌⊎◌, inl, inr, none, arith, if◌then◌else◌, ℤ, pos, negsuc,
  is_positive,
}
use decision_gateway.Proxy.Transport.{
  PoolConfig, HttpTransport, http1, upstream_http1, new_tuned_transport, second,
}

abbrev pub IsPositive : ℤ → Type 0
IsPositive (pos n) = 0 < n
IsPositive (negsuc n) = ⊥

-- A setting is the flag's value where that is positive, else the default.
abbrev pub IsChosen : ℤ → ℤ → ℤ → Type 0
IsChosen chosen flag default =
    (IsPositive flag × (chosen ≡ flag)) ⊎ ((¬ IsPositive flag) × (chosen ≡ default))

pub record IsBounded (timeout : ℤ) (pool : PoolConfig) (t : HttpTransport) : Type 0 where
  pub idle_conns : IsPositive t.max_idle_conns_per_host
  pub idle_conns_chosen : IsChosen t.max_idle_conns_per_host pool.max_idle_conns_per_host (pos 128)
  pub idle : IsPositive t.idle_conn_timeout
  pub idle_chosen : IsChosen t.idle_conn_timeout pool.idle_conn_timeout (pos (90 * second))
  pub tls : IsPositive t.tls_handshake_timeout
  pub expect_continue : IsPositive t.expect_continue_timeout
  pub response_header : t.response_header_timeout ≡ timeout

choose :
    (flag : ℤ) (n : ℕ)
    → 0 < n
    → let chosen = if is_positive flag then flag else pos n in
      IsPositive chosen × IsChosen chosen flag (pos n)
choose (pos zero) n lt = (lt, inr ((λ p. omega arith), refl))
choose (pos (suc m)) n lt = (omega arith, inl (omega arith, refl))
choose (negsuc m) n lt = (lt, inr ((λ p. p), refl))

-- Without a wrapper and over HTTP/1.1, the transport has a positive pool size and positive timeouts
-- for idle connections, the TLS handshake and 100-continue, whatever the flags say; the first two
-- are the flags' values where those are positive and 128 and 90 s otherwise, and the timeout for
-- response headers is the flag's.
pub new_tuned_transport-IsBounded :
    (timeout : ℤ) (pool : PoolConfig)
    → (t : HttpTransport) × (new_tuned_transport timeout pool upstream_http1 none ≡ http1 t)
      × IsBounded timeout pool t
unfolding new_tuned_transport
new_tuned_transport-IsBounded timeout pool =
    let (conns, conns_chosen) = choose pool.max_idle_conns_per_host 128 (omega arith) in
    let (idle, idle_chosen) = choose pool.idle_conn_timeout (90 * second) (omega arith) in
    (
      _,
      refl,
      record {
        idle_conns = conns;
        idle_conns_chosen = conns_chosen;
        idle = idle;
        idle_chosen = idle_chosen;
        tls = omega arith;
        expect_continue = omega arith;
        response_header = refl;
      },
    )
