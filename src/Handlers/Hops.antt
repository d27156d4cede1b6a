-- ===== src/Handlers/Hops.antt =====
-- internal/observability/otel/transport.go: the span of a request to a backend, under the proxy.
use decision_gateway.Prelude.{
  if◌then◌else◌, ◌≤◌, ◌<◌, ◌≡◌, refl, ap, ◌∙◌, ◌⊎◌, inl, inr, true, Option, none, some, List, ◌∷◌,
  Memᴰ, arith, leb, leb_iff, Bool-cases, length, Text, text, is_blank, ok,
}
use decision_gateway.Net.Url.{Url}
use decision_gateway.Net.Headers.{Headers}
use decision_gateway.Net.Http.{Reply, Request, SpanContext, Context}
use decision_gateway.Gateway.{Route, Router, new_router}
use decision_gateway.Gateway.Matching.{IsLongest}
use decision_gateway.Writer.{Writer, set_matched_route}
use decision_gateway.World.{World, Env, Trip, replied, failed, cut, Span, string_attr}
use decision_gateway.Proxy.Build.{BuildConfig, new}
use decision_gateway.Proxy.Build
use decision_gateway.Proxy.Build.Selection.{proxy_to}
use decision_gateway.Proxy.Forward.{AreWhole, outbound, relay, direct}
use decision_gateway.Proxy.Serve.{serve, stamp_id}
use decision_gateway.Middleware.CorrelationId.{id_from_context}
use decision_gateway.Proxy.Transport.{
  RoundTripper, http1, h2c, instrumented, default_transport, unset, UpstreamProtocol, HttpTransport,
  upstream_http1, upstream_h2c, base_transport, wrap, new_tuned_transport, new_http1_transport,
}
use decision_gateway.Otel.Spans.{start_span, end_span}
use decision_gateway.Otel.Instrumented.{round_trip, send, propagate, upstream_span}
use decision_gateway.Handlers.Network.{forward_whole}
use decision_gateway.Handlers.Selection.{serve_longest}

-- A transport of the libraries, not instrumented.
abbrev pub IsPlain : RoundTripper → Type 0
IsPlain (http1 t) = Unit
IsPlain h2c = Unit
IsPlain _ = ⊥

-- The error of a span is that of a reply with a status from 500 on.
abbrev pub IsServerError : Reply → Option Text → Type 0
IsServerError reply error =
    ((500 ≤ reply.status) × (error ≡ some reply.status_line))
    ⊎ ((reply.status < 500) × (error ≡ none))

-- The span is an error when the call failed, or from status 500 on.
abbrev pub IsMarked : Trip → Option Text → Type 0
IsMarked (failed e) error = error ≡ some e
IsMarked (replied reply) error = IsServerError reply error
IsMarked (cut reply) error = IsServerError reply error

-- One request `sent` to the network by the transport `over`, and one span more for it, a child of the span in the context of
-- `r`. The request's context holds the new span, and the propagator put that context in its headers.
pub record IsHop (env : Env) (over : RoundTripper) (host : Text) (r : Request) (s s' : World)
    : Type 0 where
  pub sent : Request
  pub span : Span
  pub logged : s'.forwarded ≡ (over, sent) ∷ s.forwarded
  pub spanned : s'.spans ≡ span ∷ s.spans
  pub child : span.parent ≡ r.context.span
  pub inside : sent.context.span ≡ some span.context
  pub injected : (h : Headers) × (sent.header ≡ env.inject sent.context h)
  pub names_host : Memᴰ (string_attr (text "upstream.host") host) span.attributes
  pub marked : IsMarked (env.network (length s.forwarded) over sent) span.error

IsServerError-cases :
    (reply : Reply)
    → IsServerError reply (if leb 500 reply.status then some reply.status_line else none)
IsServerError-cases reply = elim (Bool-cases (leb 500 reply.status)) [
  | inl bad ↦ inl ((leb_iff 500 reply.status).0 bad, rw bad refl)
  | inr fine ↦ inr (ground (arith, leb_iff 500 reply.status), rw fine refl)
]

upstream_span-IsMarked :
    (env : Env) (r : Request) (parent : Option SpanContext) (c : SpanContext) (trip : Trip)
    → IsMarked trip (upstream_span env r parent c trip).error
unfolding upstream_span
upstream_span-IsMarked env r parent c (failed e) = refl
upstream_span-IsMarked env r parent c (replied reply) = IsServerError-cases reply
upstream_span-IsMarked env r parent c (cut reply) = IsServerError-cases reply

-- What one call of a plain transport under a span leaves.
hop_state : Env → RoundTripper → Request → World → World
hop_state env rt r s =
    let (c, s1) = start_span env r.context s in
    let (trip, s2) = send env rt (propagate env c r) s1 in
    end_span (upstream_span env r r.context.span c trip) s2

hop_state-IsHop :
    (env : Env) (rt : RoundTripper) (r : Request) (s : World)
    → IsHop env rt r.url.host r s (hop_state env rt r s)
unfolding hop_state send start_span propagate upstream_span
hop_state-IsHop env rt r s =
    let c = env.start_span s.spans_started r.context in
    let q = propagate env c r in
    record {
      sent = q;
      span = upstream_span env r r.context.span c (env.network (length s.forwarded) rt q);
      logged = refl;
      spanned = refl;
      child = refl;
      inside = refl;
      injected = (r.header, refl);
      names_host = Memᴰ.tail (Memᴰ.tail (Memᴰ.head refl));
      marked = upstream_span-IsMarked env r r.context.span c _;
    }

traced-IsHop :
    (env : Env) (rt : RoundTripper) (r : Request) (s : World)
    → IsPlain rt
    → IsHop env rt r.url.host r s (round_trip env (instrumented true rt) r s).1
unfolding round_trip hop_state
traced-IsHop env (http1 t) r s plain = hop_state-IsHop env (http1 t) r s
traced-IsHop env h2c r s plain = hop_state-IsHop env h2c r s
traced-IsHop env default_transport r s plain = absurd plain
traced-IsHop env unset r s plain = absurd plain
traced-IsHop env (instrumented b rt) r s plain = absurd plain

-- The transport for a protocol: one of net/http for HTTP/1.1, and that of HTTP/2 in cleartext.
abbrev pub Speaks : UpstreamProtocol → RoundTripper → Type 0
Speaks upstream_http1 rt = (t : HttpTransport) × (rt ≡ http1 t)
Speaks upstream_h2c rt = rt ≡ h2c

-- With the wrapper of `run`, the transport is instrumented, around a plain one.
wrapped :
    (cfg : BuildConfig) (u : Url)
    → cfg.transport_wrapper ≡ some (instrumented true)
    → (rt : RoundTripper) × ((proxy_to cfg u).transport ≡ instrumented true rt)
      × IsPlain rt
      × Speaks cfg.protocol rt
unfolding new_tuned_transport base_transport wrap new_http1_transport
wrapped cfg u traced = elim (protocol_cases cfg.protocol) [
  | inl plain ↦ (
    new_http1_transport cfg.backend_timeout cfg.pool,
    rw (traced, plain) refl,
    tt,
    rw plain (_, refl),
  )
  | inr h2 ↦ (h2c, rw (traced, h2) refl, tt, rw h2 refl)
]
  where
    protocol_cases : (p : UpstreamProtocol) → (p ≡ upstream_http1) ⊎ (p ≡ upstream_h2c)
    protocol_cases upstream_http1 = inl refl
    protocol_cases upstream_h2c = inr refl

-- The stamp leaves the context alone.
stamp_id-context : (r : Request) → (stamp_id r).context ≡ r.context
unfolding stamp_id
stamp_id-context r = elim (Bool-cases (is_blank (id_from_context r.context))) [
  | inl blank ↦ rw blank refl
  | inr filled ↦ rw filled refl
]

-- A request that the proxy hands on under a span: the handler returns, after one hop.
pub record IsTraced (env : Env) (h : Build.Handler) (r : Request) (w : Writer) (s : World)
    : Type 0 where
  pub u : Url
  pub w' : Writer
  pub s' : World
  pub ends : serve env h r w s ≡ some (w', s')
  pub over : RoundTripper
  pub hop : IsHop env over u.host r s s'

-- Where the configuration wraps the transports as `run` does with tracing on, a request whose path
-- has a prefix of the table is sent once, by a transport of HTTP/1.1 or of h2c as the
-- configuration's protocol says, and leaves exactly one span more: a
-- child of the span in the request's context, with the backend's host, and an error exactly when
-- the network fails or replies with a status from 500 on. The request that is sent has the new span
-- in its context, and the propagator wrote that context into its headers. Every reply can be copied
-- to its client in full.
pub serve_traces :
    (env : Env) (cfg : BuildConfig) (rs : List Route) (router : Router) (h : Build.Handler)
    (route : Route) (r : Request) (w : Writer) (s : World)
    → AreWhole env
    → new_router rs ≡ ok router
    → new (some router) cfg ≡ ok h
    → IsLongest r.url.path rs route
    → cfg.transport_wrapper ≡ some (instrumented true)
    → (t : IsTraced env h r w s) × (route.backend ≡ some t.u) × Speaks cfg.protocol t.over
unfolding outbound direct
serve_traces env cfg rs router h route r w s whole built made longest traced =
    let (u, has_u, ends) = serve_longest env cfg rs router h route r w s built made longest in
    let (rt, is, plain, speaks) = wrapped cfg u traced in
    let out = outbound u (stamp_id r) in
    let (trip, s') = round_trip env (proxy_to cfg u).transport out s in
    let d : IsHop env rt u.host out s s' = rw is (traced-IsHop env rt out s plain) in
    (
      record {
        u = u;
        w' = relay trip (set_matched_route route.prefix w);
        s' = s';
        ends =
            ends
            ∙ forward_whole env (proxy_to cfg u) (stamp_id r) (set_matched_route route.prefix w) s
                whole;
        over = rt;
        hop = record {
          sent = d.sent;
          span = d.span;
          logged = d.logged;
          spanned = d.spanned;
          child = d.child ∙ ap (λ (c : Context). c.span) (stamp_id-context r);
          inside = d.inside;
          injected = d.injected;
          names_host = d.names_host;
          marked = d.marked;
        };
      },
      has_u,
      speaks,
    )
