-- ===== src/Handlers/Network.antt =====
-- internal/proxy/proxy.go: what a request that the proxy serves leaves behind.
use decision_gateway.Prelude.{
  ℕ, ◌≡◌, refl, ap, ◌∙◌, ◌⊎◌, inl, inr, true, false, Option, none, some, [], ◌∷◌, length, Text,
  blank_cases,
}
use decision_gateway.Net.Url.{Url}
use decision_gateway.Net.Headers.{get}
use decision_gateway.Net.Http.{Request, response_write_header, response_write}
use decision_gateway.Gateway.{Route}
use decision_gateway.Middleware.Names.{correlation_id_header}
use decision_gateway.Middleware.CorrelationId.{id_from_context}
use decision_gateway.Writer.{Writer, write_header, write, response_of}
use decision_gateway.Writer.Responses.{response_of-write_header, response_of-write}
use decision_gateway.World.{World, Env, Trip}
use decision_gateway.Proxy.Transport.{RoundTripper, default_transport, unset, instrumented}
use decision_gateway.Proxy.Build.{ReverseProxy}
use decision_gateway.Proxy.Forward.{outbound, relay, forward, is_cut, AreWhole}
use decision_gateway.Proxy.Serve.{stamp_id}
use decision_gateway.Proxy.Relayed.{IsRelayed}
use decision_gateway.Otel.Spans.{start_span}
use decision_gateway.Otel.Instrumented.{send, round_trip, propagate}
use decision_gateway.Pipeline.Traced.{IsSteady}
use decision_gateway.Handlers.{Footprint, IsOpen, Inbound, inbound}
use decision_gateway.Handlers.Outbound.{
  DropsIdOnHop, keeps_or_drops, IsDelivery, outbound-IsDelivery, outbound_carries,
}

-- `q` is `r` but for its context and its headers, and the propagator keeps the correlation ID.
pub record IsSame (env : Env) (r q : Request) : Type 0 where
  pub method : q.method ≡ r.method
  pub url : q.url ≡ r.url
  pub host : q.host ≡ r.host
  pub body : q.body ≡ r.body
  pub id : IsSteady env → get correlation_id_header q.header ≡ get correlation_id_header r.header

IsSame-refl : (env : Env) (r : Request) → IsSame env r r
IsSame-refl env r = record {
  method = refl;
  url = refl;
  host = refl;
  body = refl;
  id = λ prop. refl;
}

-- Exactly one request leaves the gateway, and it is the one that the transport was given; `trip` is
-- what the network does with it.
pub record Sends (env : Env) (r : Request) (s : World) (trip : Trip) (s' : World) : Type 0 where
  pub over : RoundTripper
  pub sent : Request
  pub same : IsSame env r sent
  pub logged : s'.forwarded ≡ (over, sent) ∷ s.forwarded
  pub answered : trip ≡ env.network (length s.forwarded) over sent

send-Sends :
    (env : Env) (rt : RoundTripper) (r : Request) (s : World)
    → Sends env r s (send env rt r s).0 (send env rt r s).1
unfolding send
send-Sends env rt r s = record {
  over = rt;
  sent = r;
  same = IsSame-refl env r;
  logged = refl;
  answered = refl;
}

module _ (env : Env) where
  -- Under a span the request is the same but for the trace headers.
  propagated :
      (r : Request) (s : World) (trip : Trip) (s' : World)
      → Sends env
          (propagate env (start_span env r.context s).0 r)
          (start_span env r.context s).1
          trip
          s'
      → Sends env r s trip s'
  unfolding start_span propagate
  propagated r s trip s' d = record {
    over = d.over;
    sent = d.sent;
    same = record {
      method = d.same.method;
      url = d.same.url;
      host = d.same.host;
      body = d.same.body;
      id = λ prop. d.same.id prop ∙ prop.inject_keeps _ r.header;
    };
    logged = d.logged;
    answered = d.answered;
  }

  pub round_trip-Sends :
      (rt : RoundTripper) (r : Request) (s : World)
      → Sends env r s (round_trip env rt r s).0 (round_trip env rt r s).1
  unfolding round_trip
  round_trip-Sends (instrumented false unset) r s = send-Sends env default_transport r s
  round_trip-Sends (instrumented false inner) r s = round_trip-Sends inner r s
  round_trip-Sends (instrumented true unset) r s = propagated r s _ _ (
      let d =
        send-Sends env default_transport (propagate env (start_span env r.context s).0 r)
          (start_span env r.context s).1 in
      record {
        over = d.over;
        sent = d.sent;
        same = d.same;
        logged = d.logged;
        answered = d.answered;
      })
  round_trip-Sends (instrumented true inner) r s = propagated r s _ _ (
      let d =
        round_trip-Sends inner (propagate env (start_span env r.context s).0 r)
          (start_span env r.context s).1 in
      record {
        over = d.over;
        sent = d.sent;
        same = d.same;
        logged = d.logged;
        answered = d.answered;
      })
  round_trip-Sends rt r s = send-Sends env rt r s

-- Where replies are whole, the reverse proxy returns.
pub forward_whole :
    (env : Env) (rp : ReverseProxy) (r : Request) (w : Writer) (s : World)
    → AreWhole env
    → let (trip, s') = round_trip env rp.transport (outbound rp.target r) s in
      forward env rp r w s ≡ some (relay trip w, s')
unfolding forward
forward_whole env rp r w s whole =
    let d = round_trip-Sends env rp.transport (outbound rp.target r) s in
    let uncut : is_cut (round_trip env rp.transport (outbound rp.target r) s).0 ≡ false =
      ap is_cut d.answered ∙ whole (length s.forwarded) d.over d.sent in
    rw uncut refl

-- A request is sent for the route, once, to the route's backend; it keeps the client's method, host
-- and body, and has the correlation ID, unless the client's Connection header names it or there is
-- none; and the client gets what comes back.
pub record Delivered (env : Env) (x : Inbound) (chosen : Route) (f : Footprint) : Type 0 where
  pub over : RoundTripper
  pub passed : Request
  pub logged : f.later ≡ (over, passed) ∷ f.earlier
  pub relayed : IsRelayed (env.network (length f.earlier) over passed) f.before f.after
  pub backend : Url
  pub has_backend : chosen.backend ≡ some backend
  pub delivery : IsDelivery backend x passed
  pub carries :
      (get correlation_id_header passed.header ≡ x.id) ⊎ (DropsIdOnHop x.header ⊎ (x.id ≡ []))

-- With no route for the path, nothing is stamped or sent and the status is 404. Otherwise the
-- route's prefix is stamped, and the request is delivered.
abbrev pub Passed : Env → Inbound → Option Route → Footprint → Type 0
Passed env x none f = (f.route ≡ []) × (f.later ≡ f.earlier) × (f.after.status ≡ some 404)
Passed env x (some chosen) f = (f.route ≡ chosen.prefix) × Delivered env x chosen f

-- The ID of a request that was sent as the reverse proxy made it.
pub sent_id :
    (env : Env) (u : Url) (r q : Request)
    → IsSteady env
    → IsSame env (outbound u (stamp_id r)) q
    → (get correlation_id_header q.header ≡ (inbound r).id)
      ⊎ (DropsIdOnHop r.header ⊎ ((inbound r).id ≡ []))
sent_id env u r q prop same = elim (blank_cases (id_from_context r.context)) [
  | inl (empty, _) ↦ inr (inr empty)
  | inr (filled, _) ↦ elim (keeps_or_drops r.header) [
    | inl keeps ↦ inl (same.id prop ∙ outbound_carries u r filled keeps)
    | inr drops ↦ inr (inl drops)
  ]
]

-- Where a request goes that was sent as the reverse proxy made it.
pub sent-IsDelivery :
    (env : Env) (u : Url) (r q : Request)
    → IsSame env (outbound u (stamp_id r)) q
    → IsDelivery u (inbound r) q
sent-IsDelivery env u r q same =
    let e = outbound-IsDelivery u r in
    record {
      method = same.method ∙ e.method;
      host = same.host ∙ e.host;
      body = same.body ∙ e.body;
      to_scheme = ap (λ (x : Url). x.scheme) same.url ∙ e.to_scheme;
      to_host = ap (λ (x : Url). x.host) same.url ∙ e.to_host;
      to_path = ap (λ (x : Url). x.path) same.url ∙ e.to_path;
    }

-- A status and a body, after a change of the header.
pub answered_status :
    (code : ℕ) (b : Text) (w : Writer)
    → IsOpen w
    → (response_of (write b (write_header code w))).status ≡ some code
unfolding response_write response_write_header
answered_status code b w (unsent, agrees) =
    rw
      (
        response_of-write b (write_header code w),
        response_of-write_header code w agrees unsent,
        unsent,
      )
      refl
