-- ===== src/Handlers/Quiet.antt =====
-- internal/observability/otel/transport.go: what a round trip does to the rest of the state.
use decision_gateway.Prelude.{◌≡◌, refl, ap, true, false, [], ◌∷◌, text}
use decision_gateway.Net.Http.{Context, Request}
use decision_gateway.World.{World, Span, Env}
use decision_gateway.Proxy.Transport.{RoundTripper, default_transport, unset, instrumented}
use decision_gateway.Otel.Spans.{start_span, end_span}
use decision_gateway.Otel.Instrumented.{send, round_trip, propagate, upstream_span}
use decision_gateway.Handlers.{Frame}

-- A round trip changes nothing that a client or a middleware's record shows, and adds spans of
-- calls of backends only.
pub record Quiet (s s' : World) : Type 0 where
  pub current : s'.current ≡ s.current
  pub frame : Frame s s'

send-Quiet : (env : Env) (rt : RoundTripper) (r : Request) (s : World) → Quiet s (send env rt r s).1
unfolding send
send-Quiet env rt r s = record {
  current = refl;
  frame = record {
    access_log = refl;
    counted = refl;
    observed = refl;
    ready = refl;
    upstream = ([], refl, tt);
  };
}

-- Inside a span it is as quiet.
in_span-Quiet :
    (env : Env) (ctx : Context) (span : Span) (s s' : World)
    → span.name ≡ text "gateway.proxy.upstream"
    → Quiet (start_span env ctx s).1 s'
    → Quiet s (end_span span s')
unfolding start_span
in_span-Quiet env ctx span s s' named q = record {
  current = q.current;
  frame = record {
    access_log = q.frame.access_log;
    counted = q.frame.counted;
    observed = q.frame.observed;
    ready = q.frame.ready;
    upstream =
        let (below, e, named_below) = q.frame.upstream in
        (span ∷ below, ap (λ l. span ∷ l) e, (named, named_below));
  };
}

pub round_trip-Quiet :
    (env : Env) (rt : RoundTripper) (r : Request) (s : World) → Quiet s (round_trip env rt r s).1
unfolding round_trip upstream_span
round_trip-Quiet env (instrumented false unset) r s = send-Quiet env default_transport r s
round_trip-Quiet env (instrumented false inner) r s = round_trip-Quiet env inner r s
round_trip-Quiet env (instrumented true unset) r s = in_span-Quiet env r.context _ s _ refl (
    send-Quiet env default_transport (propagate env (start_span env r.context s).0 r)
      (start_span env r.context s).1)
round_trip-Quiet env (instrumented true inner) r s = in_span-Quiet env r.context _ s _ refl (
    round_trip-Quiet env inner (propagate env (start_span env r.context s).0 r)
      (start_span env r.context s).1)
round_trip-Quiet env rt r s = send-Quiet env rt r s
