-- ===== src/Handlers/Proxying.antt =====
-- internal/proxy: what ServeHTTP does to the writer and the state.
use decision_gateway.Prelude.{
  ◌≡◌, refl, sym, ap, ◌∙◌, subst, inl, inr, Option, none, some, arith, Option-cases, Text, text,
}
use decision_gateway.Net.Headers.{set, Headers, copy_all, get-copy_all, has-copy_all}
use decision_gateway.Net.Http.{Reply, Request, Response}
use decision_gateway.Gateway.{Route, match}
use decision_gateway.Gateway.Matching.{match-listed}
use decision_gateway.Middleware.Names.{correlation_id_header}
use decision_gateway.Writer.{
  Writer, set_matched_route, write, write_header, edit_header, response_of,
}
use decision_gateway.Writer.Agreement.{
  response_of-set_matched_route, set_matched_route-Agrees, response_of-edit_header,
  edit_header-Agrees,
}
use decision_gateway.Proxy.Relayed.{IsRelayed, relay-IsRelayed}
use decision_gateway.Handlers.Network.{
  forward_whole, Passed, Delivered, round_trip-Sends, sent-IsDelivery, sent_id, answered_status,
}
use decision_gateway.Pipeline.Traced.{IsSteady}
use decision_gateway.Net.Url.{Url}
use decision_gateway.Handlers.{inbound, footprint}
use decision_gateway.Writer.Acts.{Answers, done, status, body, route, header, KeepsId}
use decision_gateway.World.{World, Env, Trip, replied, failed, cut}
use decision_gateway.Proxy.Build.{ReverseProxy, find_proxy}
use decision_gateway.Proxy.Build
use decision_gateway.Proxy.Build.Wiring.{IsWired}
use decision_gateway.Proxy.Forward.{outbound, relay, copy_reply, forward, strip_hops}
use decision_gateway.Proxy.Serve.{not_found_body, not_found, serve, stamp_id}
use decision_gateway.Proxy.Holder.{serve_current}
use decision_gateway.Otel.Instrumented.{round_trip}
use decision_gateway.Handlers.{Marking, IsOpen, Behaved, Behaves, Behaved-marks, hands_on}
use decision_gateway.Handlers.Answers.{not_found-Behaves}
use decision_gateway.Handlers.Quiet.{round_trip-Quiet}

copy_all-KeepsId : (src : Headers) → KeepsId (λ h. copy_all h src)
copy_all-KeepsId src h present = (
  has-copy_all correlation_id_header h src present,
  get-copy_all correlation_id_header h src present,
)

copy_reply-Acts : (reply : Reply) (w : Writer) → Answers w (copy_reply reply w)
unfolding copy_reply
copy_reply-Acts reply w = (
  header _ (copy_all-KeepsId (strip_hops reply.header))
      (status reply.status (body reply.body done)),
  λ p. refl,
)

relay-Acts : (trip : Trip) (w : Writer) → Answers w (relay trip w)
unfolding relay
relay-Acts (failed e) w = (status 502 done, λ p. refl)
relay-Acts (replied reply) w = copy_reply-Acts reply w
relay-Acts (cut reply) w = copy_reply-Acts reply w

-- A handler's marking: what its table selects for the path; the Holder's table stays in place.
abbrev pub Forwarded : Env → Build.Handler → Marking
Forwarded env h x current f = Passed env x (match h.router x.url.path) f × (f.current ≡ current)

-- Forwarding, to a writer on which the route was stamped.
module _ (env : Env) (prop : IsSteady env) (r : Request) (w : Writer) (s : World)
    (chosen : Route) where
  -- The reverse proxy delivers the request.
  relay-Delivered :
      (rp : ReverseProxy) (u : Url)
      → chosen.backend ≡ some u
      → rp.target ≡ u
      → IsOpen w
      → let (trip, s') = round_trip env rp.transport (outbound rp.target (stamp_id r)) s in
        Delivered env
          (inbound r)
          chosen
          (footprint chosen.prefix w (relay trip (set_matched_route chosen.prefix w)) s s')
  relay-Delivered rp u has_u leads (unsent, agrees) =
      let out = outbound rp.target (stamp_id r) in
      let w1 = set_matched_route chosen.prefix w in
      let (trip, s1) = round_trip env rp.transport out s in
      let d = round_trip-Sends env rp.transport out s in
      let below = response_of-set_matched_route chosen.prefix w in
      let got =
        relay-IsRelayed trip w1 (set_matched_route-Agrees chosen.prefix w agrees)
          (ap (λ (x : Response). x.status) below ∙ unsent) in
      record {
        over = d.over;
        passed = d.sent;
        logged = d.logged;
        relayed =
            subst (λ t. IsRelayed t (response_of w) (response_of (relay trip w1))) d.answered
              (subst (λ x. IsRelayed trip x (response_of (relay trip w1))) below got);
        backend = rp.target;
        has_backend = has_u ∙ ap some (sym leads);
        delivery = sent-IsDelivery env rp.target r d.sent d.same;
        carries = sent_id env rp.target r d.sent prop d.same;
      }

  forwarded :
      {J : Option Build.Handler → Type 0} (h : Build.Handler) (rp : ReverseProxy) (u : Url)
      → J s.current
      → chosen.backend ≡ some u
      → rp.target ≡ u
      → serve env h r w s ≡ forward env rp (stamp_id r) (set_matched_route chosen.prefix w) s
      → match h.router r.url.path ≡ some chosen
      → Behaved J (Forwarded env h) (serve env h) r w s
  forwarded h rp u j has_u leads e found =
      let out = outbound rp.target (stamp_id r) in
      let w1 = set_matched_route chosen.prefix w in
      let quiet = round_trip-Quiet env rp.transport out s in
      let (trip, s1) = round_trip env rp.transport out s in
      let acts = relay-Acts trip w1 in
      record {
        w' = relay trip w1;
        s' = s1;
        ends = e ∙ forward_whole env rp (stamp_id r) w1 s prop.whole;
        acts = route chosen.prefix acts.0;
        marks = λ unsent. (
          rw found (
            acts.1 chosen.prefix,
            subst (λ p. Delivered env (inbound r) chosen (footprint p w (relay trip w1) s s1))
                (sym (acts.1 chosen.prefix)) (relay-Delivered rp u has_u leads unsent),
          ),
          quiet.current,
        );
        keeps = rw quiet.current j;
        frame = quiet.frame;
      }

pub serve_missed :
    (env : Env) (h : Build.Handler) (r : Request) (w : Writer) (s : World)
    → match h.router r.url.path ≡ none
    → serve env h r w s ≡ not_found r w s
unfolding serve
serve_missed env h r w s e = rw (e, serve)

pub serve_found :
    (env : Env) (h : Build.Handler) (r : Request) (w : Writer) (s : World) (found : Route)
    (rp : ReverseProxy)
    → match h.router r.url.path ≡ some found
    → find_proxy found.prefix h.proxies ≡ some rp
    → serve env h r w s ≡ forward env rp (stamp_id r) (set_matched_route found.prefix w) s
unfolding serve
serve_found env h r w s found rp e f = ground arith

-- The answer to a path that no route fits.
not_found-status :
    (r : Request) (w w' : Writer) (s s' : World)
    → not_found r w s ≡ some (w', s')
    → IsOpen w
    → (response_of w').status ≡ some 404
unfolding not_found
not_found-status r w w' s s' e (unsent, agrees) =
    let f = set (text "Content-Type") (text "application/json") in
    let edited = ap (λ (x : Response). x.status) (response_of-edit_header f w) in
    let same : write not_found_body (write_header 404 (edit_header f w)) ≡ w' = cc e in
    ap (λ v. (response_of v).status) (sym same)
    ∙ answered_status 404 not_found_body (edit_header f w)
        (edited ∙ unsent, edit_header-Agrees f w agrees)

pub serve-Behaves :
    {J : Option Build.Handler → Type 0} (env : Env) (h : Build.Handler)
    → IsSteady env
    → IsWired h
    → Behaves J (Forwarded env h) (serve env h)
serve-Behaves {J} env h prop wired r w s j = elim (Option-cases (match h.router r.url.path)) [
  | inl missed ↦
      let b = not_found-Behaves {J = J} r w s j in
      hands_on {k = not_found} (serve_missed env h r w s missed) (record {
        w' = b.w';
        s' = b.s';
        ends = b.ends;
        acts = b.acts;
        marks = λ unsent.
            let ((bare, quiet), same) = b.marks unsent in
            (rw missed (bare, quiet, not_found-status r w b.w' s b.s' b.ends unsent), same);
        keeps = b.keeps;
        frame = b.frame;
      })
  | inr (chosen, found) ↦
      let (u, has_u, (rp, has_proxy, leads)) =
        wired.leads chosen (match-listed h.router r.url.path found) in
      forwarded env prop r w s chosen h rp u j has_u leads
        (serve_found env h r w s chosen rp found has_proxy) found
]

-- The Holder has a wired handler.
abbrev pub IsHeld : Option Build.Handler → Type 0
IsHeld none = ⊥
IsHeld (some h) = IsWired h

-- What the table of the Holder selects.
abbrev pub match_now : Option Build.Handler → Text → Option Route
match_now none path = none
match_now (some h) path = match h.router path

pub serve_current-Behaves :
    (env : Env)
    → IsSteady env
    → Behaves IsHeld
        (λ x current f. Passed env x (match_now current x.url.path) f × (f.current ≡ current))
        (serve_current env)
unfolding serve_current
serve_current-Behaves env prop r w s j = elim (Option-cases (s.current)) [
  | inl empty ↦ absurd (subst IsHeld empty j)
  | inr (h, held) ↦ hands_on {k = serve env h} (ground arith) (
      Behaved-marks
        (λ f m.
          (subst (λ c. Passed env (inbound r) (match_now c r.url.path) f) (sym held) m.0, m.1))
        (serve-Behaves env h prop (subst IsHeld held j) r w s j))
]
