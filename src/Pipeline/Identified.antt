-- ===== src/Pipeline/Identified.antt =====
-- internal/middleware/correlationid.go: the correlation ID around the other middlewares.
use decision_gateway.Prelude.{
  ℕ, ◌≡◌, refl, ap, ◌∙◌, subst, ◌≢◌, inl, inr, Bool, true, false, Option, some, List, [], ◌∷◌,
  Bool-cases, Text, is_blank, blank_cases,
}
use decision_gateway.Net.Headers.{get, set, get-set_self, has-set_self}
use decision_gateway.Net.Http.{Context, Request, Response, fresh_response, or_ok}
use decision_gateway.Writer.{Writer, server, edit_header, response_of}
use decision_gateway.Writer.Acts.{Acts-server}
use decision_gateway.Writer.Agreement.{sent}
use decision_gateway.Writer.Identity.{Carries, Acts-Carries, Carries-delivered, delivered}
use decision_gateway.World.{World, AccessEntry, Env, Handler}
use decision_gateway.Proxy.Build
use decision_gateway.Middleware.Names.{correlation_id_header}
use decision_gateway.Middleware.CorrelationId.{resolve_id, with_id, correlation_id, id_from_context}
use decision_gateway.Middleware.Uuid.{new_uuid}
use decision_gateway.Middleware.Uuid.Layout.{IsRandom, IsUuid4, new_uuid-IsUuid4, IsUuid4-ne_nil}
use decision_gateway.Handlers.{Marking, Footprint, inbound, AddsUpstream}
use decision_gateway.Proxy.Transport.{RoundTripper}
use decision_gateway.Pipeline.{IsFresh, Counting}
use decision_gateway.Pipeline.Spans.{Spanned}
use decision_gateway.Pipeline.Traced.{Observed, Counting-moved}

-- The ID of a request: that of the inbound header, or a new UUID where there is none.
pub record IsIdFor (r : Request) (id : Text) : Type 0 where
  pub inbound : get correlation_id_header r.header ≢ [] → id ≡ get correlation_id_header r.header
  pub minted : get correlation_id_header r.header ≡ [] → IsUuid4 id
  pub filled : id ≢ []

resolve_id-IsIdFor :
    (env : Env) (r : Request) (s : World) → IsRandom env → IsIdFor r (resolve_id env r s).0
unfolding resolve_id
resolve_id-IsIdFor env r s rand = elim (blank_cases (get correlation_id_header r.header)) [
  | inl (empty, blank) ↦
      rw (blank, resolve_id)
        (record {
          inbound = λ h. absurd (h empty);
          minted = λ _. new_uuid-IsUuid4 env s rand;
          filled = IsUuid4-ne_nil (new_uuid-IsUuid4 env s rand);
        })
  | inr (full, nonblank) ↦
      rw (nonblank, resolve_id)
        (record { inbound = λ _. refl; minted = λ h. absurd (full h); filled = full })
]

-- The part of the state that the middlewares below read is as it was.
pub record Prepared (s s' : World) : Type 0 where
  pub current : s'.current ≡ s.current
  access_log : s'.access_log ≡ s.access_log
  counted : s'.counted ≡ s.counted
  observed : s'.observed ≡ s.observed
  ready : s'.ready ≡ s.ready
  forwarded : s'.forwarded ≡ s.forwarded
  spans : s'.spans ≡ s.spans

pub resolve_id-Prepared : (env : Env) (r : Request) (s : World) → Prepared s (resolve_id env r s).1
unfolding resolve_id new_uuid
resolve_id-Prepared env r s = elim (Bool-cases (is_blank (get correlation_id_header r.header))) [
  | inl blank ↦
      rw (blank, resolve_id)
        (record {
          current = refl;
          access_log = refl;
          counted = refl;
          observed = refl;
          ready = refl;
          forwarded = refl;
          spans = refl;
        })
  | inr filled ↦
      rw (filled, resolve_id)
        (record {
          current = refl;
          access_log = refl;
          counted = refl;
          observed = refl;
          ready = refl;
          forwarded = refl;
          spans = refl;
        })
]

-- The response before the request is handled: with the ID in its header map.
abbrev pub carrying : Text → Response
carrying id = record fresh_response { header = set correlation_id_header id [] }

-- What one request leaves behind: a response that carries the request's ID, one access entry that
-- tells the status and the ID of that response, and with metrics and tracing on one count, one
-- observation and one request span that tell the same status and the same route as the entry.
pub record Served (env : Env) (has_tracer has_metrics : Bool) (J : Option Build.Handler → Type 0)
    (Q : Marking) (h : Handler) (r : Request) (s : World) : Type 0 where
  pub response : Response
  pub s' : World
  pub id : Text
  pub route : Text
  pub entry : AccessEntry
  pub ends : h r (server fresh_response) s ≡ some (server response, s')
  pub identified : IsIdFor r id
  pub returned : get correlation_id_header (delivered response) ≡ id
  pub keeps : J s'.current
  pub ready : s'.ready ≡ s.ready
  pub logged : s'.access_log ≡ entry ∷ s.access_log
  pub entry_method : entry.attrs.method ≡ r.method
  pub entry_path : entry.attrs.path ≡ r.url.path
  pub entry_status : entry.attrs.status ≡ or_ok response.status
  pub entry_route : entry.attrs.route ≡ route
  pub routed :
      Q
        (record (inbound r) { id = id })
        s.current
        (record {
          route = route;
          before = carrying id;
          after = response;
          earlier = s.forwarded;
          later = s'.forwarded;
          current = s'.current;
        })
  pub entry_id : entry.attrs.correlation_id ≡ id
  pub counts : Counting has_metrics r (or_ok response.status) route s s'
  pub spanned : Spanned env has_tracer r (or_ok response.status) route s s'

-- A span tells nothing of the context.
Spanned-moved :
    (env : Env) (has_tracer : Bool) (r : Request) (ctx : Context) (status : ℕ) (route : Text)
    (s s1 s2 : World)
    → s1.spans ≡ s.spans
    → Spanned env has_tracer (record r { context = ctx }) status route s1 s2
    → Spanned env has_tracer r status route s s2
Spanned-moved env false r ctx status route s s1 s2 same h =
    subst (λ l. AddsUpstream l s2.spans) same h
Spanned-moved env true r ctx status route s s1 s2 same (span, older, e, adds, is) = (
  span,
  older,
  e,
  subst (λ l. AddsUpstream l older) same adds,
  record { duration = is.duration; named = is.named; attributes = is.attributes; error = is.error },
)

carrying-Carries : (id : Text) → Carries id (carrying id)
carrying-Carries id = record {
  present = has-set_self correlation_id_header id [];
  pending = get-set_self correlation_id_header id [];
  gone = λ h. cc;
}

carrying-IsFresh : (id : Text) → IsFresh (server (carrying id))
unfolding response_of
carrying-IsFresh id = record { unsent = refl; agrees = tt; unstamped = tt }

module _ {J : Option Build.Handler → Type 0} {Q : Marking} {has_tracer has_metrics : Bool}
    (env : Env) (rand : IsRandom env) (next : Handler)
    (b : (r : Request) (w : Writer) (s : World)
      → IsFresh w
      → J s.current
      → Observed env has_tracer has_metrics J Q next r w s) where
  counts :
      (status : ℕ) (ctx : Context) (r : Request) (s s1 s2 : World) (route : Text)
      → Prepared s s1
      → Counting has_metrics (record r { context = ctx }) status route s1 s2
      → Counting has_metrics r status route s s2
  counts status ctx r s s1 s2 route prep c =
      Counting-moved has_metrics r ctx status route s s1 s2 s2.clock_reads s2.spans prep.counted
        prep.observed c

  pub correlation_id-Served :
      (r : Request) (s : World)
      → J s.current
      → Served env has_tracer has_metrics J Q (correlation_id env next) r s
  unfolding correlation_id edit_header with_id id_from_context response_of
  correlation_id-Served r s j =
      let (id, s1) = resolve_id env r s in
      let is_id = resolve_id-IsIdFor env r s rand in
      let prep = resolve_id-Prepared env r s in
      let j1 : J s1.current = rw prep.current j in
      let obs = b (with_id id r) (server (carrying id)) s1 (carrying-IsFresh id) j1 in
      let (response, shape) = Acts-server (carrying id) refl obs.acts in
      let same : response_of obs.w' ≡ response = ap response_of shape in
      let left : List (RoundTripper × Request) → Response → Footprint = (λ l x. record {
        route = obs.route;
        before = carrying id;
        after = x;
        earlier = l;
        later = obs.s'.forwarded;
        current = obs.s'.current;
      }) in
      let carried : Carries id (response_of obs.w') =
        Acts-Carries id obs.acts (carrying-Carries id) in
      let code : or_ok (sent obs.w') ≡ or_ok response.status =
        ap (λ (x : Response). or_ok x.status) same in
      record {
        response = response;
        s' = obs.s';
        id = id;
        route = obs.route;
        entry = obs.entry;
        ends = obs.ends ∙ ap (λ v. some (v, obs.s')) shape;
        identified = is_id;
        returned = Carries-delivered id response (subst (Carries id) same carried);
        keeps = obs.keeps;
        ready = obs.ready ∙ prep.ready;
        logged = obs.logged ∙ ap (λ t. obs.entry ∷ t) prep.access_log;
        entry_method = obs.describes.method;
        entry_path = obs.describes.path;
        entry_status = obs.describes.status_sent ∙ code;
        routed =
            subst (λ c. Q (record (inbound r) { id = id }) c (left s.forwarded response))
              prep.current
              (subst (λ l. Q (record (inbound r) { id = id }) s1.current (left l response))
                prep.forwarded
                (subst
                  (λ v.
                    Q (record (inbound r) { id = id }) s1.current
                      (left s1.forwarded (response_of v)))
                  shape obs.marks));
        entry_route = obs.describes.route_stamped;
        entry_id = obs.describes.correlation_id;
        counts =
            counts (or_ok response.status) (record (r.context) { correlation_id = some id }) r s s1
              obs.s' obs.route prep
              (subst (λ n. Counting has_metrics (with_id id r) n obs.route s1 obs.s') code
                obs.counts);
        spanned =
            Spanned-moved env has_tracer r (record (r.context) { correlation_id = some id })
              (or_ok response.status) obs.route s s1 obs.s' prep.spans
              (subst (λ n. Spanned env has_tracer (with_id id r) n obs.route s1 obs.s') code
                obs.spanned);
      }
