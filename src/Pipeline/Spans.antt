-- ===== src/Pipeline/Spans.antt =====
-- internal/observability/otel/middleware.go: what a request span tells.
use mathlib.Core.Path.{ap₂}
use decision_gateway.Prelude.{
  ℕ, ◌/◌, ◌≡◌, refl, ap, ◌∙◌, Bool, true, false, Option, none, some, List, [], ◌∷◌, leb,
  if◌then◌else◌, Text, text,
}
use decision_gateway.Net.Http.{Request, SpanContext}
use decision_gateway.Writer.{SpanWriter}
use decision_gateway.World.{World, Env, Span, Attribute, string_attr, int_attr, duration_attr}
use decision_gateway.Handlers.{AddsUpstream}
use decision_gateway.Otel.Trace.{request_span, route_attribute}

-- The route's attribute, for a request that matched one.
abbrev pub route_attributes : Text → List Attribute
route_attributes [] = []
route_attributes (c ∷ route) = string_attr (text "http.route") (c ∷ route) ∷ []

-- A request span that tells the method, the path, the status that the client gets and the route
-- that was stamped, and is an error exactly from status 500 on.
pub record IsRequestSpan (env : Env) (r : Request) (status : ℕ) (route : Text) (span : Span)
    : Type 0 where
  pub duration : ℕ
  pub named : span.name ≡ text "gateway.request"
  pub attributes :
      span.attributes
      ≡ string_attr (text "http.method") r.method
        ∷ string_attr (text "http.target") r.url.path
        ∷ int_attr (text "http.status_code") status
        ∷ duration_attr (text "gateway.duration_ms") duration
        ∷ route_attributes route
  pub error : span.error ≡ (if leb 500 status then some (env.status_text status) else none)

-- One request span more, after those of calls of backends, or no request span more where tracing
-- is off; the spans before stay.
abbrev pub Spanned : Env → Bool → Request → ℕ → Text → World → World → Type 0
Spanned env false r status route s s' = AddsUpstream s.spans s'.spans
Spanned env true r status route s s' =
    (span : Span) × (older : List Span) × (s'.spans ≡ span ∷ older)
    × AddsUpstream s.spans older
    × IsRequestSpan env r status route span

route_attribute-eq : (route : Text) → route_attribute route ≡ route_attributes route
unfolding route_attribute
route_attribute-eq [] = refl
route_attribute-eq (c ∷ route) = refl

pub request_span-IsRequestSpan :
    (env : Env) (r : Request) (parent : Option SpanContext) (c : SpanContext) (sw : SpanWriter)
    (duration status : ℕ) (route : Text)
    → sw.status ≡ status
    → sw.matched_route ≡ route
    → IsRequestSpan env r status route (request_span env r parent c sw duration)
unfolding request_span
request_span-IsRequestSpan env r parent c sw duration status route p q = record {
  duration = duration / 1000;
  named = refl;
  attributes =
      ap
        (λ l.
          string_attr (text "http.method") r.method
          ∷ string_attr (text "http.target") r.url.path
          ∷ l)
        (ap₂
          (λ (n : ℕ) l.
            int_attr (text "http.status_code") n
            ∷ duration_attr (text "gateway.duration_ms") (duration / 1000)
            ∷ l)
          p (ap route_attribute q ∙ route_attribute-eq route));
  error = rw p refl;
}
