-- ===== src/Pipeline.antt =====
-- The middlewares around the gateway's handlers, layer by layer.
pub mod Logged
pub mod Metered
pub mod Spans
pub mod Traced
pub mod Identified
use decision_gateway.Prelude.{ℕ, ◌≡◌, Bool, true, false, Option, none, some, [], ◌∷◌, Text, itoa}
use decision_gateway.Handlers.{AddsUpstream, Marking, footprint, inbound}
use decision_gateway.Net.Http.{Request, or_ok}
use decision_gateway.Writer.{Writer}
use decision_gateway.Writer.Acts.{Acts}
use decision_gateway.Writer.Agreement.{Agrees, sent}
use decision_gateway.Writer.Routes.{Stamped}
use decision_gateway.Middleware.CorrelationId.{id_from_context}
use decision_gateway.World.{World, AccessEntry, Labels, Handler}
use decision_gateway.Proxy.Build

-- A writer that no status was sent through, and whose layers agree.
pub record IsFresh (w : Writer) : Type 0 where
  pub unsent : sent w ≡ none
  pub agrees : Agrees w
  pub unstamped : Stamped [] w

-- An access entry for the request, with the status that the client gets, the route that was
-- stamped and the request's correlation ID.
pub record Describes (r : Request) (status : ℕ) (route : Text) (e : AccessEntry) : Type 0 where
  pub method : e.attrs.method ≡ r.method
  pub path : e.attrs.path ≡ r.url.path
  pub status_sent : e.attrs.status ≡ status
  pub route_stamped : e.attrs.route ≡ route
  pub correlation_id : e.attrs.correlation_id ≡ id_from_context r.context

-- A handler returned, the writer below it agrees on the status and the route, and the access log
-- has one new entry, which describes the request; `counted` holds of the counter.
pub record Reported (J : Option Build.Handler → Type 0) (Q : Marking)
    (Counted : Request → ℕ → Text → World → World → Type 0) (h : Handler) (r : Request) (w : Writer)
    (s : World) : Type 0 where
  pub w' : Writer
  pub s' : World
  pub route : Text
  pub entry : AccessEntry
  pub ends : h r w s ≡ some (w', s')
  pub acts : Acts w w'
  pub agrees : Agrees w'
  pub stamped : Stamped route w'
  pub marks : Q (inbound r) s.current (footprint route w w' s s')
  pub keeps : J s'.current
  pub ready : s'.ready ≡ s.ready
  pub logged : s'.access_log ≡ entry ∷ s.access_log
  pub describes : Describes r (or_ok (sent w')) route entry
  pub counts : Counted r (or_ok (sent w')) route s s'
  pub upstream : AddsUpstream s.spans s'.spans

abbrev pub Reports :
    (Option Build.Handler → Type 0)
    → Marking
    → (Request → ℕ → Text → World → World → Type 0)
    → Handler
    → Type 0
Reports J Q Counted h =
    (r : Request) (w : Writer) (s : World) → IsFresh w → J s.current → Reported J Q Counted h r w s

-- No metrics are kept.
abbrev pub Uncounted : Request → ℕ → Text → World → World → Type 0
Uncounted r status route s s' = (s'.counted ≡ s.counted) × (s'.observed ≡ s.observed)

-- One count and one observation, under the same labels, which tell the method, the route and the
-- status.
abbrev pub Counted : Request → ℕ → Text → World → World → Type 0
Counted r status route s s' =
    let labels : Labels = record { method = r.method; route = route; status = itoa status } in
    (s'.counted ≡ labels ∷ s.counted) × ((d : ℕ) × (s'.observed ≡ (labels, d) ∷ s.observed))

-- What the metrics keep, where they are on.
abbrev pub Counting : Bool → Request → ℕ → Text → World → World → Type 0
Counting false = Uncounted
Counting true = Counted
