-- ===== src/Handlers.antt =====
-- What the handlers below the middlewares promise: they return, do nothing to the writer but what
-- its interface offers, and leave alone the records that the middlewares keep.
pub mod Answers
pub mod Proxying
pub mod Quiet
pub mod Table
pub mod Network
pub mod Reload
pub mod Selection
pub mod Outbound
pub mod Sending
pub mod Relaying
pub mod Aborting
pub mod Hops
pub mod Relisting
use decision_gateway.Prelude.{◌≡◌, refl, ◌∙◌, Option, none, some, List, [], ◌++◌, All, Text, text}
use decision_gateway.Net.Url.{Url}
use decision_gateway.Net.Headers.{Headers}
use decision_gateway.Net.Http.{Request, Response}
use decision_gateway.Middleware.CorrelationId.{id_from_context}
use decision_gateway.Proxy.Transport.{RoundTripper}
use decision_gateway.Writer.{Writer, response_of}
use decision_gateway.Writer.Agreement.{Agrees, sent}
use decision_gateway.Writer.Acts.{Acts, last_route}
use decision_gateway.World.{World, Span, Handler}
use decision_gateway.Proxy.Build

-- The spans after are those before and, the latest first, spans of calls of backends.
abbrev pub AddsUpstream : List Span → List Span → Type 0
AddsUpstream before after =
    (below : List Span) × (after ≡ below ++ before)
    × All (λ (span : Span). span.name ≡ text "gateway.proxy.upstream") below

-- The parts of the state that only middlewares, or only the process, change.
pub record Frame (s s' : World) : Type 0 where
  pub access_log : s'.access_log ≡ s.access_log
  pub counted : s'.counted ≡ s.counted
  pub observed : s'.observed ≡ s.observed
  pub ready : s'.ready ≡ s.ready
  pub upstream : AddsUpstream s.spans s'.spans

pub Frame-refl : (s : World) → Frame s s
Frame-refl s = record {
  access_log = refl;
  counted = refl;
  observed = refl;
  ready = refl;
  upstream = ([], refl, tt);
}

-- What one request leaves behind, but for the middlewares' records: the route that was stamped, the
-- response before and after, what the network was sent before and after, and the current handler of
-- the Holder after.
pub record Footprint : Type 0 where
  pub route : Text
  pub before : Response
  pub after : Response
  pub earlier : List (RoundTripper × Request)
  pub later : List (RoundTripper × Request)
  pub current : Option Build.Handler

abbrev pub footprint : Text → Writer → Writer → World → World → Footprint
footprint p w w' s s' = record {
  route = p;
  before = response_of w;
  after = response_of w';
  earlier = s.forwarded;
  later = s'.forwarded;
  current = s'.current;
}

-- What the handlers below the middlewares read of a request; `id` is the correlation ID in its
-- context.
pub record Inbound : Type 0 where
  pub method : Text
  pub url : Url
  pub host : Text
  pub header : Headers
  pub body : Text
  pub id : Text

abbrev pub inbound : Request → Inbound
inbound r = record {
  method = r.method;
  url = r.url;
  host = r.host;
  header = r.header;
  body = r.body;
  id = id_from_context r.context;
}

-- What the footprint of a request must satisfy, by the request and the current handler of the
-- Holder before.
abbrev pub Marking : Type 1
Marking = Inbound → Option Build.Handler → Footprint → Type 0

-- No route is stamped and nothing is sent.
abbrev pub Unmarked : Marking
Unmarked x current f = (f.route ≡ []) × (f.later ≡ f.earlier)

-- And the table stays in place.
abbrev pub Untouched : Marking
Untouched x current f = Unmarked x current f × (f.current ≡ current)

-- No status was sent through the writer yet, and its layers agree.
abbrev pub IsOpen : Writer → Type 0
IsOpen w = (sent w ≡ none) × Agrees w

pub record Behaved (J : Option Build.Handler → Type 0) (Q : Marking) (h : Handler) (r : Request)
    (w : Writer) (s : World) : Type 0 where
  pub w' : Writer
  pub s' : World
  pub ends : h r w s ≡ some (w', s')
  pub acts : Acts w w'
  pub marks : IsOpen w → Q (inbound r) s.current (footprint (last_route [] acts) w w' s s')
  pub keeps : J s'.current
  pub frame : Frame s s'

-- `J` is what the current handler of the Holder satisfies.
abbrev pub Behaves : (Option Build.Handler → Type 0) → Marking → Handler → Type 0
Behaves J Q h = (r : Request) (w : Writer) (s : World) → J s.current → Behaved J Q h r w s

module _ {J : Option Build.Handler → Type 0} {h k : Handler} {r : Request} {w : Writer}
    {s : World} where
  -- A handler that hands its request on behaves as the other does.
  pub hands_on : {Q : Marking} → h r w s ≡ k r w s → Behaved J Q k r w s → Behaved J Q h r w s
  hands_on e b = record {
    w' = b.w';
    s' = b.s';
    ends = e ∙ b.ends;
    acts = b.acts;
    marks = b.marks;
    keeps = b.keeps;
    frame = b.frame;
  }

-- A weaker marking.
pub Behaved-marks :
    {J : Option Build.Handler → Type 0} {Q R : Marking} {h : Handler} {r : Request} {w : Writer}
    {s : World}
    → ((f : Footprint) → Q (inbound r) s.current f → R (inbound r) s.current f)
    → Behaved J Q h r w s
    → Behaved J R h r w s
Behaved-marks {w} {s} f b = record {
  w' = b.w';
  s' = b.s';
  ends = b.ends;
  acts = b.acts;
  marks = λ unsent. f (footprint (last_route [] b.acts) w b.w' s b.s') (b.marks unsent);
  keeps = b.keeps;
  frame = b.frame;
}
