-- ===== src/Writer/Acts.antt =====
-- What a handler may do to the writer that it is given: the interface's operations, in any order.
use decision_gateway.Prelude.{ℕ, ◌≡◌, ap, inl, inr, true, arith, if◌then◌else◌, Bool-cases, Text}
use decision_gateway.Net.Headers.{Headers, get, has}
use decision_gateway.Middleware.Names.{correlation_id_header}
use decision_gateway.Net.Http.{Response, response_write_header, response_write}
use decision_gateway.Writer.{
  Writer, StatusRecorder, MetricsWriter, SpanWriter, server, server, recorder, meter, tracer,
  write_header, write, set_matched_route, edit_header,
}
use decision_gateway.Writer.Agreement.{
  Agrees, Filters, write_header-Agrees, write-Agrees, set_matched_route-Agrees, edit_header-Agrees,
}
use decision_gateway.Writer.Routes.{
  Stamped, set_matched_route-Stamped, write_header-Stamped, write-Stamped, edit_header-Stamped,
}

-- A change of the response header that leaves a correlation ID as it is.
abbrev pub KeepsId : (Headers → Headers) → Type 0
KeepsId f =
    (h : Headers)
    → has correlation_id_header h ≡ true
    → (has correlation_id_header (f h) ≡ true)
      × (get correlation_id_header (f h) ≡ get correlation_id_header h)

pub data Acts : Writer → Writer → Type 0 where
  done : {w : Writer} → Acts w w
  status : {w w' : Writer} (code : ℕ) → Acts (write_header code w) w' → Acts w w'
  body : {w w' : Writer} (b : Text) → Acts (write b w) w' → Acts w w'
  route : {w w' : Writer} (p : Text) → Acts (set_matched_route p w) w' → Acts w w'
  header :
      {w w' : Writer} (f : Headers → Headers) → KeepsId f → Acts (edit_header f w) w' → Acts w w'

pub Acts-trans : {u v w : Writer} → Acts u v → Acts v w → Acts u w
Acts-trans done b = b
Acts-trans (status code a) b = status code (Acts-trans a b)
Acts-trans (body t a) b = body t (Acts-trans a b)
Acts-trans (route p a) b = route p (Acts-trans a b)
Acts-trans (header f k a) b = header f k (Acts-trans a b)

Filters-kept :
    (w : Writer)
    → Filters w
    → ((code : ℕ) → Filters (write_header code w))
      × ((b : Text) → Filters (write b w))
      × ((p : Text) → Filters (set_matched_route p w))
      × ((f : Headers → Headers) → Filters (edit_header f w))
unfolding write_header write set_matched_route edit_header
Filters-kept (server r) h = absurd h
Filters-kept (tracer s w) h = absurd h
Filters-kept (recorder s w) h = (λ code. ground arith, λ b. tt, λ p. tt, λ f. tt)
Filters-kept (meter s w) h = (λ code. ground arith, λ b. tt, λ p. tt, λ f. tt)

-- A writer whose outermost layer filters, and whose layers all hold the status that the client
-- gets, is still such a writer after any calls of its methods.
pub Acts-Agrees : {w w' : Writer} → Acts w w' → Filters w → Agrees w → Filters w' × Agrees w'
Acts-Agrees done f a = (f, a)
Acts-Agrees {w} (status code r) f a =
    Acts-Agrees r ((Filters-kept w f).0 code) (write_header-Agrees code w f a)
Acts-Agrees {w} (body b r) f a = Acts-Agrees r ((Filters-kept w f).1 b) (write-Agrees b w a).0
Acts-Agrees {w} (route p r) f a =
    Acts-Agrees r ((Filters-kept w f).2 p) (set_matched_route-Agrees p w a)
Acts-Agrees {w} (header g k r) f a =
    Acts-Agrees r ((Filters-kept w f).3 g) (edit_header-Agrees g w a)

-- The route that was stamped last, or `p` where none was.
abbrev pub last_route : {w w' : Writer} → Text → Acts w w' → Text
last_route p done = p
last_route p (status code r) = last_route p r
last_route p (body b r) = last_route p r
last_route p (route q r) = last_route q r
last_route p (header f k r) = last_route p r

-- Calls that stamp no route.
abbrev pub Answers : Writer → Writer → Type 0
Answers w w' = (a : Acts w w') × ((p : Text) → last_route p a ≡ p)

-- When every layer out to the span writer holds one route, then after any calls of the writer's
-- methods every such layer holds the route that was stamped last, or that one if none was.
pub Acts-Stamped :
    {w w' : Writer} (p : Text) (a : Acts w w') → Stamped p w → Stamped (last_route p a) w'
Acts-Stamped p done h = h
Acts-Stamped {w} p (status code r) h = Acts-Stamped p r (write_header-Stamped p code w h)
Acts-Stamped {w} p (body b r) h = Acts-Stamped p r (write-Stamped p b w h)
Acts-Stamped {w} p (route q r) h = Acts-Stamped q r (set_matched_route-Stamped q w)
Acts-Stamped {w} p (header f k r) h = Acts-Stamped p r (edit_header-Stamped p f w h)

-- The layer that a handler was given is still outermost, and below it the operations are again
-- those of the interface.
pub Acts-recorder :
    {v w' : Writer} (s : StatusRecorder) (w : Writer)
    → v ≡ recorder s w
    → Acts v w'
    → (s' : StatusRecorder) × (x : Writer) × (w' ≡ recorder s' x) × Acts w x
unfolding write_header write set_matched_route edit_header
Acts-recorder s w e done = (s, w, e, done)
Acts-recorder {v} s w e (status code r) = elim (Bool-cases s.wrote_header) [
  | inl wrote ↦ Acts-recorder s w (ground arith) r
  | inr fresh ↦
      let (s', x, same, acts) =
        Acts-recorder (record s { wrote_header = true; status = code }) (write_header code w)
          (ground arith) r in
      (s', x, same, status code acts)
]
Acts-recorder s w e (body b r) =
    let s1 : StatusRecorder = if s.wrote_header then s else record s { wrote_header = true } in
    let (s', x, same, acts) = Acts-recorder s1 (write b w) (ap (write b) e) r in
    (s', x, same, body b acts)
Acts-recorder s w e (route p r) =
    let (s', x, same, acts) =
      Acts-recorder (record s { route = p }) (set_matched_route p w) (ap (set_matched_route p) e)
        r in
    (s', x, same, route p acts)
Acts-recorder s w e (header f k r) =
    let (s', x, same, acts) = Acts-recorder s (edit_header f w) (ap (edit_header f) e) r in
    (s', x, same, header f k acts)

pub Acts-meter :
    {v w' : Writer} (s : MetricsWriter) (w : Writer)
    → v ≡ meter s w
    → Acts v w'
    → (s' : MetricsWriter) × (x : Writer) × (w' ≡ meter s' x) × Acts w x
unfolding write_header write set_matched_route edit_header
Acts-meter s w e done = (s, w, e, done)
Acts-meter {v} s w e (status code r) = elim (Bool-cases s.wrote_header) [
  | inl wrote ↦ Acts-meter s w (ground arith) r
  | inr fresh ↦
      let (s', x, same, acts) =
        Acts-meter (record s { wrote_header = true; status = code }) (write_header code w)
          (ground arith) r in
      (s', x, same, status code acts)
]
Acts-meter s w e (body b r) =
    let s1 : MetricsWriter = if s.wrote_header then s else record s { wrote_header = true } in
    let (s', x, same, acts) = Acts-meter s1 (write b w) (ap (write b) e) r in
    (s', x, same, body b acts)
Acts-meter s w e (route p r) =
    let (s', x, same, acts) =
      Acts-meter (record s { route = p }) (set_matched_route p w) (ap (set_matched_route p) e) r in
    (s', x, same, route p acts)
Acts-meter s w e (header f k r) =
    let (s', x, same, acts) = Acts-meter s (edit_header f w) (ap (edit_header f) e) r in
    (s', x, same, header f k acts)

pub Acts-tracer :
    {v w' : Writer} (s : SpanWriter) (w : Writer)
    → v ≡ tracer s w
    → Acts v w'
    → (s' : SpanWriter) × (x : Writer) × (w' ≡ tracer s' x) × Acts w x
unfolding write_header write set_matched_route edit_header
Acts-tracer s w e done = (s, w, e, done)
Acts-tracer s w e (status code r) =
    let (s', x, same, acts) =
      Acts-tracer (record s { status = code }) (write_header code w) (ap (write_header code) e) r in
    (s', x, same, status code acts)
Acts-tracer s w e (body b r) =
    let (s', x, same, acts) = Acts-tracer s (write b w) (ap (write b) e) r in
    (s', x, same, body b acts)
Acts-tracer s w e (route p r) =
    Acts-tracer (record s { matched_route = p }) w (ap (set_matched_route p) e) r
Acts-tracer s w e (header f k r) =
    let (s', x, same, acts) = Acts-tracer s (edit_header f w) (ap (edit_header f) e) r in
    (s', x, same, header f k acts)

pub Acts-server :
    {v w' : Writer} (r : Response) → v ≡ server r → Acts v w' → (r' : Response) × (w' ≡ server r')
unfolding write_header write set_matched_route edit_header
Acts-server r e done = (r, e)
Acts-server r e (status code a) =
    Acts-server (response_write_header code r) (ap (write_header code) e) a
Acts-server r e (body b a) = Acts-server (response_write b r) (ap (write b) e) a
Acts-server r e (route p a) = Acts-server r (ap (set_matched_route p) e) a
Acts-server r e (header f k a) =
    Acts-server (record r { header = f r.header }) (ap (edit_header f) e) a
