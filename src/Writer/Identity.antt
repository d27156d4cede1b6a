-- ===== src/Writer/Identity.antt =====
-- The correlation ID in the response header, under the calls of a handler.
use decision_gateway.Prelude.{
  ℕ, ◌≡◌, refl, ◌∙◌, ◌⊎◌, inl, inr, true, arith, if◌then◌else◌, Bool-cases, Text,
}
use decision_gateway.Net.Headers.{Headers, get, has}
use decision_gateway.Net.Http.{Response, is_set, response_write_header, response_write}
use decision_gateway.Middleware.Names.{correlation_id_header}
use decision_gateway.Writer.{
  Writer, server, recorder, meter, tracer, write_header, write, response_of,
}
use decision_gateway.Writer.Agreement.{response_of-set_matched_route, response_of-edit_header}
use decision_gateway.Writer.Acts.{Acts, done, status, body, route, header}

-- The header that the client gets.
abbrev pub delivered : Response → Headers
delivered r = if is_set r.status then r.sent_header else r.header

-- The response has the ID, in the map that can still change and in what went out.
pub record Carries (id : Text) (r : Response) : Type 0 where
  pub present : has correlation_id_header r.header ≡ true
  pub pending : get correlation_id_header r.header ≡ id
  pub gone : is_set r.status ≡ true → get correlation_id_header r.sent_header ≡ id

pub Carries-delivered :
    (id : Text) (r : Response) → Carries id r → get correlation_id_header (delivered r) ≡ id
Carries-delivered id r c = elim (Bool-cases (is_set r.status)) [
  | inl old ↦ rw old (c.gone old)
  | inr new ↦ rw new c.pending
]

response_write_header-Carries :
    (id : Text) (code : ℕ) (r : Response) → Carries id r → Carries id (response_write_header code r)
unfolding response_write_header
response_write_header-Carries id code r c = elim (Bool-cases (is_set r.status)) [
  | inl old ↦ rw (old, response_write_header) c
  | inr new ↦
      rw (new, response_write_header)
        (record { present = c.present; pending = c.pending; gone = λ _. c.pending })
]

response_write-Carries :
    (id b : Text) (r : Response) → Carries id r → Carries id (response_write b r)
unfolding response_write
response_write-Carries id b r c =
    let d = response_write_header-Carries id 200 r c in
    record { present = d.present; pending = d.pending; gone = d.gone }

write_header-server :
    (code : ℕ) (w : Writer)
    → (response_of (write_header code w) ≡ response_of w)
      ⊎ (response_of (write_header code w) ≡ response_write_header code (response_of w))
unfolding write_header response_of
write_header-server code (server r) = inr refl
write_header-server code (recorder s w) = ground (arith, write_header-server code w)
write_header-server code (meter s w) = ground (arith, write_header-server code w)
write_header-server code (tracer s w) = write_header-server code w

response_of-write :
    (b : Text) (w : Writer) → response_of (write b w) ≡ response_write b (response_of w)
unfolding write response_of
response_of-write b (server r) = refl
response_of-write b (recorder s w) = response_of-write b w
response_of-write b (meter s w) = response_of-write b w
response_of-write b (tracer s w) = response_of-write b w

-- A response that carries a correlation ID, in its header map and in what went out, still carries it
-- after any calls of the writer's methods whose header changes leave the ID alone.
pub Acts-Carries :
    {w w' : Writer} (id : Text)
    → Acts w w'
    → Carries id (response_of w)
    → Carries id (response_of w')
Acts-Carries id done c = c
Acts-Carries {w} id (status code r) c = Acts-Carries id r (elim (write_header-server code w) [
  | inl same ↦ rw same c
  | inr passed ↦ rw passed (response_write_header-Carries id code (response_of w) c)
])
Acts-Carries {w} id (body b r) c =
    Acts-Carries id r (rw (response_of-write b w) (response_write-Carries id b (response_of w) c))
Acts-Carries {w} id (route p r) c = Acts-Carries id r (rw (response_of-set_matched_route p w) c)
Acts-Carries {w} id (header f keeps r) c =
    let (present, same) = keeps (response_of w).header c.present in
    Acts-Carries id r (
      rw (response_of-edit_header f w)
        (record { present = present; pending = same ∙ c.pending; gone = c.gone }))
