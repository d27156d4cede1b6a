-- ===== src/Writer/Responses.antt =====
-- The server's response under the status writers.
use decision_gateway.Prelude.{ℕ, ◌≡◌, refl, none, arith, Text}
use decision_gateway.Net.Http.{response_write_header, response_write}
use decision_gateway.Writer.{
  Writer, server, recorder, meter, tracer, write_header, write, response_of,
}
use decision_gateway.Writer.Agreement.{Agrees, sent}

-- The layers are transparent to the first status and to every body.
pub response_of-write_header :
    (code : ℕ) (w : Writer)
    → Agrees w
    → sent w ≡ none
    → response_of (write_header code w) ≡ response_write_header code (response_of w)
unfolding write_header response_of
response_of-write_header code (server r) a h = refl
response_of-write_header code (recorder s w) a h =
    ground (arith, response_of-write_header code w a.2 h)
response_of-write_header code (meter s w) a h =
    ground (arith, response_of-write_header code w a.2 h)
response_of-write_header code (tracer s w) a h = response_of-write_header code w a.1 h

pub response_of-write :
    (b : Text) (w : Writer) → response_of (write b w) ≡ response_write b (response_of w)
unfolding write response_of
response_of-write b (server r) = refl
response_of-write b (recorder s w) = response_of-write b w
response_of-write b (meter s w) = response_of-write b w
response_of-write b (tracer s w) = response_of-write b w
