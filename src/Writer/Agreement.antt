-- ===== src/Writer/Agreement.antt =====
-- The status writers' records against the status that the server sends.
use decision_gateway.Prelude.{ℕ, ◌≡◌, refl, inl, inr, Option, none, some, arith, Option-cases, Text}
use decision_gateway.Net.Headers.{Headers}
use decision_gateway.Net.Http.{or_ok, is_set}
use decision_gateway.Writer.{
  Writer, server, recorder, meter, tracer, write_header, write, set_matched_route, edit_header,
  response_of,
}

-- The status that the server has sent, if it has.
abbrev pub sent : Writer → Option ℕ
sent w = (response_of w).status

-- Every layer holds the status that the client gets, and a layer that filters calls knows whether
-- a status was sent.
abbrev pub Agrees : Writer → Type 0
Agrees (server r) = Unit
Agrees (recorder s w) = (s.wrote_header ≡ is_set (sent w)) × (s.status ≡ or_ok (sent w)) × Agrees w
Agrees (meter s w) = (s.wrote_header ≡ is_set (sent w)) × (s.status ≡ or_ok (sent w)) × Agrees w
Agrees (tracer s w) = (s.status ≡ or_ok (sent w)) × Agrees w

-- The outermost layer ignores a second status.
abbrev pub Filters : Writer → Type 0
Filters (recorder s w) = Unit
Filters (meter s w) = Unit
Filters _ = ⊥

-- The first status goes through every layer.
pub first_status :
    (code : ℕ) (w : Writer)
    → Agrees w
    → sent w ≡ none
    → Agrees (write_header code w) × (sent (write_header code w) ≡ some code)
unfolding write_header response_of
first_status code (server r) a h = (tt, ground arith)
first_status code (recorder s w) a h = ground (arith, first_status code w a.2 h)
first_status code (meter s w) a h = ground (arith, first_status code w a.2 h)
first_status code (tracer s w) a h = ground (arith, first_status code w a.1 h)

-- A later one is ignored by the outermost layer.
later_status :
    (code c : ℕ) (w : Writer) → Filters w → Agrees w → sent w ≡ some c → write_header code w ≡ w
unfolding write_header response_of
later_status code c (recorder s w) f a h = ground arith
later_status code c (meter s w) f a h = ground arith
later_status code c (server r) f a h = absurd f
later_status code c (tracer s w) f a h = absurd f

pub write_header-Agrees :
    (code : ℕ) (w : Writer) → Filters w → Agrees w → Agrees (write_header code w)
write_header-Agrees code w f a = elim (Option-cases (sent w)) [
  | inl fresh ↦ (first_status code w a fresh).0
  | inr (c, old) ↦ rw (later_status code c w f a old) a
]

-- A body settles the status.
pub write-Agrees :
    (b : Text) (w : Writer)
    → Agrees w
    → Agrees (write b w) × (sent (write b w) ≡ some (or_ok (sent w)))
unfolding write response_of
write-Agrees b (server r) a = (tt, ground arith)
write-Agrees b (recorder s w) a = ground (arith, write-Agrees b w a.2)
write-Agrees b (meter s w) a = ground (arith, write-Agrees b w a.2)
write-Agrees b (tracer s w) a = ground (arith, write-Agrees b w a.1)

pub response_of-set_matched_route :
    (p : Text) (w : Writer) → response_of (set_matched_route p w) ≡ response_of w
unfolding set_matched_route response_of
response_of-set_matched_route p (server r) = refl
response_of-set_matched_route p (recorder s w) = response_of-set_matched_route p w
response_of-set_matched_route p (meter s w) = response_of-set_matched_route p w
response_of-set_matched_route p (tracer s w) = refl

pub set_matched_route-Agrees : (p : Text) (w : Writer) → Agrees w → Agrees (set_matched_route p w)
unfolding set_matched_route response_of
set_matched_route-Agrees p (server r) a = tt
set_matched_route-Agrees p (recorder s w) a =
    ground (arith, response_of-set_matched_route p w, set_matched_route-Agrees p w a.2)
set_matched_route-Agrees p (meter s w) a =
    ground (arith, response_of-set_matched_route p w, set_matched_route-Agrees p w a.2)
set_matched_route-Agrees p (tracer s w) a = a

pub response_of-edit_header :
    (f : Headers → Headers) (w : Writer)
    → response_of (edit_header f w) ≡ record (response_of w) { header = f (response_of w).header }
unfolding edit_header response_of
response_of-edit_header f (server r) = refl
response_of-edit_header f (recorder s w) = response_of-edit_header f w
response_of-edit_header f (meter s w) = response_of-edit_header f w
response_of-edit_header f (tracer s w) = response_of-edit_header f w

pub edit_header-Agrees : (f : Headers → Headers) (w : Writer) → Agrees w → Agrees (edit_header f w)
unfolding edit_header response_of
edit_header-Agrees f (server r) a = tt
edit_header-Agrees f (recorder s w) a =
    ground (arith, response_of-edit_header f w, edit_header-Agrees f w a.2)
edit_header-Agrees f (meter s w) a =
    ground (arith, response_of-edit_header f w, edit_header-Agrees f w a.2)
edit_header-Agrees f (tracer s w) a =
    ground (arith, response_of-edit_header f w, edit_header-Agrees f w a.1)
