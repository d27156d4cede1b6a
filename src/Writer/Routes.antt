-- ===== src/Writer/Routes.antt =====
-- The route that the status writers hold.
use decision_gateway.Prelude.{ℕ, ◌≡◌, refl, arith, Text}
use decision_gateway.Net.Headers.{Headers}
use decision_gateway.Writer.{
  Writer, server, recorder, meter, tracer, write_header, write, set_matched_route, edit_header,
}

-- Every layer from the outside in, up to the first span writer, holds the route.
abbrev pub Stamped : Text → Writer → Type 0
Stamped p (server r) = Unit
Stamped p (recorder s w) = (s.route ≡ p) × Stamped p w
Stamped p (meter s w) = (s.route ≡ p) × Stamped p w
Stamped p (tracer s w) = s.matched_route ≡ p

pub set_matched_route-Stamped : (p : Text) (w : Writer) → Stamped p (set_matched_route p w)
unfolding set_matched_route
set_matched_route-Stamped p (server r) = tt
set_matched_route-Stamped p (recorder s w) = (refl, set_matched_route-Stamped p w)
set_matched_route-Stamped p (meter s w) = (refl, set_matched_route-Stamped p w)
set_matched_route-Stamped p (tracer s w) = refl

pub write_header-Stamped :
    (p : Text) (code : ℕ) (w : Writer) → Stamped p w → Stamped p (write_header code w)
unfolding write_header
write_header-Stamped p code (server r) h = tt
write_header-Stamped p code (recorder s w) h = ground (arith, write_header-Stamped p code w h.1)
write_header-Stamped p code (meter s w) h = ground (arith, write_header-Stamped p code w h.1)
write_header-Stamped p code (tracer s w) h = h

pub write-Stamped : (p b : Text) (w : Writer) → Stamped p w → Stamped p (write b w)
unfolding write
write-Stamped p b (server r) h = tt
write-Stamped p b (recorder s w) h = ground (arith, write-Stamped p b w h.1)
write-Stamped p b (meter s w) h = ground (arith, write-Stamped p b w h.1)
write-Stamped p b (tracer s w) h = h

pub edit_header-Stamped :
    (p : Text) (f : Headers → Headers) (w : Writer) → Stamped p w → Stamped p (edit_header f w)
unfolding edit_header
edit_header-Stamped p f (server r) h = tt
edit_header-Stamped p f (recorder s w) h = (h.0, edit_header-Stamped p f w h.1)
edit_header-Stamped p f (meter s w) h = (h.0, edit_header-Stamped p f w h.1)
edit_header-Stamped p f (tracer s w) h = h
