-- ===== src/Tests/Writers.antt =====
-- The writers of the middlewares.
use decision_gateway.Prelude.{◌≡◌, refl, false, some, [], ◌∷◌, Text, text}
use decision_gateway.Net.Http.{fresh_response, Response}
use decision_gateway.Middleware.Names.{correlation_id_header}
use decision_gateway.Writer.{
  Writer, server, recorder, meter, tracer, write_header, write, set_matched_route, response_of,
}

abbrev carrying : Response
carrying = record fresh_response { header = (correlation_id_header, text "id") ∷ [] }

abbrev stack : Writer
stack =
    recorder (record { status = 200; wrote_header = false; route = [] })
      (meter (record { status = 200; route = []; wrote_header = false })
        (tracer (record { status = 200; matched_route = [] }) (server carrying)))

abbrev after : Writer
after =
    write (text "hi") (write_header 500 (write_header 404 (set_matched_route (text "/api") stack)))

-- The route that the outermost layer holds.
abbrev route_of : Writer → Text
route_of (recorder r w) = r.route
route_of _ = []

first_kept : (response_of after).status ≡ some 404
unfolding response_of write write_header set_matched_route
first_kept = refl

first_route : route_of after ≡ text "/api"
unfolding write write_header set_matched_route
first_route = refl
