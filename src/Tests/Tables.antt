-- ===== src/Tests/Tables.antt =====
-- The goroutines of a sample run: a client probes, another posts a table.
use decision_gateway.Prelude.{◌≡◌, refl, true, false, some, List, [], Text, text, ok}
use decision_gateway.Net.Http.{Response, fresh_response}
use decision_gateway.Writer.{server}
use decision_gateway.World.{Handler}
use decision_gateway.Gateway.{Route, Router, new_router, match}
use decision_gateway.Api.Health.{healthz, mark_ready, is_ready, readyz}
use decision_gateway.Pipeline.Identified.{Served}
use decision_gateway.Cmd.Flags.Parsing.{AllName}
use decision_gateway.Cmd.Compose.{held, handler}
use decision_gateway.Cmd.Compose.Serving.{Expects, Routed, front_match}
use decision_gateway.Cmd.Run.Tables.{table_after}
use decision_gateway.Cmd.Run.Goroutines.{
  Goroutines, listening, selecting, launch, wake, ready, accept, answer, Ticks, begin, tick, served,
}
use decision_gateway.Cmd.Run.Goroutines.Serving.{
  goroutines_serve, goroutines_probe, goroutines_route,
}
use decision_gateway.Tests.Sample.{sdk, env, world, options, get_request}
use decision_gateway.Tests.Table.{env-IsRandom}
use decision_gateway.Tests.Reload.{post_request}
use decision_gateway.Tests.Serving.{redirect, outside, env-IsSteady, booted, boots}

abbrev front : Handler
front = handler env healthz redirect options held

-- `run` waits in its select.
abbrev waiting : Goroutines
waiting = record {
  stage = selecting;
  server = listening;
  server_err = [];
  is_done = false;
  in_flight = [];
  world = mark_ready booted;
}

up : Ticks front booted waiting
unfolding launch
up = tick (tick begin (wake refl)) (ready refl)

goroutines_probe_example :
    ((mark_ready booted).ready ≡ 1)
    × ((response : Response) × (readyz is_ready
            (get_request (text "/readyz"))
            (server fresh_response)
            (mark_ready booted)
          ≡ some (server response, mark_ready booted))
        × (response.status ≡ some 200))
goroutines_probe_example =
    goroutines_probe env sdk options world held booted healthz redirect waiting refl boots
      env-IsRandom env-IsSteady outside up (get_request (text "/readyz")) refl

-- The answer to a POST of a table.
posted :
    Served env true true
      (Expects held)
      (Routed env options held)
      front
      post_request
      (mark_ready booted)
posted =
    goroutines_serve env sdk options world held booted healthz redirect waiting refl boots
      env-IsRandom env-IsSteady outside up post_request

abbrev reloaded : Goroutines
reloaded = record waiting { world = posted.s' }

reloading : Ticks front booted reloaded
reloading =
    tick (tick up (accept post_request refl))
      (answer [] [] post_request (server posted.response) refl posted.ends)

goroutines_route_example :
    (rs : List Route) × (router : Router) × AllName env options.route rs
    × (new_router rs ≡ ok router)
    × ((path : Text)
        → front_match held posted.s'.current path
          ≡ match (table_after env options router (served reloading)) path)
goroutines_route_example =
    goroutines_route env sdk options world held booted healthz redirect reloaded refl boots
      env-IsRandom env-IsSteady outside reloading
