-- ===== src/Tests/Goroutines.antt =====
-- The goroutines of a sample run: the listener fails and a signal comes before `run` is ready.
use decision_gateway.Prelude.{◌≤◌, ◌≡◌, refl, ◌↔◌, ◌⊎◌, true, none, some, [], ◌∷◌, arith, text}
use decision_gateway.World.{Handler}
use decision_gateway.Api.Health.{healthz, mark_ready, mark_not_ready}
use decision_gateway.Cmd.Compose.{held, handler}
use decision_gateway.Cmd.Run.{at, serving, server_failure}
use decision_gateway.Cmd.Run.Goroutines.{
  listen_error, server_result, sent, Goroutines, capacity, launch, signal, listen_and_serve, send,
  wake, ready, done, receive, unready, shut_down, give_up, Ticks, begin, tick, gave, selecting,
  ended, listening, accept, answer,
}
use decision_gateway.Cmd.Run.Goroutines.Refinement.{process_of, Mirrors, Comes, goroutines_refine}
use decision_gateway.Cmd.Run.Goroutines.Waiting.{stages_left, MovesOn, Waits, Returns, run_waits}
use decision_gateway.Writer.{server}
use decision_gateway.Pipeline.Identified.{Served}
use decision_gateway.Cmd.Compose.Serving.{Expects, Routed}
use decision_gateway.Cmd.Run.Lifecycle.{run_serves}
use decision_gateway.Tests.Table.{env-IsRandom}
use decision_gateway.Tests.Sample.{env, options, sdk, world, get_request}
use decision_gateway.Tests.Serving.{redirect, booted, boots, outside, opened, env-IsSteady}

abbrev front : Handler
front = handler env healthz redirect options held

goroutines_refine_example :
    ((c : Goroutines) × (process_of c ≡ at serving (mark_ready booted)) × Comes front booted [] c)
    ↔ Mirrors front booted [] (at serving (mark_ready booted))
goroutines_refine_example = goroutines_refine front booted [] (at serving (mark_ready booted))

-- The error waits in the channel.
abbrev failed : Goroutines
failed = record {
  stage = selecting;
  server = sent;
  server_err = some (text "in use") ∷ [];
  is_done = true;
  in_flight = [];
  world = mark_ready booted;
}

failing : Ticks front booted failed
unfolding server_result launch
failing =
    tick
      (tick
        (tick
          (tick (tick begin (listen_and_serve (some (listen_error (text "in use"))) refl))
            (send (some (text "in use")) refl (omega arith)))
          (wake refl))
        (ready refl))
      signal

-- The select may take either branch: `run` returns the error, or none.
abbrev errored : Goroutines
errored = record failed {
  stage = ended (server_failure (some (text "in use")));
  server_err = [];
  world = mark_not_ready (mark_ready booted);
}

received_error : Ticks front booted errored
received_error = tick (tick failing (receive (some (text "in use")) [] refl refl)) (give_up _ refl)

abbrev quit : Goroutines
quit = record failed { stage = ended none; world = mark_not_ready (mark_ready booted) }

took_signal : Ticks front booted quit
took_signal = tick (tick (tick failing (done refl refl)) (unready refl)) (shut_down refl refl)

run_waits_example :
    (1 ≤ capacity)
    × ((stages_left selecting ≡ 0) ⊎ (MovesOn front failed ⊎ Waits failed))
    × Returns selecting (gave failing) true
run_waits_example = run_waits front booted failed failing

-- A request that comes before the signal is served before Shutdown returns.
answered :
    Served env true true
      (Expects held)
      (Routed env options held)
      front
      (get_request (text "/api/x"))
      (mark_ready booted)
answered =
    run_serves env sdk options world held booted healthz redirect (at serving (mark_ready booted))
      refl boots env-IsRandom env-IsSteady outside opened (get_request (text "/api/x"))

abbrev over : Goroutines
over = record {
  stage = ended none;
  server = listening;
  server_err = [];
  is_done = true;
  in_flight = [];
  world = mark_not_ready answered.s';
}

draining : Ticks front booted over
unfolding launch mark_ready mark_not_ready
draining =
    tick
      (tick
        (tick
          (tick
            (tick
              (tick (tick (tick begin (wake refl)) (ready refl))
                (accept (get_request (text "/api/x")) refl))
              signal)
            (done refl refl))
          (answer [] [] (get_request (text "/api/x")) (server answered.response) refl
            answered.ends))
        (unready refl))
      (shut_down refl refl)
