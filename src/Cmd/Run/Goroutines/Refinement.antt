-- ===== src/Cmd/Run/Goroutines/Refinement.antt =====
-- cmd/decision-gateway/main.go: the goroutines of `run` against its phases.
use decision_gateway.Prelude.{
  ◌≡◌, refl, ap, subst, ◌↔◌, true, Option, none, some, List, [], ◌∷◌, arith, Text,
}
use decision_gateway.Net.Http.{Request}
use decision_gateway.World.{World, Handler}
use decision_gateway.Api.Health.{mark_ready, mark_not_ready}
use decision_gateway.Cmd.Run.{
  server_failure, Phase, starting, serving, draining, returned, Process, at, open_up, cancel,
  drained, fail, request, Runs, here, next,
}
use decision_gateway.Cmd.Run.Logging.{requests}
use decision_gateway.Cmd.Run.Goroutines.{
  ListenError, listen_error, server_result, listening, sending, sent, Stage, sleeping, awake,
  selecting, cancelled, received, shutting_down, ended, Goroutines, launch, signal,
  listen_and_serve, send, wake, ready, done, receive, unready, shut_down, give_up, accept, answer,
  time_out, accepts, Ticks, begin, tick, served,
}

-- The phase of a stage: it changes where the readiness flag does, and at the end.
abbrev pub phase_of : Stage → Phase
phase_of sleeping = starting
phase_of awake = starting
phase_of selecting = serving
phase_of cancelled = serving
phase_of (received v) = serving
phase_of shutting_down = draining
phase_of (ended e) = returned e

abbrev pub process_of : Goroutines → Process
process_of c = at (phase_of c.stage) c.world

module _ (h : Handler) (s : World) where
  -- A run of the phases to `q` with the requests `l`.
  abbrev pub Mirrors : List Request → Process → Type 0
  Mirrors l q = (rs : Runs h (at starting s) q) × (requests rs ≡ l)

  at_stage :
      {l : List Request} (c : Goroutines) (st : Stage)
      → c.stage ≡ st
      → Mirrors l (process_of c)
      → Mirrors l (at (phase_of st) c.world)
  at_stage {l} c st e m = subst (λ x. Mirrors l (at (phase_of x) c.world)) e m

  -- The steps of the goroutines are steps of the phases, or change no phase.
  pub Ticks-Mirrors : {c : Goroutines} (ts : Ticks h s c) → Mirrors (served ts) (process_of c)
  unfolding launch
  Ticks-Mirrors begin = (here, refl)
  Ticks-Mirrors (tick ts signal) = Ticks-Mirrors ts
  Ticks-Mirrors (tick ts (listen_and_serve r e)) = Ticks-Mirrors ts
  Ticks-Mirrors (tick ts (send v e room)) = Ticks-Mirrors ts
  Ticks-Mirrors (tick ts (wake {c} e)) = at_stage c sleeping e (Ticks-Mirrors ts)
  Ticks-Mirrors (tick ts (ready {c} e)) =
      let (rs, same) = at_stage c awake e (Ticks-Mirrors ts) in (next rs open_up, same)
  Ticks-Mirrors (tick ts (done {c} e is)) = at_stage c selecting e (Ticks-Mirrors ts)
  Ticks-Mirrors (tick ts (receive {c} v vs e e')) = at_stage c selecting e (Ticks-Mirrors ts)
  Ticks-Mirrors (tick ts (unready {c} e)) =
      let (rs, same) = at_stage c cancelled e (Ticks-Mirrors ts) in (next rs cancel, same)
  Ticks-Mirrors (tick ts (shut_down {c} e e')) =
      let (rs, same) = at_stage c shutting_down e (Ticks-Mirrors ts) in (next rs drained, same)
  Ticks-Mirrors (tick ts (time_out {c} e)) =
      let (rs, same) = at_stage c shutting_down e (Ticks-Mirrors ts) in (next rs drained, same)
  Ticks-Mirrors (tick ts (give_up {c} v e)) =
      let (rs, same) = at_stage c (received v) e (Ticks-Mirrors ts) in (next rs (fail v), same)
  Ticks-Mirrors (tick ts (accept r e)) = Ticks-Mirrors ts
  Ticks-Mirrors (tick ts (answer before after r w e' e)) =
      let (rs, same) = Ticks-Mirrors ts in (next rs (request r w e), ap (λ l. r ∷ l) same)

  -- A state of the goroutines in which `run` has not moved on within its phase.
  abbrev Rests : Phase → Goroutines → Type 0
  Rests starting c = (c.stage ≡ sleeping) × (c.server ≡ listening) × (c.server_err ≡ [])
  Rests serving c = (c.stage ≡ selecting) × (c.server ≡ listening) × (c.server_err ≡ [])
  Rests draining c = c.stage ≡ shutting_down
  Rests (returned e) c = c.stage ≡ ended e

  Rests-phase : (p : Phase) (c : Goroutines) → Rests p c → phase_of c.stage ≡ p
  Rests-phase starting c rest = ap phase_of rest.0
  Rests-phase serving c rest = ap phase_of rest.0
  Rests-phase draining c rest = ap phase_of rest
  Rests-phase (returned e) c rest = ap phase_of rest

  Rests-answered :
      (p : Phase) (c : Goroutines) (t : World) (extra : List Request)
      → Rests p c
      → Rests p (record c { in_flight = extra; world = t })
  Rests-answered starting c t extra rest = rest
  Rests-answered serving c t extra rest = rest
  Rests-answered draining c t extra rest = rest
  Rests-answered (returned e) c t extra rest = rest

  -- The goroutines come to a state, with the requests `l`.
  abbrev pub Comes : List Request → Goroutines → Type 0
  Comes l c = (ts : Ticks h s c) × (served ts ≡ l)

  -- Such a state, in which these requests are still in flight.
  abbrev Realised : List Request → List Request → Process → Type 0
  Realised extra l q =
      (c : Goroutines) × Rests q.phase c × (c.world ≡ q.world) × (c.in_flight ≡ extra) × Comes l c

  -- The requests come before anything else happens.
  Realised-start : (extra : List Request) → Realised extra [] (at starting s)
  unfolding launch
  Realised-start [] = (launch s, (refl, refl, refl), refl, refl, (begin, refl))
  Realised-start (r ∷ extra) =
      let (c, (stage, server, empty), w, flying, (ts, same)) = Realised-start extra in
      (
        record c { in_flight = r ∷ c.in_flight },
        (stage, server, empty),
        w,
        ap (λ l. r ∷ l) flying,
        (tick ts (accept r (ap accepts stage)), same),
      )

  -- A result of ListenAndServe for which the goroutine of the server sends this.
  abbrev cause : Option Text → Option ListenError
  cause none = none
  cause (some e) = some (listen_error e)

  server_result-cause : (v : Option Text) → server_result (cause v) ≡ v
  unfolding server_result
  server_result-cause none = refl
  server_result-cause (some e) = refl

  realise_fail :
      {extra l : List Request} {t : World} (v : Option Text)
      → Realised extra l (at serving t)
      → Realised extra l (at (returned (server_failure v)) (mark_not_ready t))
  realise_fail v (c, (stage, server, empty), w, flying, (ts, same)) = (
    record c {
      stage = ended (server_failure v);
      server = sent;
      server_err = [];
      world = mark_not_ready c.world;
    },
    refl,
    ap mark_not_ready w,
    flying,
    (
      tick
          (tick
            (tick (tick ts (listen_and_serve (cause v) server))
              (send v (ap sending (server_result-cause v)) (rw empty (omega arith))))
            (receive v [] stage (rw empty refl)))
          (give_up v refl),
      same,
    ),
  )

  -- The steps of the phases are steps of the goroutines.
  Runs-Realised :
      {q : Process} (extra : List Request) (rs : Runs h (at starting s) q)
      → Realised extra (requests rs) q
  Runs-Realised extra here = Realised-start extra
  Runs-Realised extra (next rs open_up) =
      let (c, (stage, server, empty), w, flying, (ts, same)) = Runs-Realised extra rs in
      (
        record c { stage = selecting; world = mark_ready c.world },
        (refl, server, empty),
        ap mark_ready w,
        flying,
        (tick (tick ts (wake stage)) (ready refl), same),
      )
  Runs-Realised extra (next rs cancel) =
      let (c, (stage, _, _), w, flying, (ts, same)) = Runs-Realised extra rs in
      (
        record c { stage = shutting_down; is_done = true; world = mark_not_ready c.world },
        refl,
        ap mark_not_ready w,
        flying,
        (tick (tick (tick ts signal) (done stage refl)) (unready refl), same),
      )
  Runs-Realised extra (next rs drained) =
      let (c, stage, w, flying, (ts, same)) = Runs-Realised extra rs in
      (record c { stage = ended none }, refl, w, flying, (tick ts (time_out stage), same))
  Runs-Realised extra (next rs (fail v)) = realise_fail v (Runs-Realised extra rs)
  Runs-Realised extra (next rs (request {p} {s = t} {s' = t'} r writer e)) =
      let (c, rest, w, flying, (ts, same)) = Runs-Realised (r ∷ extra) rs in
      (
        record c { in_flight = extra; world = t' },
        Rests-answered p c t' extra rest,
        refl,
        refl,
        (tick ts (answer [] extra r writer flying (rw w e)), ap (λ l. r ∷ l) same),
      )

  -- The two goroutines of `run`, with the channel between them, a signal at any time and requests
  -- that overlap until their handler runs, come from
  -- their launch to just those phases, with just those shared states and requests served, that the
  -- step relation of `run` comes to from the start of the listener: neither model has a run that
  -- the other lacks.
  pub goroutines_refine :
      (l : List Request) (q : Process)
      → ((c : Goroutines) × (process_of c ≡ q) × Comes l c) ↔ Mirrors l q
  goroutines_refine l q = (forth, back)
    where
      forth : (c : Goroutines) × (process_of c ≡ q) × Comes l c → Mirrors l q
      forth (c, is, (ts, same)) =
          subst (Mirrors l) is (subst (λ k. Mirrors k (process_of c)) same (Ticks-Mirrors ts))

      back : Mirrors l q → (c : Goroutines) × (process_of c ≡ q) × Comes l c
      back (rs, same) =
          let (c, rest, w, _, reached) = Runs-Realised [] rs in
          (c, cc (Rests-phase q.phase c rest, w), subst (λ k. Comes k c) same reached)
