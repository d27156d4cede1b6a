-- ===== src/Cmd/Run/Goroutines.antt =====
-- cmd/decision-gateway/main.go: `run` after the mux is built, with its two goroutines, the channel
-- between them, the signal that ends the context and the requests in flight. Each step is one
-- statement of a goroutine; a request comes in one step and is served in another. Shutdown closes
-- the listener and returns when no request is in flight, or at its deadline.
pub mod Refinement
pub mod Feeding
pub mod Waiting
pub mod Serving
use decision_gateway.Prelude.{
  ℕ, ◌<◌, ◌≡◌, Bool, true, false, Option, none, some, List, [], ◌∷◌, ◌++◌, length, Text,
}
use decision_gateway.Net.Http.{Request, fresh_response}
use decision_gateway.Writer.{Writer, server}
use decision_gateway.World.{World, Handler}
use decision_gateway.Api.Health.{mark_ready, mark_not_ready}
use decision_gateway.Cmd.Compose.{RunError}
use decision_gateway.Cmd.Run.{server_failure}

-- The errors of ListenAndServe: http.ErrServerClosed, and the others.
pub data ListenError : Type 0 where
  server_closed : ListenError
  listen_error : Text → ListenError

-- What the goroutine of the server sends for what ListenAndServe returned.
unfoldable pub server_result : Option ListenError → Option Text
server_result none = none
server_result (some server_closed) = none
server_result (some (listen_error e)) = some e

-- Where the goroutine of the server stands.
pub data Server : Type 0 where
  listening : Server
  sending : Option Text → Server
  sent : Server

-- Where `run` stands.
pub data Stage : Type 0 where
  sleeping : Stage
  awake : Stage
  selecting : Stage
  cancelled : Stage
  received : Option Text → Stage
  shutting_down : Stage
  ended : Option RunError → Stage

-- No request comes when `run` has returned. While Shutdown waits one may still come, on a connection
-- that was there before.
abbrev pub accepts : Stage → Bool
accepts (ended e) = false
accepts _ = true

-- `server_err` holds what was sent and not received, the oldest first.
pub record Goroutines : Type 0 where
  pub stage : Stage
  pub server : Server
  pub server_err : List (Option Text)
  pub is_done : Bool
  pub in_flight : List Request
  pub world : World

-- The size of the channel's buffer.
abbrev pub capacity : ℕ
capacity = 1

-- The state when the goroutine of the server has been started.
unfoldable pub launch : World → Goroutines
launch s = record {
  stage = sleeping;
  server = listening;
  server_err = [];
  is_done = false;
  in_flight = [];
  world = s;
}

pub data Tick (h : Handler) : Goroutines → Goroutines → Type 0 where
  -- SIGINT or SIGTERM, for which signal.NotifyContext cancels the context
  signal : {c : Goroutines} → Tick h c (record c { is_done = true })
  -- the goroutine of the server
  listen_and_serve :
      {c : Goroutines} (r : Option ListenError)
      → c.server ≡ listening
      → Tick h c (record c { server = sending (server_result r) })
  send :
      {c : Goroutines} (v : Option Text)
      → c.server ≡ sending v
      → length c.server_err < capacity
      → Tick h c (record c { server = sent; server_err = c.server_err ++ (v ∷ []) })
  -- `run`: the sleep, and markReady
  wake : {c : Goroutines} → c.stage ≡ sleeping → Tick h c (record c { stage = awake })
  ready :
      {c : Goroutines}
      → c.stage ≡ awake
      → Tick h c (record c { stage = selecting; world = mark_ready c.world })
  -- the select: any branch that can go on
  done :
      {c : Goroutines}
      → c.stage ≡ selecting
      → c.is_done ≡ true
      → Tick h c (record c { stage = cancelled })
  receive :
      {c : Goroutines} (v : Option Text) (vs : List (Option Text))
      → c.stage ≡ selecting
      → c.server_err ≡ v ∷ vs
      → Tick h c (record c { stage = received v; server_err = vs })
  -- markNotReady in either branch, and Shutdown
  unready :
      {c : Goroutines}
      → c.stage ≡ cancelled
      → Tick h c (record c { stage = shutting_down; world = mark_not_ready c.world })
  shut_down :
      {c : Goroutines}
      → c.stage ≡ shutting_down
      → c.in_flight ≡ []
      → Tick h c (record c { stage = ended none })
  time_out : {c : Goroutines} → c.stage ≡ shutting_down → Tick h c (record c { stage = ended none })
  give_up :
      {c : Goroutines} (v : Option Text)
      → c.stage ≡ received v
      → Tick h c (record c { stage = ended (server_failure v); world = mark_not_ready c.world })
  -- the goroutines of the server that serve requests
  accept :
      {c : Goroutines} (r : Request)
      → accepts c.stage ≡ true
      → Tick h c (record c { in_flight = r ∷ c.in_flight })
  answer :
      {c : Goroutines} {s' : World} (before after : List Request) (r : Request) (w : Writer)
      → c.in_flight ≡ before ++ r ∷ after
      → h r (server fresh_response) c.world ≡ some (w, s')
      → Tick h c (record c { in_flight = before ++ after; world = s' })

pub data Ticks (h : Handler) (s : World) : Goroutines → Type 0 where
  begin : Ticks h s (launch s)
  tick : {c d : Goroutines} → Ticks h s c → Tick h c d → Ticks h s d

-- The requests that were served, the latest first.
abbrev pub served : {h : Handler} {s : World} {c : Goroutines} → Ticks h s c → List Request
served begin = []
served (tick ts (answer before after r w e e')) = r ∷ served ts
served (tick ts (accept r e)) = served ts
served (tick ts (time_out e)) = served ts
served (tick ts signal) = served ts
served (tick ts (listen_and_serve r e)) = served ts
served (tick ts (send v e room)) = served ts
served (tick ts (wake e)) = served ts
served (tick ts (ready e)) = served ts
served (tick ts (done e e')) = served ts
served (tick ts (receive v vs e e')) = served ts
served (tick ts (unready e)) = served ts
served (tick ts (shut_down e e')) = served ts
served (tick ts (give_up v e)) = served ts

-- What ListenAndServe has returned, if it has.
abbrev pub gave :
    {h : Handler} {s : World} {c : Goroutines} → Ticks h s c → Option (Option ListenError)
gave begin = none
gave (tick ts (listen_and_serve r e)) = some r
gave (tick ts (answer before after r w e e')) = gave ts
gave (tick ts (accept r e)) = gave ts
gave (tick ts (time_out e)) = gave ts
gave (tick ts signal) = gave ts
gave (tick ts (send v e room)) = gave ts
gave (tick ts (wake e)) = gave ts
gave (tick ts (ready e)) = gave ts
gave (tick ts (done e e')) = gave ts
gave (tick ts (receive v vs e e')) = gave ts
gave (tick ts (unready e)) = gave ts
gave (tick ts (shut_down e e')) = gave ts
gave (tick ts (give_up v e)) = gave ts
