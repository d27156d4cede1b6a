-- ===== src/Cmd/Run.antt =====
-- cmd/decision-gateway/main.go: `run` after the mux is built, as a step relation. The listener, the
-- context's cancellation and the end of the drain happen when they happen; the server calls the
-- handler with a fresh response for each request, one at a time. What makes a branch of the select
-- ready, the signal or a value that was sent, stands in Goroutines; here either may come at any time.
pub mod Lifecycle
pub mod Logging
pub mod Goroutines
pub mod Tables
use decision_gateway.Prelude.{ℕ, ◌≡◌, Option, none, some, Text}
use decision_gateway.Net.Http.{Request, fresh_response}
use decision_gateway.Writer.{Writer, server}
use decision_gateway.World.{World, Handler}
use decision_gateway.Api.Health.{mark_ready, mark_not_ready}
use decision_gateway.Cmd.Compose.{RunError, server_error}

-- Where `run` stands: the listener's grace window, the select, the drain, and the return.
pub data Phase : Type 0 where
  starting : Phase
  serving : Phase
  draining : Phase
  returned : Option RunError → Phase

-- An error of ListenAndServe is what `run` returns.
abbrev pub server_failure : Option Text → Option RunError
server_failure none = none
server_failure (some e) = some (server_error e)

pub record Process : Type 0 where
  pub phase : Phase
  pub world : World

abbrev pub at : Phase → World → Process
at p s = record { phase = p; world = s }

pub data Step (h : Handler) : Process → Process → Type 0 where
  -- time.Sleep returns, and markReady
  open_up : {s : World} → Step h (at starting s) (at serving (mark_ready s))
  -- ctx.Done(), and markNotReady; then Shutdown returns
  cancel : {s : World} → Step h (at serving s) (at draining (mark_not_ready s))
  drained : {s : World} → Step h (at draining s) (at (returned none) s)
  -- what `serverErr` gives: an error, or nil, and markNotReady
  fail :
      {s : World} (e : Option Text)
      → Step h (at serving s) (at (returned (server_failure e)) (mark_not_ready s))
  -- a request in flight, before, while and after `run` waits
  request :
      {p : Phase} {s s' : World} (r : Request) (w : Writer)
      → h r (server fresh_response) s ≡ some (w, s')
      → Step h (at p s) (at p s')

pub data Runs (h : Handler) : Process → Process → Type 0 where
  here : {p : Process} → Runs h p p
  next : {p q t : Process} → Runs h p q → Step h q t → Runs h p t

-- `main`: the status of the process when `run` has returned.
abbrev pub exit_status : Option RunError → ℕ
exit_status none = 0
exit_status (some e) = 1
