-- ===== src/Events/Threads.antt =====
-- internal/middleware/accesslog.go with requests that overlap: the goroutine of each request encodes
-- its entry between mu.Lock and mu.Unlock, and writes one character at a time. `logged` is there
-- for the statements only.
pub mod Interleaving
pub mod Progress
use decision_gateway.Prelude.{ℕ, ◌≡◌, Bool, true, false, List, [], ◌∷◌, ◌++◌, Text}
use decision_gateway.Prelude.Threads.{Among}
use decision_gateway.World.{World, AccessEntry}
use decision_gateway.Events.{Formats, entry_json, stdout}

-- The mutex of AccessLog, and what was written on its writer. `logged` has the entry of every
-- goroutine that got the mutex, the latest first.
pub record Output : Type 0 where
  pub locked : Bool
  pub out : Text
  pub logged : List AccessEntry

-- Where a goroutine stands: before the lock, between lock and unlock with what is left to write, and
-- after the unlock.
pub data Turn : Type 0 where
  waiting : AccessEntry → Turn
  writing : AccessEntry → Text → Turn
  finished : AccessEntry → Turn

-- What Encode writes: the value and a line break.
unfoldable pub encoded : Formats → AccessEntry → Text
encoded f e = entry_json f e ++ 10 ∷ []

pub data Turns (f : Formats) : Output → Turn → Output → Turn → Type 0 where
  lock :
      {o : Output} {e : AccessEntry}
      → o.locked ≡ false
      → Turns f o
          (waiting e)
          (record o { locked = true; logged = e ∷ o.logged })
          (writing e (encoded f e))
  put :
      {o : Output} {e : AccessEntry} {c : ℕ} {rest : Text}
      → Turns f o (writing e (c ∷ rest)) (record o { out = o.out ++ c ∷ [] }) (writing e rest)
  unlock :
      {o : Output} {e : AccessEntry}
      → Turns f o (writing e []) (record o { locked = false }) (finished e)

-- A state that the goroutines come to after the output of a sequential run; a request ends at any
-- time.
pub data Interleaves (f : Formats) (s : World) : Output → List Turn → Type 0 where
  start : Interleaves f s (record { locked = false; out = stdout f s; logged = [] }) []
  spawn :
      {o : Output} {ts : List Turn} (e : AccessEntry)
      → Interleaves f s o ts
      → Interleaves f s o (waiting e ∷ ts)
  step :
      {o o' : Output} {ts us : List Turn}
      → Interleaves f s o ts
      → Among (Turns f) o ts o' us
      → Interleaves f s o' us
