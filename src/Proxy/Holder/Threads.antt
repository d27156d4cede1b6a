-- ===== src/Proxy/Holder/Threads.antt =====
-- internal/proxy/holder.go with calls that overlap: each call of ServeHTTP, Routes or Replace is a
-- goroutine that takes one atomic step at a time, and the lock is a sync.RWMutex. `installed` and
-- the number that a reader remembers are there for the statements only.
use decision_gateway.Prelude.{
  ℕ, ◌+◌, ◌-◌, ◌≡◌, Bool, true, false, Option, List, [], ◌∷◌, length, ok, err,
}
use decision_gateway.Prelude.Threads.{Among}
use decision_gateway.Gateway.{Router}
use decision_gateway.Proxy.Build.{BuildConfig, BuildError, Handler, new}

-- The fields of the Holder. The lock is held by `readers` readers, or by a writer.
pub record Memory : Type 0 where
  pub current : Handler
  pub readers : ℕ
  pub writing : Bool
  -- every handler that was ever current, the latest first
  pub installed : List Handler

-- Where a goroutine stands. A reader remembers how many handlers had been installed when it was
-- called, and from the copy on the handler that it goes on with.
pub data Pc : Type 0 where
  idle : Pc
  calling : ℕ → Pc
  locked : ℕ → Pc
  copied : ℕ → Handler → Pc
  unlocked : ℕ → Handler → Pc
  built : Handler → Pc
  storing : Handler → Pc
  stored : Pc

pub data Move (cfg : BuildConfig) : Memory → Pc → Memory → Pc → Type 0 where
  -- ServeHTTP and Routes
  call : {m : Memory} → Move cfg m idle m (calling (length m.installed))
  read_lock :
      {m : Memory} {n : ℕ}
      → m.writing ≡ false
      → Move cfg m (calling n) (record m { readers = m.readers + 1 }) (locked n)
  copy : {m : Memory} {n : ℕ} → Move cfg m (locked n) m (copied n m.current)
  read_unlock :
      {m : Memory} {n : ℕ} {h : Handler}
      → Move cfg m (copied n h) (record m { readers = m.readers - 1 }) (unlocked n h)
  -- `cur.ServeHTTP` or `cur.router.Routes()`, on the copy
  finish : {m : Memory} {n : ℕ} {h : Handler} → Move cfg m (unlocked n h) m idle
  -- Replace
  refuse :
      {m : Memory} (router : Option Router) (e : BuildError)
      → new router cfg ≡ err e
      → Move cfg m idle m idle
  build :
      {m : Memory} {h : Handler} (router : Option Router)
      → new router cfg ≡ ok h
      → Move cfg m idle m (built h)
  write_lock :
      {m : Memory} {h : Handler}
      → m.writing ≡ false
      → m.readers ≡ 0
      → Move cfg m (built h) (record m { writing = true }) (storing h)
  store :
      {m : Memory} {h : Handler}
      → Move cfg m (storing h) (record m { current = h; installed = h ∷ m.installed }) stored
  write_unlock : {m : Memory} → Move cfg m stored (record m { writing = false }) idle

-- One of the goroutines moves.
abbrev pub Moves : BuildConfig → Memory → List Pc → Memory → List Pc → Type 0
Moves cfg = Among (Move cfg)

-- A state that a Holder made by NewHolder comes to; goroutines start at any time.
pub data Reaches (cfg : BuildConfig) : Memory → List Pc → Type 0 where
  start :
      {h : Handler} (router : Option Router)
      → new router cfg ≡ ok h
      → Reaches cfg (record { current = h; readers = 0; writing = false; installed = h ∷ [] }) []
  spawn : {m : Memory} {ps : List Pc} → Reaches cfg m ps → Reaches cfg m (idle ∷ ps)
  step :
      {m m' : Memory} {ps qs : List Pc}
      → Reaches cfg m ps
      → Moves cfg m ps m' qs
      → Reaches cfg m' qs
