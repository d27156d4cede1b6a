-- ===== src/Tests/Holding.antt =====
-- Two overlapping calls of a Holder: a request copies the handler while another waits to replace it.
use decision_gateway.Prelude.{◌≤◌, ◌≡◌, refl, ◌⊎◌, true, false, some, [], ◌∷◌, Memᴰ, All}
use decision_gateway.Prelude.Threads.{here, there, total, SomeMoves}
use decision_gateway.Proxy.Holder.Threads.{
  Memory, Move, idle, unlocked, stored, call, read_lock, copy, read_unlock, build, write_lock,
  store, Reaches, start, spawn, step,
}
use decision_gateway.Proxy.Holder.Exclusion.{reads, writes, Reaches-exclusive}
use decision_gateway.Proxy.Holder.Snapshots.{WasCurrent, IsMade, Reaches-WasCurrent}
use decision_gateway.Proxy.Holder.Progress.{to_do, Reaches-SomeMoves}
use decision_gateway.Tests.Sample.{router}
use decision_gateway.Tests.Table.{config}
use decision_gateway.Tests.Forwarding.{handler, made}

abbrev fresh : Memory
fresh = record { current = handler; readers = 0; writing = false; installed = handler ∷ [] }

abbrev replaced : Memory
replaced = record {
  current = handler;
  readers = 0;
  writing = true;
  installed = handler ∷ handler ∷ [];
}

-- The request has its copy and has released the lock.
read : Reaches config fresh (unlocked 1 handler ∷ idle ∷ [])
read =
    step
      (step
        (step (step (spawn (spawn (start (some router) made))) (here call)) (here (read_lock refl)))
        (here copy))
      (here read_unlock)

-- The other has replaced the handler in the meantime, and holds the lock.
overtaken : Reaches config replaced (unlocked 1 handler ∷ stored ∷ [])
overtaken =
    step
      (step (step read (there (here (build (some router) made))))
        (there (here (write_lock refl refl))))
      (there (here store))

Reaches-exclusive_example :
    (total writes (unlocked 1 handler ∷ stored ∷ []) ≤ 1)
    × ((total writes (unlocked 1 handler ∷ stored ∷ []) ≡ 0)
        ⊎ (total reads (unlocked 1 handler ∷ stored ∷ []) ≡ 0))
Reaches-exclusive_example =
    Reaches-exclusive config replaced (unlocked 1 handler ∷ stored ∷ []) overtaken

Reaches-WasCurrent_example :
    WasCurrent 1 handler (handler ∷ handler ∷ []) × All (IsMade config) (handler ∷ handler ∷ [])
Reaches-WasCurrent_example =
    Reaches-WasCurrent config replaced (unlocked 1 handler ∷ stored ∷ []) 1 handler overtaken
      (Memᴰ.head refl)

Reaches-SomeMoves_example :
    (total to_do (unlocked 1 handler ∷ stored ∷ []) ≡ 0)
    ⊎ SomeMoves (Move config) to_do replaced (unlocked 1 handler ∷ stored ∷ [])
Reaches-SomeMoves_example =
    Reaches-SomeMoves config replaced (unlocked 1 handler ∷ stored ∷ []) overtaken
