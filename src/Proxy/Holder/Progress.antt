-- ===== src/Proxy/Holder/Progress.antt =====
-- internal/proxy/holder.go: overlapping calls come to their ends.
use decision_gateway.Prelude.{ℕ, ◌≤◌, ◌≡◌, ap, ◌⊎◌, inl, inr, false, List, arith, Bool-cases}
use decision_gateway.Prelude.Threads.{total, CanMove, SomeMoves, some-CanMove, zero_or_more}
use decision_gateway.Proxy.Build.{BuildConfig}
use decision_gateway.Proxy.Holder.Threads.{
  Memory, Pc, idle, calling, locked, copied, unlocked, built, storing, stored, Move, read_lock,
  copy, read_unlock, finish, write_lock, store, write_unlock, Reaches,
}
use decision_gateway.Proxy.Holder.Exclusion.{reads, writes, held, Reaches-guard}

-- The steps that a call still takes.
abbrev pub to_do : Pc → ℕ
to_do idle = 0
to_do (calling n) = 4
to_do (locked n) = 3
to_do (copied n h) = 2
to_do (unlocked n h) = 1
to_do (built h) = 3
to_do (storing h) = 2
to_do stored = 1

module _ (cfg : BuildConfig) (m : Memory) where
  writer-CanMove : (p : Pc) → 1 ≤ writes p → CanMove (Move cfg) to_do m p
  writer-CanMove (storing h) any = (_, stored, store, omega arith)
  writer-CanMove stored any = (_, idle, write_unlock, omega arith)
  writer-CanMove idle any = absurd (omega arith)
  writer-CanMove (calling n) any = absurd (omega arith)
  writer-CanMove (locked n) any = absurd (omega arith)
  writer-CanMove (copied n h) any = absurd (omega arith)
  writer-CanMove (unlocked n h) any = absurd (omega arith)
  writer-CanMove (built h) any = absurd (omega arith)

  reader-CanMove : (p : Pc) → 1 ≤ reads p → CanMove (Move cfg) to_do m p
  reader-CanMove (locked n) any = (_, copied n m.current, copy, omega arith)
  reader-CanMove (copied n h) any = (_, unlocked n h, read_unlock, omega arith)
  reader-CanMove idle any = absurd (omega arith)
  reader-CanMove (calling n) any = absurd (omega arith)
  reader-CanMove (unlocked n h) any = absurd (omega arith)
  reader-CanMove (built h) any = absurd (omega arith)
  reader-CanMove (storing h) any = absurd (omega arith)
  reader-CanMove stored any = absurd (omega arith)

  -- With the lock free, every call can go on.
  free-CanMove :
      m.writing ≡ false → m.readers ≡ 0 → (p : Pc) → 1 ≤ to_do p → CanMove (Move cfg) to_do m p
  free-CanMove w z idle any = absurd (omega arith)
  free-CanMove w z (calling n) any = (_, locked n, read_lock w, omega arith)
  free-CanMove w z (locked n) any = (_, copied n m.current, copy, omega arith)
  free-CanMove w z (copied n h) any = (_, unlocked n h, read_unlock, omega arith)
  free-CanMove w z (unlocked n h) any = (_, idle, finish, omega arith)
  free-CanMove w z (built h) any = (_, storing h, write_lock w z, omega arith)
  free-CanMove w z (storing h) any = (_, stored, store, omega arith)
  free-CanMove w z stored any = (_, idle, write_unlock, omega arith)

-- However the calls of a Holder overlap, there is no deadlock: as long as a call has not returned,
-- a goroutine that is in a call can take a step, and after it less is left to do by all calls
-- together.
pub Reaches-SomeMoves :
    (cfg : BuildConfig) (m : Memory) (ps : List Pc)
    → Reaches cfg m ps
    → (total to_do ps ≡ 0) ⊎ SomeMoves (Move cfg) to_do m ps
Reaches-SomeMoves cfg m ps r =
    let g = Reaches-guard cfg r in
    elim (Bool-cases m.writing) [
      | inl taken ↦
          let some_writes : 1 ≤ total writes ps =
            let count : held m.writing ≡ 1 = ap held taken in omega (arith, g.writers) in
          inr (some-CanMove (Move cfg) to_do writes m ps (writer-CanMove cfg m) some_writes)
      | inr free ↦ elim (zero_or_more m.readers) [
        | inr reading ↦ inr (
            some-CanMove (Move cfg) to_do reads m ps (reader-CanMove cfg m)
              (omega (arith, g.readers)))
        | inl none_reads ↦ elim (zero_or_more (total to_do ps)) [
          | inl over ↦ inl over
          | inr busy ↦
              inr
                (some-CanMove (Move cfg) to_do to_do m ps (free-CanMove cfg m free none_reads) busy)
        ]
      ]
    ]
