-- ===== src/Events/Threads/Progress.antt =====
-- internal/middleware/accesslog.go: overlapping requests all write their lines.
use decision_gateway.Prelude.{
  ℕ, ◌+◌, ◌≤◌, ◌≡◌, ap, ◌⊎◌, inl, inr, false, List, [], ◌∷◌, arith, Bool-cases, length,
}
use decision_gateway.Prelude.Threads.{total, CanMove, SomeMoves, some-CanMove, zero_or_more}
use decision_gateway.World.{World}
use decision_gateway.Events.{Formats}
use decision_gateway.Events.Threads.{
  Output, Turn, waiting, writing, finished, encoded, Turns, lock, put, unlock, Interleaves,
}
use decision_gateway.Events.Threads.Interleaving.{holds, held, Interleaves-IsOrderly}

-- The steps that a goroutine still takes: the lock, the characters of its line and the unlock.
abbrev pub to_write : Formats → Turn → ℕ
to_write f (waiting e) = length (encoded f e) + 2
to_write f (writing e rest) = length rest + 1
to_write f (finished e) = 0

module _ (f : Formats) (o : Output) where
  holder-CanMove : (t : Turn) → 1 ≤ holds t → CanMove (Turns f) (to_write f) o t
  holder-CanMove (writing e []) any = (_, finished e, unlock, omega arith)
  holder-CanMove (writing e (c ∷ rest)) any = (_, writing e rest, put, omega arith)
  holder-CanMove (waiting e) any = absurd (omega arith)
  holder-CanMove (finished e) any = absurd (omega arith)

  free-CanMove :
      o.locked ≡ false → (t : Turn) → 1 ≤ to_write f t → CanMove (Turns f) (to_write f) o t
  free-CanMove free (waiting e) any = (_, writing e (encoded f e), lock free, omega arith)
  free-CanMove free (writing e []) any = (_, finished e, unlock, omega arith)
  free-CanMove free (writing e (c ∷ rest)) any = (_, writing e rest, put, omega arith)
  free-CanMove free (finished e) any = absurd (omega arith)

-- However the requests overlap, there is no deadlock: as long as a goroutine has not finished, one
-- of them can take a step after which less is left to do for all together.
pub Interleaves-SomeMoves :
    (f : Formats) (s : World) (o : Output) (ts : List Turn)
    → Interleaves f s o ts
    → (total (to_write f) ts ≡ 0) ⊎ SomeMoves (Turns f) (to_write f) o ts
Interleaves-SomeMoves f s o ts r =
    let i = Interleaves-IsOrderly f s r in
    elim (Bool-cases o.locked) [
      | inl taken ↦
          let count : held o.locked ≡ 1 = ap held taken in
          inr (
            some-CanMove (Turns f) (to_write f) holds o ts (holder-CanMove f o)
              (omega (arith, i.count)))
      | inr free ↦ elim (zero_or_more (total (to_write f) ts)) [
        | inl over ↦ inl over
        | inr busy ↦
            inr (some-CanMove (Turns f) (to_write f) (to_write f) o ts (free-CanMove f o free) busy)
      ]
    ]
