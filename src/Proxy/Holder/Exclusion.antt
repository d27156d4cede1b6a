-- ===== src/Proxy/Holder/Exclusion.antt =====
-- internal/proxy/holder.go: who holds the lock.
use decision_gateway.Prelude.{ℕ, ◌+◌, ◌≤◌, ◌≡◌, refl, ◌⊎◌, inl, inr, Bool, true, false, List, arith}
use decision_gateway.Prelude.Threads.{here, there, total}
use decision_gateway.Proxy.Build.{BuildConfig}
use decision_gateway.Proxy.Holder.Threads.{
  Memory, Pc, locked, copied, storing, stored, Move, call, read_lock, copy, read_unlock, finish,
  refuse, build, write_lock, store, write_unlock, Moves, Reaches, start, spawn, step,
}

-- Between RLock and RUnlock, and between Lock and Unlock.
abbrev pub reads : Pc → ℕ
reads (locked n) = 1
reads (copied n h) = 1
reads _ = 0

abbrev pub writes : Pc → ℕ
writes (storing h) = 1
writes stored = 1
writes _ = 0

abbrev pub held : Bool → ℕ
held true = 1
held false = 0

pub record IsGuarded (m : Memory) (ps : List Pc) : Type 0 where
  pub readers : m.readers ≡ total reads ps
  pub writers : held m.writing ≡ total writes ps
  pub exclusive : (held m.writing ≡ 0) ⊎ (m.readers ≡ 0)

-- What a move does to the two counts, with the counts of the other goroutines.
Move-counts :
    (cfg : BuildConfig) {m m' : Memory} {p p' : Pc} (rs ws : ℕ)
    → Move cfg m p m' p'
    → m.readers ≡ reads p + rs
    → held m.writing ≡ writes p + ws
    → (held m.writing ≡ 0) ⊎ (m.readers ≡ 0)
    → (m'.readers ≡ reads p' + rs)
      × (held m'.writing ≡ writes p' + ws)
      × ((held m'.writing ≡ 0) ⊎ (m'.readers ≡ 0))
Move-counts cfg rs ws call r w x = (r, w, x)
Move-counts cfg rs ws (read_lock g) r w x = (omega arith, w, inl (rw g refl))
Move-counts cfg rs ws copy r w x = (r, w, x)
Move-counts cfg rs ws read_unlock r w x = (omega arith, w, ground arith)
Move-counts cfg rs ws finish r w x = (r, w, x)
Move-counts cfg rs ws (refuse router e k) r w x = (r, w, x)
Move-counts cfg rs ws (build router k) r w x = (r, w, x)
Move-counts cfg rs ws (write_lock g z) r w x = (r, ground arith, inr z)
Move-counts cfg rs ws store r w x = (r, w, x)
Move-counts cfg rs ws write_unlock r w x = (r, ground arith, inl refl)

Moves-counts :
    (cfg : BuildConfig) {m m' : Memory} {ps qs : List Pc} (rs ws : ℕ)
    → Moves cfg m ps m' qs
    → m.readers ≡ total reads ps + rs
    → held m.writing ≡ total writes ps + ws
    → (held m.writing ≡ 0) ⊎ (m.readers ≡ 0)
    → (m'.readers ≡ total reads qs + rs)
      × (held m'.writing ≡ total writes qs + ws)
      × ((held m'.writing ≡ 0) ⊎ (m'.readers ≡ 0))
Moves-counts cfg rs ws (here {p} {p'} {ps} mv) r w x =
    let (r', w', x') =
      Move-counts cfg (total reads ps + rs) (total writes ps + ws) mv (omega arith) (omega arith)
        x in
    (omega arith, omega arith, x')
Moves-counts cfg rs ws (there {p} {ps} {qs} mv) r w x =
    let (r', w', x') =
      Moves-counts cfg (reads p + rs) (writes p + ws) mv (omega arith) (omega arith) x in
    (omega arith, omega arith, x')

pub Reaches-guard :
    (cfg : BuildConfig) {m : Memory} {ps : List Pc} → Reaches cfg m ps → IsGuarded m ps
Reaches-guard cfg (start router k) = record { readers = refl; writers = refl; exclusive = inl refl }
Reaches-guard cfg (spawn r) =
    let g = Reaches-guard cfg r in
    record {
      readers = omega (arith, g.readers);
      writers = omega (arith, g.writers);
      exclusive = g.exclusive;
    }
Reaches-guard cfg (step {m} {m'} {ps} {qs} r mv) =
    let g = Reaches-guard cfg r in
    let (readers, writers, x) =
      Moves-counts cfg 0 0 mv (omega (arith, g.readers)) (omega (arith, g.writers)) g.exclusive in
    record { readers = omega arith; writers = omega arith; exclusive = x }

held-le : (b : Bool) → held b ≤ 1
held-le true = omega arith
held-le false = omega arith

-- In every state that a Holder comes to, at most one goroutine is between Lock and Unlock of
-- Replace, and while one is, none is between RLock and RUnlock: the field `current` is not written
-- while it is read or written elsewhere.
pub Reaches-exclusive :
    (cfg : BuildConfig) (m : Memory) (ps : List Pc)
    → Reaches cfg m ps
    → (total writes ps ≤ 1) × ((total writes ps ≡ 0) ⊎ (total reads ps ≡ 0))
Reaches-exclusive cfg m ps r =
    let g = Reaches-guard cfg r in
    (
      omega (arith, g.writers, held-le m.writing),
      elim g.exclusive [
        | inl free ↦ inl (omega (arith, g.writers))
        | inr none_reads ↦ inr (omega (arith, g.readers))
      ],
    )
