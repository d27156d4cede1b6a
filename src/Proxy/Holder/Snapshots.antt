-- ===== src/Proxy/Holder/Snapshots.antt =====
-- internal/proxy/holder.go: the handler that an overlapping call goes on with.
use decision_gateway.Prelude.{
  ℕ, ◌+◌, ◌≤◌, ◌≡◌, refl, sym, ap, ◌∙◌, subst, Option, List, [], ◌∷◌, ◌++◌, Memᴰ, append_assoc,
  arith, length, length-append, All, All-mem, ok,
}
use decision_gateway.Gateway.{Router}
use decision_gateway.Prelude.Threads.{here, there}
use decision_gateway.Proxy.Build.{BuildConfig, Handler, new}
use decision_gateway.Proxy.Holder.Threads.{
  Memory, Pc, idle, calling, locked, copied, unlocked, built, storing, stored, Move, call,
  read_lock, copy, read_unlock, finish, refuse, build, write_lock, store, write_unlock, Moves,
  Reaches, start, spawn, step,
}

-- The handler was current at some moment at or after the one when `n` had been installed.
abbrev pub WasCurrent : ℕ → Handler → List Handler → Type 0
WasCurrent n h installed =
    (newer : List Handler) × (older : List Handler) × (installed ≡ newer ++ h ∷ older)
    × (n ≤ length older + 1)

-- The handler is what `new` makes of some router.
abbrev pub IsMade : BuildConfig → Handler → Type 0
IsMade cfg h = (router : Option Router) × (new router cfg ≡ ok h)

-- What a goroutine's locals say about the handlers installed so far.
abbrev IsFresh : BuildConfig → List Handler → Pc → Type 0
IsFresh cfg installed (calling n) = n ≤ length installed
IsFresh cfg installed (locked n) = n ≤ length installed
IsFresh cfg installed (copied n h) = WasCurrent n h installed
IsFresh cfg installed (unlocked n h) = WasCurrent n h installed
IsFresh cfg installed (built h) = IsMade cfg h
IsFresh cfg installed (storing h) = IsMade cfg h
IsFresh cfg installed _ = Unit

record IsTracked (cfg : BuildConfig) (m : Memory) : Type 0 where
  older : List Handler
  latest : m.installed ≡ m.current ∷ older
  made : All (IsMade cfg) m.installed

-- The history only grows.
abbrev Grows : Memory → Memory → Type 0
Grows m m' = (newer : List Handler) × (m'.installed ≡ newer ++ m.installed)

WasCurrent-grows :
    (n : ℕ) (h : Handler) (newer installed : List Handler)
    → WasCurrent n h installed
    → WasCurrent n h (newer ++ installed)
WasCurrent-grows n h newer installed (front, older, e, le) =
    (newer ++ front, older, ap (λ l. newer ++ l) e ∙ sym (append_assoc newer front (h ∷ older)), le)

IsFresh-grows :
    (cfg : BuildConfig) (newer installed : List Handler) (p : Pc)
    → IsFresh cfg installed p
    → IsFresh cfg (newer ++ installed) p
IsFresh-grows cfg newer installed idle f = tt
IsFresh-grows cfg newer installed (calling n) f = omega (arith, length-append {0} newer installed)
IsFresh-grows cfg newer installed (locked n) f = omega (arith, length-append {0} newer installed)
IsFresh-grows cfg newer installed (copied n h) f = WasCurrent-grows n h newer installed f
IsFresh-grows cfg newer installed (unlocked n h) f = WasCurrent-grows n h newer installed f
IsFresh-grows cfg newer installed (built h) f = f
IsFresh-grows cfg newer installed (storing h) f = f
IsFresh-grows cfg newer installed stored f = tt

All-IsFresh-grows :
    (cfg : BuildConfig) (newer installed : List Handler) (ps : List Pc)
    → All (IsFresh cfg installed) ps
    → All (IsFresh cfg (newer ++ installed)) ps
All-IsFresh-grows cfg newer installed [] f = tt
All-IsFresh-grows cfg newer installed (p ∷ ps) (f, fs) =
    (IsFresh-grows cfg newer installed p f, All-IsFresh-grows cfg newer installed ps fs)

-- What one move establishes.
record Kept (cfg : BuildConfig) (m m' : Memory) (p' : Pc) : Type 0 where
  tracked : IsTracked cfg m'
  grows : Grows m m'
  fresh : IsFresh cfg m'.installed p'

Move-Kept :
    (cfg : BuildConfig) {m m' : Memory} {p p' : Pc}
    → Move cfg m p m' p'
    → IsTracked cfg m
    → IsFresh cfg m.installed p
    → Kept cfg m m' p'
Move-Kept cfg call t f = record { tracked = t; grows = ([], refl); fresh = omega arith }
Move-Kept cfg (read_lock g) t f = record {
  tracked = record { older = t.older; latest = t.latest; made = t.made };
  grows = ([], refl);
  fresh = f;
}
Move-Kept cfg (copy {m} {n}) t f = record {
  tracked = t;
  grows = ([], refl);
  fresh = ([], t.older, t.latest, omega (arith, ap (λ (l : List Handler). length l) t.latest));
}
Move-Kept cfg read_unlock t f = record {
  tracked = record { older = t.older; latest = t.latest; made = t.made };
  grows = ([], refl);
  fresh = f;
}
Move-Kept cfg finish t f = record { tracked = t; grows = ([], refl); fresh = tt }
Move-Kept cfg (refuse router e k) t f = record { tracked = t; grows = ([], refl); fresh = tt }
Move-Kept cfg (build router k) t f = record { tracked = t; grows = ([], refl); fresh = (router, k) }
Move-Kept cfg (write_lock g z) t f = record {
  tracked = record { older = t.older; latest = t.latest; made = t.made };
  grows = ([], refl);
  fresh = f;
}
Move-Kept cfg (store {m} {h}) t f = record {
  tracked = record { older = m.installed; latest = refl; made = (f, t.made) };
  grows = (h ∷ [], refl);
  fresh = tt;
}
Move-Kept cfg write_unlock t f = record {
  tracked = record { older = t.older; latest = t.latest; made = t.made };
  grows = ([], refl);
  fresh = tt;
}

Moves-Kept :
    (cfg : BuildConfig) {m m' : Memory} {ps qs : List Pc}
    → Moves cfg m ps m' qs
    → IsTracked cfg m
    → All (IsFresh cfg m.installed) ps
    → IsTracked cfg m' × Grows m m' × All (IsFresh cfg m'.installed) qs
Moves-Kept cfg (here {m} {m'} {p} {p'} {ps} mv) t (f, fs) =
    let k = Move-Kept cfg mv t f in
    let (newer, e) = k.grows in
    (
      k.tracked,
      k.grows,
      (
        k.fresh,
        subst (λ l. All (IsFresh cfg l) ps) (sym e) (All-IsFresh-grows cfg newer m.installed ps fs),
      ),
    )
Moves-Kept cfg (there {m} {m'} {p} mv) t (f, fs) =
    let (t', (newer, e), gs) = Moves-Kept cfg mv t fs in
    (
      t',
      (newer, e),
      (subst (λ l. IsFresh cfg l p) (sym e) (IsFresh-grows cfg newer m.installed p f), gs),
    )

Reaches-Kept :
    (cfg : BuildConfig) {m : Memory} {ps : List Pc}
    → Reaches cfg m ps
    → IsTracked cfg m × All (IsFresh cfg m.installed) ps
Reaches-Kept cfg (start {h} router k) =
    (record { older = []; latest = refl; made = ((router, k), tt) }, tt)
Reaches-Kept cfg (spawn r) = let (t, fs) = Reaches-Kept cfg r in (t, (tt, fs))
Reaches-Kept cfg (step r mv) =
    let (t, fs) = Reaches-Kept cfg r in let (t', _, gs) = Moves-Kept cfg mv t fs in (t', gs)

-- In every state that a Holder comes to, a call of ServeHTTP or Routes that has released the lock
-- goes on with a handler that was current at some moment since the call, which remembers how many
-- handlers had been installed by then; and every handler installed so far is one that `new` made
-- of some router with the Holder's configuration.
pub Reaches-WasCurrent :
    (cfg : BuildConfig) (m : Memory) (ps : List Pc) (n : ℕ) (h : Handler)
    → Reaches cfg m ps
    → Memᴰ (unlocked n h) ps
    → WasCurrent n h m.installed × All (IsMade cfg) m.installed
Reaches-WasCurrent cfg m ps n h r listed =
    let (t, fs) = Reaches-Kept cfg r in (All-mem (IsFresh cfg m.installed) fs listed, t.made)
