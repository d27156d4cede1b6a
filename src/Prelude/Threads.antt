-- ===== src/Prelude/Threads.antt =====
-- Goroutines that share a state: one of them moves at a time.
use Prim.Native.Nat.{ℕ, ◌+◌, ◌≤◌, ◌<◌}
use mathlib.Core.Path.{◌≡◌}
use mathlib.Core.Logic.{◌⊎◌, inl, inr}
use native.Mathlib.Omega.{arith}
use mathlib.Core.List.{List, [], ◌∷◌}

-- The shared state and the places of the goroutines, before and after one of them moves.
pub data Among {ℓ κ ρ} {M : Type ℓ} {P : Type κ} (R : M → P → M → P → Type ρ)
    : M → List P → M → List P → Type (ℓ ⊔ κ ⊔ ρ) where
  here : {m m' : M} {p p' : P} {ps : List P} → R m p m' p' → Among R m (p ∷ ps) m' (p' ∷ ps)
  there : {m m' : M} {p : P} {ps qs : List P} → Among R m ps m' qs → Among R m (p ∷ ps) m' (p ∷ qs)

-- A count over the goroutines.
abbrev pub total {ℓ} : {P : Type ℓ} → (P → ℕ) → List P → ℕ
total f [] = 0
total f (p ∷ ps) = f p + total f ps

pub zero_or_more : (n : ℕ) → (n ≡ 0) ⊎ (1 ≤ n)
zero_or_more n = ground arith

module _ {ℓ κ ρ} {M : Type ℓ} {P : Type κ} (R : M → P → M → P → Type ρ) (left : P → ℕ) where
  -- A move that leaves less to do, of one goroutine and of the whole.
  abbrev pub CanMove : M → P → Type (ℓ ⊔ κ ⊔ ρ)
  CanMove m p = (m' : M) × (p' : P) × R m p m' p' × (left p' < left p)

  abbrev pub SomeMoves : M → List P → Type (ℓ ⊔ κ ⊔ ρ)
  SomeMoves m ps = (m' : M) × (qs : List P) × Among R m ps m' qs × (total left qs < total left ps)

  -- Where some goroutine is counted, and each that is counted can move.
  pub some-CanMove :
      (f : P → ℕ) (m : M) (ps : List P)
      → ((p : P) → 1 ≤ f p → CanMove m p)
      → 1 ≤ total f ps
      → SomeMoves m ps
  some-CanMove f m [] can any = absurd (omega arith)
  some-CanMove f m (p ∷ ps) can any = elim (zero_or_more (f p)) [
    | inl is_zero ↦
        let (m', qs, mv, less) = some-CanMove f m ps can (omega arith) in
        (m', p ∷ qs, there mv, omega arith)
    | inr more ↦ let (m', p', mv, less) = can p more in (m', p' ∷ ps, here mv, omega arith)
  ]
