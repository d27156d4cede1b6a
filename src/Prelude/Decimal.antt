-- ===== src/Prelude/Decimal.antt =====
-- Decimal numerals: `strconv.Itoa` on the numbers that the gateway prints. The fuel bounds the
-- digits, and a number has at most as many as its value, or one.
use Prim.Native.Nat.{ℕ, zero, suc, ◌+◌, ◌-◌, ◌*◌, ◌/◌, ◌%◌, ◌≤◌, ◌<◌}
use mathlib.Core.Path.{◌≡◌, ap, ◌∙◌}
use mathlib.Core.List.{[], ◌∷◌}
use native.Mathlib.Omega.{arith}
use decision_gateway.Prelude.Tests.{◌==◌, if◌then◌else◌, Bool-cases}
use decision_gateway.Prelude.Strings.{Text}
use decision_gateway.Prelude.Lists.{All}
use mathlib.Core.Logic.{inl, inr}

itoa_from : ℕ → ℕ → Text → Text
itoa_from zero n acc = acc
itoa_from (suc fuel) n acc =
    let longer = (b'0' + n % 10) ∷ acc in
    let rest = itoa_from fuel (n / 10) longer in if n / 10 == 0 then longer else rest

unfoldable pub itoa : ℕ → Text
unfolding itoa_from
itoa n = itoa_from (suc n) n []

-- The value of a numeral, most significant digit first.
atoi_from : ℕ → Text → ℕ
atoi_from acc [] = acc
atoi_from acc (c ∷ s) = atoi_from (acc * 10 + (c - b'0')) s

pub atoi : Text → ℕ
atoi = atoi_from 0

atoi_from-itoa_from :
    (fuel n : ℕ) (acc : Text) → n < fuel → atoi_from 0 (itoa_from fuel n acc) ≡ atoi_from n acc
unfolding atoi_from itoa_from
atoi_from-itoa_from zero n acc h = absurd (omega arith)
atoi_from-itoa_from (suc fuel) n acc h = elim (Bool-cases (n / 10 == 0)) [
  | inl last ↦
      let one : (0 * 10 + ((b'0' + n % 10) - b'0')) ≡ n = ground arith in
      rw last (ap (λ t. atoi_from t acc) one)
  | inr more ↦
      let value : (n / 10) * 10 + ((b'0' + n % 10) - b'0') ≡ n = omega arith in
      rw more (
        atoi_from-itoa_from fuel (n / 10) ((b'0' + n % 10) ∷ acc) (ground arith)
        ∙ ap (λ t. atoi_from t acc) value)
]

-- A numeral determines its number.
pub atoi-itoa : (n : ℕ) → atoi (itoa n) ≡ n
unfolding atoi itoa atoi_from
atoi-itoa n = atoi_from-itoa_from (suc n) n [] (omega arith)

itoa_from_digits :
    (fuel n : ℕ) (acc : Text) → All (λ c. b'0' ≤ c) acc → All (λ c. b'0' ≤ c) (itoa_from fuel n acc)
unfolding itoa_from
itoa_from_digits zero n acc h = h
itoa_from_digits (suc fuel) n acc h = elim (Bool-cases (n / 10 == 0)) [
  | inl last ↦ rw last (omega arith, h)
  | inr more ↦ rw more (itoa_from_digits fuel (n / 10) ((b'0' + n % 10) ∷ acc) (omega arith, h))
]

-- No character of a numeral comes before the digits.
pub itoa_digits : (n : ℕ) → All (λ c. b'0' ≤ c) (itoa n)
unfolding itoa
itoa_digits n = itoa_from_digits (suc n) n [] tt
