-- ===== src/Middleware/Uuid/Layout.antt =====
-- The text of a new UUID: five groups of lowercase hex digits with dashes between them, a version
-- and a variant that mark it as random.
use decision_gateway.Prelude.{
  ℕ, zero, suc, ◌+◌, ◌/◌, ◌%◌, ◌<◌, ◌≡◌, refl, sym, ◌∙◌, ◌≢◌, inl, inr, Bool, true, false, some, [],
  ◌∷◌, ◌++◌, arith, ◌==◌, if◌then◌else◌, Option-cases, length, get_elem?, take, drop, All, Text,
  text,
}
use decision_gateway.World.{World, Env}
use decision_gateway.Middleware.Uuid.{
  hex_encode, modify, with_version, with_variant, sentinel, format_uuid, uuid_of_read, new_uuid,
}

-- Two functions that agree on the numbers below a bound, as a test.
agree_below : (ℕ → ℕ) → (ℕ → ℕ) → ℕ → Bool
agree_below f g zero = true
agree_below f g (suc bound) = if f bound == g bound then agree_below f g bound else false

agree_at : (f g : ℕ → ℕ) (bound x : ℕ) → x < bound → agree_below f g bound ≡ true → f x ≡ g x
unfolding agree_below
agree_at f g zero x lt agree = absurd (omega arith)
agree_at f g (suc bound) x lt agree = ground (arith, agree_at f g bound x)

pub with_version-eq : (x : ℕ) → x < 256 → with_version x ≡ 64 + x % 16
unfolding agree_below
with_version-eq x h = agree_at with_version (λ y. 64 + y % 16) 256 x h refl

pub with_variant-eq : (x : ℕ) → x < 256 → with_variant x ≡ 128 + x % 64
unfolding agree_below
with_variant-eq x h = agree_at with_variant (λ y. 128 + y % 64) 256 x h refl

abbrev pub IsByte : ℕ → Type 0
IsByte x = x < 256

-- 16 bytes, as `crypto/rand.Read` fills an array of 16.
abbrev pub IsBlock : Text → Type 0
IsBlock b = (length b ≡ 16) × All IsByte b

abbrev dash : Text
dash = text "-"

-- The layout 8-4-4-4-12 of a block of bytes.
abbrev pub layout : Text → Text
layout b =
    hex_encode (take 4 b)
    ++ dash
    ++ hex_encode (take 2 (drop 4 b))
    ++ dash
    ++ hex_encode (take 2 (drop 6 b))
    ++ dash
    ++ hex_encode (take 2 (drop 8 b))
    ++ dash
    ++ hex_encode (drop 10 b)

-- Version 4 in the high half of byte 6, variant 10 in the high two bits of byte 8.
pub record IsUuid4 (t : Text) : Type 0 where
  pub bytes : Text
  pub block : IsBlock bytes
  pub laid_out : t ≡ layout bytes
  pub version : (x : ℕ) → get_elem? bytes 6 ≡ some x → x / 16 ≡ 4
  pub variant : (x : ℕ) → get_elem? bytes 8 ≡ some x → x / 64 ≡ 2

-- The bytes that are formatted.
abbrev pub stamped : Text → Text
stamped b = modify 8 with_variant (modify 6 with_version b)

pub format_uuid-layout : (b : Text) → length b ≡ 16 → format_uuid b ≡ layout (stamped b)
unfolding format_uuid
format_uuid-layout
      (a0 ∷ a1 ∷ a2 ∷ a3 ∷ a4 ∷ a5 ∷ a6 ∷ a7 ∷ a8 ∷ a9 ∷ a10 ∷ a11 ∷ a12 ∷ a13 ∷ a14 ∷ a15 ∷ []) h =
    refl
format_uuid-layout b h = absurd (omega arith)

stamped-IsBlock : (b : Text) → IsBlock b → IsBlock (stamped b)
unfolding modify
stamped-IsBlock
      (a0 ∷ a1 ∷ a2 ∷ a3 ∷ a4 ∷ a5 ∷ a6 ∷ a7 ∷ a8 ∷ a9 ∷ a10 ∷ a11 ∷ a12 ∷ a13 ∷ a14 ∷ a15 ∷ [])
      (n, h) =
    (n, ground (arith, with_version-eq a6, with_variant-eq a8))
stamped-IsBlock b (n, h) = absurd (omega arith)

stamped_marks :
    (b : Text)
    → IsBlock b
    → ((x : ℕ) → get_elem? (stamped b) 6 ≡ some x → x / 16 ≡ 4)
      × ((x : ℕ) → get_elem? (stamped b) 8 ≡ some x → x / 64 ≡ 2)
unfolding modify
stamped_marks
      (a0 ∷ a1 ∷ a2 ∷ a3 ∷ a4 ∷ a5 ∷ a6 ∷ a7 ∷ a8 ∷ a9 ∷ a10 ∷ a11 ∷ a12 ∷ a13 ∷ a14 ∷ a15 ∷ [])
      (n, h) =
    ((λ x e. ground (arith, with_version-eq a6)), (λ x e. ground (arith, with_variant-eq a8)))
stamped_marks b (n, h) = absurd (omega arith)

-- What is documented of crypto/rand.Read: without an error it fills the array.
pub record IsRandom (env : Env) : Type 0 where
  pub fills : (n : ℕ) (b : Text) → env.rand_read n ≡ some b → IsBlock b

abbrev zero_block : Text
zero_block = 0 ∷ 0 ∷ 0 ∷ 0 ∷ 0 ∷ 0 ∷ 64 ∷ 0 ∷ 128 ∷ 0 ∷ 0 ∷ 0 ∷ 0 ∷ 0 ∷ 0 ∷ 0 ∷ []

sentinel-IsUuid4 : IsUuid4 sentinel
unfolding hex_encode
sentinel-IsUuid4 = record {
  bytes = zero_block;
  block = (refl, omega arith);
  laid_out = refl;
  version = λ x e. ground arith;
  variant = λ x e. ground arith;
}

format_uuid-IsUuid4 : (b : Text) → IsBlock b → IsUuid4 (format_uuid b)
format_uuid-IsUuid4 b block = record {
  bytes = stamped b;
  block = stamped-IsBlock b block;
  laid_out = format_uuid-layout b block.0;
  version = (stamped_marks b block).0;
  variant = (stamped_marks b block).1;
}

-- Whatever the random source does, the new ID is a version 4 UUID in its usual text; the branch
-- with the fixed ID included.
pub new_uuid-IsUuid4 : (env : Env) (s : World) → IsRandom env → IsUuid4 (new_uuid env s).0
unfolding new_uuid uuid_of_read
new_uuid-IsUuid4 env s rand = elim (Option-cases (env.rand_read s.random_reads)) [
  | inl failed ↦ rw failed sentinel-IsUuid4
  | inr (b, read) ↦ rw read (format_uuid-IsUuid4 b (rand.fills s.random_reads b read))
]

pub IsUuid4-ne_nil : {t : Text} → IsUuid4 t → t ≢ []
unfolding hex_encode
IsUuid4-ne_nil u e = layout_ne u.bytes u.block.0 (sym u.laid_out ∙ e)
  where
    layout_ne : (b : Text) → length b ≡ 16 → layout b ≢ []
    layout_ne [] h e = absurd (omega arith)
    layout_ne (a ∷ b) h e = cc
