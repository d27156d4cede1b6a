-- ===== src/Middleware/Uuid.antt =====
-- internal/middleware/correlationid.go: newUUID. Byte arrays are lists of numbers below 256.
pub mod Layout
pub mod Decoding
use decision_gateway.Prelude.{
  ℕ, zero, suc, ◌+◌, ◌-◌, ◌/◌, ◌%◌, Option, none, some, [], ◌∷◌, leb, if◌then◌else◌, take, drop,
  Text, text,
}
use Prim.Native.Nat.{bit_and, bit_or}
use decision_gateway.World.{World, Env}

-- encoding/hex
pub hex_digit : ℕ → ℕ
hex_digit n = if leb n 9 then b'0' + n else b'a' + (n - 10)

pub hex_encode : Text → Text
unfolding hex_digit
hex_encode [] = []
hex_encode (b ∷ bs) = hex_digit (b / 16) ∷ hex_digit (b % 16) ∷ hex_encode bs

-- `copy(dst[i:], src)`, within the length of `dst`
write_at : ℕ → Text → Text → Text
write_at zero [] dst = dst
write_at zero (c ∷ src) [] = []
write_at zero (c ∷ src) (d ∷ dst) = c ∷ write_at zero src dst
write_at (suc i) src [] = []
write_at (suc i) src (d ∷ dst) = d ∷ write_at i src dst

-- `b[lo:hi]`
slice : ℕ → ℕ → Text → Text
slice lo hi b = take (hi - lo) (drop lo b)

-- `b[i] = f(b[i])`
pub modify : ℕ → (ℕ → ℕ) → Text → Text
modify i f [] = []
modify zero f (x ∷ b) = f x ∷ b
modify (suc i) f (x ∷ b) = x ∷ modify i f b

abbrev pub with_version : ℕ → ℕ
with_version x = bit_or (bit_and x 0x0f) 0x40

abbrev pub with_variant : ℕ → ℕ
with_variant x = bit_or (bit_and x 0x3f) 0x80

-- `make([]byte, 36)`
abbrev blank_text : Text
blank_text =
    0 ∷ 0 ∷ 0 ∷ 0 ∷ 0 ∷ 0 ∷ 0 ∷ 0 ∷ 0 ∷ 0 ∷ 0 ∷ 0 ∷ 0 ∷ 0 ∷ 0 ∷ 0 ∷ 0 ∷ 0 ∷ 0 ∷ 0 ∷ 0 ∷ 0 ∷ 0 ∷ 0
    ∷ 0 ∷ 0 ∷ 0 ∷ 0 ∷ 0 ∷ 0 ∷ 0 ∷ 0 ∷ 0 ∷ 0 ∷ 0 ∷ 0 ∷ []

abbrev pub sentinel : Text
sentinel = text "00000000-0000-4000-8000-000000000000"

-- The part of newUUID after a successful read.
pub format_uuid : Text → Text
unfolding hex_encode write_at slice modify
format_uuid read =
    let b = modify 8 with_variant (modify 6 with_version read) in
    let d1 = write_at 0 (hex_encode (slice 0 4 b)) blank_text in
    let d2 = write_at 8 (text "-") d1 in
    let d3 = write_at 9 (hex_encode (slice 4 6 b)) d2 in
    let d4 = write_at 13 (text "-") d3 in
    let d5 = write_at 14 (hex_encode (slice 6 8 b)) d4 in
    let d6 = write_at 18 (text "-") d5 in
    let d7 = write_at 19 (hex_encode (slice 8 10 b)) d6 in
    let d8 = write_at 23 (text "-") d7 in write_at 24 (hex_encode (slice 10 16 b)) d8

unfoldable pub uuid_of_read : Option Text → Text
uuid_of_read none = sentinel
uuid_of_read (some b) = format_uuid b

unfoldable pub new_uuid : Env → World → Text × World
unfolding uuid_of_read format_uuid
new_uuid env s =
    (uuid_of_read (env.rand_read s.random_reads), record s { random_reads = s.random_reads + 1 })
