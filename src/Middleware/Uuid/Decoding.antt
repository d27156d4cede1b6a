-- ===== src/Middleware/Uuid/Decoding.antt =====
-- The text of a UUID, read back: what newUUID keeps of the random bytes.
use decision_gateway.Prelude.{
  ℕ, ◌+◌, ◌-◌, ◌*◌, ◌/◌, ◌%◌, ◌<◌, ◌≡◌, refl, sym, ap, ◌∙◌, false, some, [], ◌∷◌, ◌++◌, append-nil,
  arith, leb, ◌==◌, if◌then◌else◌, All, Text,
}
use decision_gateway.World.{World, Env}
use decision_gateway.Middleware.Uuid.{hex_digit, hex_encode, modify, uuid_of_read, new_uuid}
use decision_gateway.Middleware.Uuid.Layout.{
  IsByte, IsBlock, IsRandom, layout, stamped, format_uuid-layout, with_version-eq, with_variant-eq,
}

-- The value of a lowercase hex digit.
nibble : ℕ → ℕ
nibble c = if leb c b'9' then c - b'0' else c - b'a' + 10

-- The bytes that pairs of hex digits stand for, dashes left out.
pub decode_uuid : Text → Text
unfolding nibble
decode_uuid [] = []
decode_uuid (c ∷ []) = []
decode_uuid (c ∷ d ∷ s) =
    let without = decode_uuid (d ∷ s) in
    let rest = decode_uuid s in if c == b'-' then without else (nibble c * 16 + nibble d) ∷ rest

nibble-hex_digit : (n : ℕ) → n < 16 → nibble (hex_digit n) ≡ n
unfolding nibble hex_digit
nibble-hex_digit n h = ground arith

hex_digit-ne_dash : (n : ℕ) → (hex_digit n == b'-') ≡ false
unfolding hex_digit
hex_digit-ne_dash n = ground arith

decode_uuid-hex_encode :
    (bs t : Text) → All IsByte bs → decode_uuid (hex_encode bs ++ t) ≡ bs ++ decode_uuid t
unfolding hex_encode decode_uuid
decode_uuid-hex_encode [] t h = refl
decode_uuid-hex_encode (b ∷ bs) t h =
    let value : b / 16 * 16 + b % 16 ≡ b = omega arith in
    rw
      (
        decode_uuid,
        hex_digit-ne_dash (b / 16),
        nibble-hex_digit (b / 16) (omega (arith, h.0)),
        nibble-hex_digit (b % 16) (omega arith),
        value,
        decode_uuid-hex_encode bs t h.1,
      )
      refl

decode_uuid-layout : (b : Text) → IsBlock b → decode_uuid (layout b) ≡ b
unfolding hex_encode decode_uuid
decode_uuid-layout
      (a0 ∷ a1 ∷ a2 ∷ a3 ∷ a4 ∷ a5 ∷ a6 ∷ a7 ∷ a8 ∷ a9 ∷ a10 ∷ a11 ∷ a12 ∷ a13 ∷ a14 ∷ a15 ∷ [])
      (n, h) =
    let (h0, (h1, (h2, (h3, (h4, (h5, (h6, (h7, (h8, (h9, rest)))))))))) = h in
    let last = a10 ∷ a11 ∷ a12 ∷ a13 ∷ a14 ∷ a15 ∷ [] in
    let t5 = hex_encode last in
    let t4 = hex_encode (a8 ∷ a9 ∷ []) ++ b'-' ∷ t5 in
    let t3 = hex_encode (a6 ∷ a7 ∷ []) ++ b'-' ∷ t4 in
    let t2 = hex_encode (a4 ∷ a5 ∷ []) ++ b'-' ∷ t3 in
    decode_uuid-hex_encode (a0 ∷ a1 ∷ a2 ∷ a3 ∷ []) (b'-' ∷ t2) (h0, (h1, (h2, (h3, tt))))
    ∙ ap (λ l. a0 ∷ a1 ∷ a2 ∷ a3 ∷ l)
        (decode_uuid-hex_encode (a4 ∷ a5 ∷ []) (b'-' ∷ t3) (h4, (h5, tt))
          ∙ ap (λ l. a4 ∷ a5 ∷ l)
              (decode_uuid-hex_encode (a6 ∷ a7 ∷ []) (b'-' ∷ t4) (h6, (h7, tt))
                ∙ ap (λ l. a6 ∷ a7 ∷ l)
                    (decode_uuid-hex_encode (a8 ∷ a9 ∷ []) (b'-' ∷ t5) (h8, (h9, tt))
                      ∙ ap (λ l. a8 ∷ a9 ∷ l)
                          (ap decode_uuid (sym (append-nil t5))
                            ∙ decode_uuid-hex_encode last [] rest
                            ∙ append-nil last))))
decode_uuid-layout b (n, h) = absurd (omega arith)

-- The random bytes with the version in the high half of byte 6 and the variant in the high two bits
-- of byte 8.
abbrev pub marked : Text → Text
marked b = modify 8 (λ x. 128 + x % 64) (modify 6 (λ x. 64 + x % 16) b)

stamped-marked : (b : Text) → IsBlock b → (stamped b ≡ marked b) × IsBlock (marked b)
unfolding modify
stamped-marked
      (a0 ∷ a1 ∷ a2 ∷ a3 ∷ a4 ∷ a5 ∷ a6 ∷ a7 ∷ a8 ∷ a9 ∷ a10 ∷ a11 ∷ a12 ∷ a13 ∷ a14 ∷ a15 ∷ [])
      (n, h) =
    let (_, (_, (_, (_, (_, (_, (h6, (_, (h8, _))))))))) = h in
    (rw (with_version-eq a6 h6, with_variant-eq a8 h8) refl, (n, ground arith))
stamped-marked b (n, h) = absurd (omega arith)

-- When the random source gives bytes, the new ID reads back as these bytes, but for the four bits of
-- the version and the two of the variant: no other random bit is lost.
pub new_uuid-decodes :
    (env : Env) (s : World) (b : Text)
    → IsRandom env
    → env.rand_read s.random_reads ≡ some b
    → decode_uuid (new_uuid env s).0 ≡ marked b
unfolding new_uuid uuid_of_read
new_uuid-decodes env s b rand read =
    let block = rand.fills s.random_reads b read in
    let (same, is) = stamped-marked b block in
    rw (read, format_uuid-layout b block.0, same) (decode_uuid-layout (marked b) is)
