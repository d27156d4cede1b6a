-- ===== src/Api/Json/Strings.antt =====
-- encoding/json: the strings that the gateway writes, read back.
use decision_gateway.Prelude.{
  ℕ, ◌/◌, ◌%◌, ◌<◌, ◌≡◌, refl, ◌⊎◌, true, false, List, inl, inr, ◌||◌, some, [], ◌∷◌, ◌++◌,
  append_assoc, arith, ◌==◌, Bool-cases, Text, text,
}
use decision_gateway.Api.Json.{
  hex_digit, is_unsafe, escape, escape_all, json_string, json_fields, json_object,
}
use decision_gateway.Api.Utf8.{codes, spell, spell_all, repair}
use decision_gateway.World.{RouteSpec}
use decision_gateway.Api.Json.Reading.{
  between, hex_value, put, put_all, short_escape, read_from, read_string, read_spec,
}

hex_value-hex_digit : (n : ℕ) → n < 16 → hex_value (hex_digit n) ≡ some n
unfolding hex_value hex_digit
hex_value-hex_digit n small = ground arith

named_cases :
    (c : ℕ)
    → (c == 8232 || c == 8233 || c == 65533) ≡ true
    → (c ≡ 8232) ⊎ ((c ≡ 8233) ⊎ (c ≡ 65533))
named_cases c h = ground arith

-- A character in four hexadecimal digits.
read_code :
    (c : ℕ) (s : Text)
    → c < 128
    → read_from between (text "\\u00" ++ hex_digit (c / 16) ∷ hex_digit (c % 16) ∷ s)
      ≡ put c (read_from between s)
unfolding read_from hex_value spell put_all
read_code c s small =
    rw
      (
        hex_value-hex_digit (c / 16) (omega (arith, small)),
        hex_value-hex_digit (c % 16) (omega arith),
      )
      (ground arith)

is_unsafe-small : (c : ℕ) → is_unsafe c ≡ true → c < 128
unfolding is_unsafe
is_unsafe-small c h = ground arith

short_cases :
    (c : ℕ)
    → (c ≡ 10)
      ⊎ ((c ≡ 13) ⊎ ((c ≡ 9) ⊎ ((c == 10) ≡ false) × ((c == 13) ≡ false) × ((c == 9) ≡ false)))
short_cases c = ground arith

wide_absurd :
    (c : ℕ) → c < 128 → ((c == 8232) ≡ false) × ((c == 8233) ≡ false) × ((c == 65533) ≡ false)
wide_absurd c small = ground arith

unsafe_plain : (c : ℕ) → is_unsafe c ≡ true → (c == 34 || c == 92) ≡ false
unfolding is_unsafe
unsafe_plain c h = ground arith

read_unsafe :
    (c : ℕ) (s : Text)
    → is_unsafe c ≡ true
    → read_from between (escape c ++ s) ≡ put_all (spell c) (read_from between s)
unfolding escape read_from short_escape spell put_all
read_unsafe c s unsafe = elim (short_cases c) [
  | inl line ↦ rw line refl
  | inr (inl back) ↦ rw back refl
  | inr (inr (inl tab)) ↦ rw tab refl
  | inr (inr (inr (a, b, d))) ↦
      let small = is_unsafe-small c unsafe in
      let (x, y, z) = wide_absurd c small in
      rw (escape, spell, unsafe_plain c unsafe, a, b, d, x, y, z, unsafe) (read_code c s small)
]

read_escape :
    (c : ℕ) (s : Text) → read_from between (escape c ++ s) ≡ put_all (spell c) (read_from between s)
unfolding escape is_unsafe read_from short_escape spell hex_value
read_escape c s = elim (Bool-cases (c == 34 || c == 92)) [
  | inl quoted ↦ rw (quoted, escape) (ground arith)
  | inr other ↦ elim (Bool-cases (c == 8232 || c == 8233 || c == 65533)) [
    | inl named ↦ elim (named_cases c named) [
      | inl line ↦ rw line refl
      | inr (inl paragraph) ↦ rw paragraph refl
      | inr (inr replacement) ↦ rw replacement refl
    ]
    | inr byte ↦ elim (Bool-cases (is_unsafe c)) [
      | inl unsafe ↦ read_unsafe c s unsafe
      | inr safe ↦ ground arith
    ]
  ]
]

read_close : (rest : Text) → read_from between (34 ∷ rest) ≡ some ([], rest)
unfolding read_from
read_close rest = refl

put_all-append : (s t rest : Text) → put_all s (some (t, rest)) ≡ some (s ++ t, rest)
unfolding put_all
put_all-append [] t rest = refl
put_all-append (c ∷ s) t rest = rw (put_all-append s t rest) refl

read_escape_all :
    (s : List ℕ) (rest : Text)
    → read_from between (escape_all s ++ 34 ∷ rest) ≡ some (spell_all s, rest)
unfolding escape_all spell_all
read_escape_all [] rest = read_close rest
read_escape_all (c ∷ s) rest =
    rw
      (
        append_assoc (escape c) (escape_all s) (34 ∷ rest),
        read_escape c (escape_all s ++ 34 ∷ rest),
        read_escape_all s rest,
      )
      (put_all-append (spell c) (spell_all s) rest)

-- A string that the encoder writes reads back, whatever follows it: it ends where its text ends,
-- with the characters that went in, and U+FFFD for a byte of none.
pub read_string-json_string :
    (s rest : Text) → read_string (json_string s ++ rest) ≡ some (repair s, rest)
unfolding read_string json_string repair
read_string-json_string s rest =
    rw (append_assoc (escape_all (codes s)) (34 ∷ []) rest) (read_escape_all (codes s) rest)

-- A spec as it reads back.
abbrev pub repair_spec : RouteSpec → RouteSpec
repair_spec spec = record { prefix = repair spec.prefix; backend = repair spec.backend }

-- The object that a spec is written as.
abbrev pub spec_object : RouteSpec → Text
spec_object spec = json_object ((text "prefix", spec.prefix) ∷ (text "backend", spec.backend) ∷ [])

spec_object-append :
    (spec : RouteSpec) (rest : Text)
    → spec_object spec ++ rest
      ≡ text "{\"prefix\":"
        ++ (json_string spec.prefix
            ++ (text ",\"backend\":" ++ (json_string spec.backend ++ (text "}" ++ rest))))
unfolding json_object json_fields json_string escape_all escape is_unsafe codes
spec_object-append spec rest =
    rw
      (
        append_assoc (escape_all (codes spec.prefix) ++ 34 ∷ []) _ rest,
        append_assoc (escape_all (codes spec.backend) ++ 34 ∷ []) (text "}") rest,
      )
      refl

pub read_spec-spec_object :
    (spec : RouteSpec) (rest : Text)
    → read_spec (spec_object spec ++ rest) ≡ some (repair_spec spec, rest)
unfolding read_spec
read_spec-spec_object spec rest =
    rw
      (
        spec_object-append spec rest,
        read_spec,
        read_string-json_string spec.prefix
            (text ",\"backend\":" ++ (json_string spec.backend ++ (text "}" ++ rest))),
        read_string-json_string spec.backend (text "}" ++ rest),
      )
      refl
