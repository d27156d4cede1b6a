-- ===== src/Api/Json/Reading.antt =====
-- RFC 8259, as far as encoding/json writes it for the gateway: a reader of strings, and of an object
-- with an array of objects of two strings, in the order and without the spaces of the encoder. It
-- stands beside the encoder, to state what a text means.
use decision_gateway.Prelude.{
  ℕ, zero, suc, ◌+◌, ◌-◌, ◌*◌, ◌&&◌, ◌||◌, Option, none, some, List, [], ◌∷◌, leb, ◌==◌,
  if◌then◌else◌, length, Text, text, text_eq,
}
use decision_gateway.Api.Utf8.{spell}
use decision_gateway.World.{RouteSpec}

-- Where the reader of a string stands: between characters, after a backslash, or before `k` more
-- hexadecimal digits of a character that has `acc` so far.
pub data Place : Type 0 where
  between : Place
  escaped : Place
  digits : ℕ → ℕ → Place

unfoldable pub hex_value : ℕ → Option ℕ
hex_value c =
    if leb b'0' c && leb c b'9'
    then some (c - b'0')
    else if leb b'a' c && leb c b'f'
    then some (c - b'a' + 10)
    else if leb b'A' c && leb c b'F'
    then some (c - b'A' + 10)
    else none

unfoldable pub put : ℕ → Option (Text × Text) → Option (Text × Text)
put c none = none
put c (some (t, rest)) = some (c ∷ t, rest)

-- The character that a letter after a backslash stands for.
unfoldable pub short_escape : ℕ → Option ℕ
short_escape c =
    if c == 34 || c == 92 || c == b'/'
    then some c
    else if c == b'n'
    then some 10
    else if c == b'r'
    then some 13
    else if c == b't'
    then some 9
    else if c == b'b'
    then some 8
    else if c == b'f'
    then some 12
    else none

unfoldable pub put_all : Text → Option (Text × Text) → Option (Text × Text)
unfolding put
put_all [] found = found
put_all (c ∷ s) found = put c (put_all s found)

-- The rest of a string, and what follows its closing quote. A control character is refused, and so
-- is an escaped character that is neither of ASCII nor U+2028, U+2029 or U+FFFD.
unfoldable pub read_from : Place → Text → Option (Text × Text)
unfolding put_all spell
read_from p [] = none
read_from between (c ∷ s) =
    let plain = read_from between s in
    let after = read_from escaped s in
    if c == 34
    then some ([], s)
    else if c == 92
    then after
    else if leb c 31
    then none
    else put c plain
read_from escaped (c ∷ s) =
    let plain = read_from between s in
    let code = read_from (digits 3 0) s in
    if c == b'u' then code else elim (short_escape c) [ none ↦ none | some d ↦ put d plain ]
read_from (digits zero acc) (c ∷ s) = elim (hex_value c) [
  | none ↦ none
  | some d ↦
      let plain = read_from between s in
      let code = acc * 16 + d in
      if leb code 127 || code == 8232 || code == 8233 || code == 65533
      then put_all (spell code) plain
      else none
]
read_from (digits (suc k) acc) (c ∷ s) = elim (hex_value c) [
  | none ↦ none
  | some d ↦ read_from (digits k (acc * 16 + d)) s
]

-- A string with its quotes, and what follows it.
unfoldable pub read_string : Text → Option (Text × Text)
read_string [] = none
read_string (c ∷ s) = if c == 34 then read_from between s else none

-- What follows the given text.
unfoldable pub expect : Text → Text → Option Text
expect [] s = some s
expect (c ∷ t) [] = none
expect (c ∷ t) (d ∷ s) = let rest = expect t s in if c == d then rest else none

-- `{"prefix":…,"backend":…}`
unfoldable pub read_spec : Text → Option (RouteSpec × Text)
unfolding read_string expect
read_spec s = elim (expect (text "{\"prefix\":") s) [
  | none ↦ none
  | some s1 ↦ elim (read_string s1) [
    | none ↦ none
    | some (prefix, s2) ↦ elim (expect (text ",\"backend\":") s2) [
      | none ↦ none
      | some s3 ↦ elim (read_string s3) [
        | none ↦ none
        | some (backend, s4) ↦ elim (expect (text "}") s4) [
          | none ↦ none
          | some s5 ↦ some (record { prefix = prefix; backend = backend }, s5)
        ]
      ]
    ]
  ]
]

unfoldable pub add_spec :
    RouteSpec → Option (List RouteSpec × Text) → Option (List RouteSpec × Text)
add_spec spec none = none
add_spec spec (some (specs, rest)) = some (spec ∷ specs, rest)

-- The specs of a non-empty array after its opening bracket, on fuel.
unfoldable pub read_specs : ℕ → Text → Option (List RouteSpec × Text)
unfolding read_spec add_spec expect
read_specs zero s = none
read_specs (suc n) s = elim (read_spec s) [
  | none ↦ none
  | some (spec, s1) ↦ elim s1 [
    | [] ↦ none
    | c ∷ s2 ↦
        let more = read_specs n s2 in
        if c == b',' then add_spec spec more else if c == b']' then some (spec ∷ [], s2) else none
  ]
]

-- The body of a listing with at least one route, its newline included.
unfoldable pub read_listing : Text → Option (List RouteSpec)
unfolding read_specs expect
read_listing s = elim (expect (text "{\"routes\":[") s) [
  | none ↦ none
  | some s1 ↦ elim (read_specs (length s) s1) [
    | none ↦ none
    | some (specs, rest) ↦ if text_eq rest (b'}' ∷ 10 ∷ []) then some specs else none
  ]
]
