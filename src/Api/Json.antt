-- ===== src/Api/Json.antt =====
-- encoding/json and fmt, for the texts that the gateway writes: objects of strings, and the quoting
-- of a text by `%q`; for `%q` a byte of 128 or more is taken to be part of a printable character.
pub mod Reading
pub mod Strings
use decision_gateway.Prelude.{
  ℕ, ◌+◌, ◌-◌, ◌/◌, ◌%◌, Bool, ◌||◌, List, [], ◌∷◌, ◌++◌, leb, ◌==◌, if◌then◌else◌, Text, text,
}
use decision_gateway.Api.Utf8.{codes}

unfoldable pub hex_digit : ℕ → ℕ
hex_digit n = if leb n 9 then b'0' + n else b'a' + (n - 10)

-- `<`, `>`, `&`, U+2028 and U+2029 are escaped, as the encoder does unless told otherwise.
unfoldable pub is_unsafe : ℕ → Bool
is_unsafe c = leb c 31 || c == b'<' || c == b'>' || c == b'&'

-- A code, which is a byte or stands for a character.
unfoldable pub escape : ℕ → Text
unfolding hex_digit is_unsafe
escape c =
    if c == 34 || c == 92
    then 92 ∷ c ∷ []
    else if c == 10
    then text "\\n"
    else if c == 13
    then text "\\r"
    else if c == 9
    then text "\\t"
    else if c == 8232
    then text "\\u2028"
    else if c == 8233
    then text "\\u2029"
    else if c == 65533
    then text "\\ufffd"
    else if is_unsafe c
    then text "\\u00" ++ hex_digit (c / 16) ∷ hex_digit (c % 16) ∷ []
    else c ∷ []

unfoldable pub escape_all : Text → Text
escape_all [] = []
escape_all (c ∷ s) = escape c ++ escape_all s

unfoldable pub json_string : Text → Text
unfolding escape escape_all codes
json_string s = 34 ∷ escape_all (codes s) ++ 34 ∷ []

unfoldable pub json_fields : List (Text × Text) → Text
json_fields [] = text "}"
json_fields ((k, v) ∷ []) = json_string k ++ b':' ∷ json_string v ++ text "}"
json_fields ((k, v) ∷ f ∷ fs) = json_string k ++ b':' ∷ json_string v ++ b',' ∷ json_fields (f ∷ fs)

-- An object of strings, its fields in the order given.
unfoldable pub json_object : List (Text × Text) → Text
unfolding json_fields json_string
json_object fs = b'{' ∷ json_fields fs

unfoldable pub json_items : List Text → Text
json_items [] = text "]"
json_items (v ∷ []) = v ++ text "]"
json_items (v ∷ w ∷ vs) = v ++ b',' ∷ json_items (w ∷ vs)

unfoldable pub json_array : List Text → Text
unfolding json_items
json_array vs = b'[' ∷ json_items vs

go_escape : ℕ → Text
unfolding hex_digit
go_escape c =
    if c == 34 || c == 92
    then 92 ∷ c ∷ []
    else if c == 7
    then text "\\a"
    else if c == 8
    then text "\\b"
    else if c == 12
    then text "\\f"
    else if c == 10
    then text "\\n"
    else if c == 13
    then text "\\r"
    else if c == 9
    then text "\\t"
    else if c == 11
    then text "\\v"
    else if leb c 31 || c == 127
    then text "\\x" ++ hex_digit (c / 16) ∷ hex_digit (c % 16) ∷ []
    else c ∷ []

go_escape_all : Text → Text
go_escape_all [] = []
go_escape_all (c ∷ s) = go_escape c ++ go_escape_all s

-- `%q`
unfoldable pub go_quote : Text → Text
unfolding go_escape go_escape_all
go_quote s = 34 ∷ go_escape_all s ++ 34 ∷ []
