-- ===== src/Api/Utf8.antt =====
-- unicode/utf8 and strings, as encoding/json reads a Go string: its characters, and the bytes that
-- are of none.
pub mod Repair
use decision_gateway.Prelude.{
  ℕ, zero, suc, ◌-◌, Bool, true, not, ◌&&◌, List, [], ◌∷◌, ◌++◌, leb, ◌==◌, if◌then◌else◌, length,
  Text, text_eq, is_blank,
}

is_in : ℕ → ℕ → ℕ → Bool
is_in low high c = leb low c && leb c high

-- The second byte after the given first one.
is_second : ℕ → ℕ → Bool
unfolding is_in
is_second c d =
    if c == 224
    then is_in 160 191 d
    else if c == 237
    then is_in 128 159 d
    else if c == 240
    then is_in 144 191 d
    else if c == 244
    then is_in 128 143 d
    else is_in 128 191 d

two_bytes : ℕ → Text → Text
unfolding is_second
two_bytes c (d ∷ s) = if is_second c d then c ∷ d ∷ [] else []
two_bytes c _ = []

three_bytes : ℕ → Text → Text
unfolding is_second
three_bytes c (d ∷ e ∷ s) = if is_second c d && is_in 128 191 e then c ∷ d ∷ e ∷ [] else []
three_bytes c _ = []

four_bytes : ℕ → Text → Text
unfolding is_second
four_bytes c (d ∷ e ∷ f ∷ s) =
    if is_second c d && is_in 128 191 e && is_in 128 191 f then c ∷ d ∷ e ∷ f ∷ [] else []
four_bytes c _ = []

-- The bytes of the character that begins with `c`, or none if no character does.
rune : ℕ → Text → Text
unfolding two_bytes three_bytes four_bytes
rune c s =
    if leb c 127
    then c ∷ []
    else if is_in 194 223 c
    then two_bytes c s
    else if is_in 224 239 c
    then three_bytes c s
    else if is_in 240 244 c
    then four_bytes c s
    else []

-- The codes of a character: its bytes, but for U+2028, U+2029 and a byte of no character, for which
-- U+FFFD stands.
codes_of : Text → List ℕ
unfolding text_eq
codes_of [] = 65533 ∷ []
codes_of (c ∷ s) =
    if text_eq (c ∷ s) (226 ∷ 128 ∷ 168 ∷ [])
    then 8232 ∷ []
    else if text_eq (c ∷ s) (226 ∷ 128 ∷ 169 ∷ [])
    then 8233 ∷ []
    else c ∷ s

-- After `k` bytes that are of the character before.
scan : ℕ → Text → List ℕ
unfolding rune codes_of
scan k [] = []
scan zero (c ∷ s) = let rest = scan (length (rune c s) - 1) s in codes_of (rune c s) ++ rest
scan (suc k) (c ∷ s) = scan k s

unfoldable pub codes : Text → List ℕ
unfolding scan
codes s = scan 0 s

-- The bytes of a code.
unfoldable pub spell : ℕ → Text
spell c =
    if c == 65533
    then 239 ∷ 191 ∷ 189 ∷ []
    else if c == 8232
    then 226 ∷ 128 ∷ 168 ∷ []
    else if c == 8233
    then 226 ∷ 128 ∷ 169 ∷ []
    else c ∷ []

unfoldable pub spell_all : List ℕ → Text
unfolding spell
spell_all [] = []
spell_all (c ∷ cs) = spell c ++ spell_all cs

-- The text with U+FFFD for each byte that is of no character.
unfoldable pub repair : Text → Text
unfolding codes spell_all
repair s = spell_all (codes s)

scan_valid : ℕ → Text → Bool
unfolding rune
scan_valid k [] = true
scan_valid zero (c ∷ s) =
    let rest = scan_valid (length (rune c s) - 1) s in not (is_blank (rune c s)) && rest
scan_valid (suc k) (c ∷ s) = scan_valid k s

-- `utf8.ValidString`
unfoldable pub is_utf8 : Text → Bool
unfolding scan_valid
is_utf8 s = scan_valid 0 s
