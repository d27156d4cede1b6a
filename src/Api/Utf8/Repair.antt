-- ===== src/Api/Utf8/Repair.antt =====
-- unicode/utf8 and strings: the characters of a text, put together again.
use decision_gateway.Prelude.{
  ℕ, zero, suc, ◌-◌, ◌<◌, ◌≡◌, refl, sym, ap, ◌∙◌, subst, ◌⊎◌, inl, inr, Bool, true, false, not,
  ◌&&◌, List, [], ◌∷◌, ◌++◌, append_assoc, arith, leb, Bool-cases, List-cases, length, drop, All,
  Text, text_eq, text_eq_iff, is_blank,
}
use decision_gateway.Api.Utf8.{
  is_in, is_second, two_bytes, three_bytes, four_bytes, rune, codes_of, scan, codes, spell,
  spell_all, repair, scan_valid, is_utf8,
}

spell_all-append : (cs ds : List ℕ) → spell_all (cs ++ ds) ≡ spell_all cs ++ spell_all ds
unfolding spell_all
spell_all-append [] ds = refl
spell_all-append (c ∷ cs) ds =
    rw (spell_all-append cs ds, append_assoc (spell c) (spell_all cs) (spell_all ds)) refl

-- A character has bytes, and begins the text.
IsRune : ℕ → Text → Text → Type 0
IsRune c s b = All (λ d. d < 256) b × (b ++ drop (length b - 1) s ≡ c ∷ s)

is_in-small : (low c : ℕ) → is_in low 191 c ≡ true → c < 256
unfolding is_in
is_in-small low c h = ground arith

is_second-small : (c d : ℕ) → is_second c d ≡ true → d < 256
unfolding is_second is_in
is_second-small c d h = ground arith

and_split : (a b : Bool) → (a && b) ≡ true → (a ≡ true) × (b ≡ true)
and_split true b h = (refl, h)
and_split false b h = cc h

two_bytes-IsRune : (c : ℕ) (s : Text) → c < 256 → (two_bytes c s ≡ []) ⊎ IsRune c s (two_bytes c s)
unfolding two_bytes IsRune
two_bytes-IsRune c [] small = inl refl
two_bytes-IsRune c (d ∷ s) small = elim (Bool-cases (is_second c d)) [
  | inl fits ↦ inr (rw fits ((small, (is_second-small c d fits, tt)), refl))
  | inr unfit ↦ inl (rw unfit refl)
]

three_bytes-IsRune :
    (c : ℕ) (s : Text) → c < 256 → (three_bytes c s ≡ []) ⊎ IsRune c s (three_bytes c s)
unfolding three_bytes IsRune
three_bytes-IsRune c [] small = inl refl
three_bytes-IsRune c (d ∷ []) small = inl refl
three_bytes-IsRune c (d ∷ e ∷ s) small = elim (Bool-cases (is_second c d && is_in 128 191 e)) [
  | inl fits ↦
      let (fit, tail) = and_split (is_second c d) _ fits in
      inr (rw fits ((small, (is_second-small c d fit, (is_in-small 128 e tail, tt))), refl))
  | inr unfit ↦ inl (rw unfit refl)
]

four_bytes-IsRune :
    (c : ℕ) (s : Text) → c < 256 → (four_bytes c s ≡ []) ⊎ IsRune c s (four_bytes c s)
unfolding four_bytes IsRune
four_bytes-IsRune c [] small = inl refl
four_bytes-IsRune c (d ∷ []) small = inl refl
four_bytes-IsRune c (d ∷ e ∷ []) small = inl refl
four_bytes-IsRune c (d ∷ e ∷ f ∷ s) small =
    elim (Bool-cases (is_second c d && is_in 128 191 e && is_in 128 191 f)) [
      | inl fits ↦
          let (firsts, last) = and_split (is_second c d && is_in 128 191 e) _ fits in
          let (fit, tail) = and_split (is_second c d) _ firsts in
          inr (
            rw fits (
              (
                small,
                (is_second-small c d fit, (is_in-small 128 e tail, (is_in-small 128 f last, tt))),
              ),
              refl,
            ))
      | inr unfit ↦ inl (rw unfit refl)
    ]

ascii-IsRune : (c : ℕ) (s : Text) → leb c 127 ≡ true → IsRune c s (c ∷ [])
unfolding IsRune
ascii-IsRune c s ascii = ((ground (arith, ascii), tt), refl)

rune_cases : (c : ℕ) (s : Text) → (rune c s ≡ []) ⊎ IsRune c s (rune c s)
unfolding rune is_in
rune_cases c s = elim (Bool-cases (leb c 127)) [
  | inl ascii ↦ inr (rw ascii (ascii-IsRune c s ascii))
  | inr high ↦ elim (Bool-cases (is_in 194 223 c)) [
    | inl two ↦ rw (high, two) (two_bytes-IsRune c s (ground (arith, two)))
    | inr other ↦ elim (Bool-cases (is_in 224 239 c)) [
      | inl three ↦ rw (high, other, three) (three_bytes-IsRune c s (ground (arith, three)))
      | inr more ↦ elim (Bool-cases (is_in 240 244 c)) [
        | inl four ↦ rw (high, other, more, four) (four_bytes-IsRune c s (ground (arith, four)))
        | inr neither ↦ inl (rw (high, other, more, neither) refl)
      ]
    ]
  ]
]

spell_small : (c : ℕ) → c < 256 → spell c ≡ c ∷ []
unfolding spell
spell_small c small = ground arith

spell_all-small : (b : Text) → All (λ d. d < 256) b → spell_all b ≡ b
unfolding spell_all
spell_all-small [] h = refl
spell_all-small (c ∷ b) h = rw (spell_small c h.0, spell_all-small b h.1) refl

spell_all-codes_of :
    (c : ℕ) (b : Text) → All (λ d. d < 256) (c ∷ b) → spell_all (codes_of (c ∷ b)) ≡ c ∷ b
unfolding codes_of spell_all spell
spell_all-codes_of c b small = elim (Bool-cases (text_eq (c ∷ b) (226 ∷ 128 ∷ 168 ∷ []))) [
  | inl line ↦ rw line (sym ((text_eq_iff (c ∷ b) (226 ∷ 128 ∷ 168 ∷ [])).0 line))
  | inr other ↦ elim (Bool-cases (text_eq (c ∷ b) (226 ∷ 128 ∷ 169 ∷ []))) [
    | inl paragraph ↦
        rw (other, paragraph) (sym ((text_eq_iff (c ∷ b) (226 ∷ 128 ∷ 169 ∷ [])).0 paragraph))
    | inr plain ↦ rw (other, plain) (spell_all-small (c ∷ b) small)
  ]
]

blank_absurd : (b : Text) → b ≡ [] → not (is_blank b) ≡ true → ⊥
blank_absurd b empty filled = ground arith

-- The characters of a text that has no other bytes spell it.
spell_all-scan : (k : ℕ) (s : Text) → scan_valid k s ≡ true → spell_all (scan k s) ≡ drop k s
unfolding scan scan_valid spell_all IsRune
spell_all-scan zero [] h = refl
spell_all-scan (suc k) [] h = refl
spell_all-scan (suc k) (c ∷ s) h = spell_all-scan k s h
spell_all-scan zero (c ∷ s) h =
    let (filled, after) =
      and_split (not (is_blank (rune c s))) (scan_valid (length (rune c s) - 1) s) h in
    let rest = spell_all-scan (length (rune c s) - 1) s after in
    elim (List-cases (rune c s)) [
      | inl empty ↦ absurd (blank_absurd (rune c s) empty filled)
      | inr (d, b, is) ↦ elim (rune_cases c s) [
        | inl empty ↦ absurd (blank_absurd (rune c s) empty filled)
        | inr (small, begins) ↦
            spell_all-append (codes_of (rune c s)) (scan (length (rune c s) - 1) s)
            ∙ ap (λ t. spell_all (codes_of (rune c s)) ++ t) rest
            ∙ ap (λ t. t ++ drop (length (rune c s) - 1) s)
                (ap (λ r. spell_all (codes_of r)) is
                  ∙ spell_all-codes_of d b (subst (All (λ x. x < 256)) is small)
                  ∙ sym is)
            ∙ begins
      ]
    ]

-- A text of UTF-8 needs no repair.
pub repair_valid : (s : Text) → is_utf8 s ≡ true → repair s ≡ s
unfolding repair is_utf8 codes
repair_valid s h = spell_all-scan 0 s h
