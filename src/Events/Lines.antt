-- ===== src/Events/Lines.antt =====
-- internal/middleware/accesslog.go and bootBoot: one line of stdout for each event.
use decision_gateway.Prelude.{
  ℕ, ◌≡◌, refl, sym, ap, ◌∙◌, List, [], ◌∷◌, ◌++◌, map, append_assoc, append-nil, arith, ◌==◌,
  if◌then◌else◌, All, Text,
}
use mathlib.Core.List.{reverse}
use decision_gateway.World.{World}
use decision_gateway.Events.{Formats, entry_json, boot_json, encode_all, stdout}
use decision_gateway.Events.Printable.{
  IsPrintable, IsFormat, entry_json-IsPrintable, boot_json-IsPrintable,
}

-- A character before the first line.
abbrev before_first : ℕ → List Text → List Text
before_first c [] = (c ∷ []) ∷ []
before_first c (l ∷ ls) = (c ∷ l) ∷ ls

-- The lines of a text, without their ends.
abbrev pub lines : Text → List Text
lines [] = []
lines (c ∷ s) = let rest = lines s in if c == 10 then [] ∷ rest else before_first c rest

lines-append_line : (l s : Text) → IsPrintable l → lines (l ++ 10 ∷ s) ≡ l ∷ lines s
lines-append_line [] s p = refl
lines-append_line (c ∷ l) s p = rw (lines-append_line l s p.1) (ground (arith, p.0))

lines-encode_all :
    (vs : List Text) (s : Text) → All IsPrintable vs → lines (encode_all vs ++ s) ≡ vs ++ lines s
unfolding encode_all
lines-encode_all [] s p = refl
lines-encode_all (v ∷ vs) s p =
    rw
      (
        append_assoc v (10 ∷ encode_all vs) s,
        lines-append_line v (encode_all vs ++ s) p.0,
        lines-encode_all vs s p.1,
      )
      refl

lines_encoded : (vs : List Text) → All IsPrintable vs → lines (encode_all vs) ≡ vs
lines_encoded vs p =
    ap lines (sym (append-nil (encode_all vs))) ∙ lines-encode_all vs [] p ∙ append-nil vs

All-map {ℓ} :
    {A : Type ℓ} (f : A → Text) (l : List A)
    → ((a : A) → IsPrintable (f a))
    → All IsPrintable (map f l)
All-map f [] h = tt
All-map f (a ∷ l) h = (h a, All-map f l h)

-- Whatever the clients send, the output on stdout has exactly one line for the boot event and one
-- for each request that was served, in order, and each is the JSON of its event. The texts of
-- numbers have no control characters.
pub stdout-lines :
    (f : Formats) (s : World)
    → IsFormat f
    → lines (stdout f s)
      ≡ map (boot_json f) (reverse s.boot_log) ++ map (entry_json f) (reverse s.access_log)
unfolding stdout
stdout-lines f s is =
    let boots = map (boot_json f) (reverse s.boot_log) in
    let entries = map (entry_json f) (reverse s.access_log) in
    lines-encode_all boots (encode_all entries)
      (All-map (boot_json f) (reverse s.boot_log) (boot_json-IsPrintable f))
    ∙ ap (λ l. boots ++ l)
        (lines_encoded entries
          (All-map (entry_json f) (reverse s.access_log) (λ e. entry_json-IsPrintable f e is)))
