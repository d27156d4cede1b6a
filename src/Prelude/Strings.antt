-- ===== src/Prelude/Strings.antt =====
-- Go strings: lists of bytes. A literal of the source is `text "…"`, all of them ASCII.
use Prim.Native.Nat.{ℕ}
use Prim.Native.Char.{code}
use Prim.Native.String.{String}
use mathlib.Core.Path.{◌≡◌, refl}
use mathlib.Core.Logic.{◌↔◌, ◌⊎◌, ◌≢◌, inl, inr}
use mathlib.Core.Bool.{Bool, true, false, ◌&&◌}
use mathlib.Core.List.{List, [], ◌∷◌, ◌++◌}
use native.Mathlib.Omega.{arith}
use decision_gateway.Prelude.Tests.{◌==◌}

abbrev pub Text : Type 0
Text = List ℕ

abbrev pub text : String → Text
text String.[] = []
text (String.◌∷◌ c s) = code c ∷ text s

-- `s == t`
unfoldable pub text_eq : Text → Text → Bool
text_eq [] [] = true
text_eq [] (_ ∷ _) = false
text_eq (_ ∷ _) [] = false
text_eq (a ∷ s) (b ∷ t) = a == b && text_eq s t

pub text_eq_refl : (s : Text) → text_eq s s ≡ true
unfolding text_eq
text_eq_refl [] = refl
text_eq_refl (a ∷ s) = ground (arith, text_eq_refl s)

eq_of_text_eq : (s t : Text) → text_eq s t ≡ true → s ≡ t
unfolding text_eq
eq_of_text_eq [] [] h = refl
eq_of_text_eq [] (b ∷ t) h = cc
eq_of_text_eq (a ∷ s) [] h = cc
eq_of_text_eq (a ∷ s) (b ∷ t) h = ground (arith, eq_of_text_eq s t)

pub text_eq_iff : (s t : Text) → (text_eq s t ≡ true) ↔ (s ≡ t)
text_eq_iff s t = (eq_of_text_eq s t, λ e. rw e (text_eq_refl t))

-- `s == ""`
abbrev pub is_blank : Text → Bool
is_blank [] = true
is_blank (_ ∷ _) = false

-- `strings.HasPrefix(s, p)`
unfoldable pub has_prefix : Text → Text → Bool
has_prefix s [] = true
has_prefix [] (_ ∷ _) = false
has_prefix (a ∷ s) (b ∷ p) = a == b && has_prefix s p

abbrev pub IsPrefixOf : Text → Text → Type 0
IsPrefixOf p s = (rest : Text) × (s ≡ p ++ rest)

prefix_of_test : (s p : Text) → has_prefix s p ≡ true → IsPrefixOf p s
unfolding has_prefix
prefix_of_test s [] h = (s, refl)
prefix_of_test [] (b ∷ p) h = cc
prefix_of_test (a ∷ s) (b ∷ p) h =
    let (rest, e) = prefix_of_test s p (ground arith) in (rest, ground arith)

test_of_append : (p rest : Text) → has_prefix (p ++ rest) p ≡ true
unfolding has_prefix
test_of_append [] rest = refl
test_of_append (b ∷ p) rest = ground (arith, test_of_append p rest)

pub has_prefix_iff : (s p : Text) → (has_prefix s p ≡ true) ↔ IsPrefixOf p s
has_prefix_iff s p = (prefix_of_test s p, λ (rest, e). rw e (test_of_append p rest))

pub blank_cases : (s : Text) → ((s ≡ []) × (is_blank s ≡ true)) ⊎ ((s ≢ []) × (is_blank s ≡ false))
blank_cases [] = inl (refl, refl)
blank_cases (a ∷ s) = inr ((λ e. cc), refl)
