-- ===== src/Cmd/Flags/Arrow.antt =====
-- cmd/decision-gateway/routes.go: splitArrow, against a description of the first "=>" of a text.
use decision_gateway.Prelude.{
  ℕ, suc, ◌+◌, ◌≡◌, refl, ap, ◌∙◌, ◌↔◌, inl, inr, true, false, none, some, [], ◌∷◌, ◌++◌,
  append_assoc, arith, Bool-cases, Option-cases, length, take, drop, Text, has_prefix,
  has_prefix_iff,
}
use decision_gateway.Cmd.Flags.{index_of, arrow, split_arrow}

-- The text holds "=>" somewhere.
abbrev pub HasArrow : Text → Type 0
HasArrow t = (a : Text) × (b : Text) × (t ≡ a ++ arrow ++ b)

-- `t` is `p`, the first "=>" and `b`.
abbrev pub CutsInto : Text → Text → Text → Type 0
CutsInto t p b = (t ≡ p ++ arrow ++ b) × ¬ HasArrow p

starts_arrow : (t : Text) → has_prefix t arrow ≡ true → t ≡ arrow ++ drop 2 t
unfolding has_prefix
starts_arrow [] h = cc
starts_arrow (c ∷ []) h = absurd (ground arith)
starts_arrow (c ∷ d ∷ t) h = ground arith

no_arrow_in_nil : ¬ HasArrow []
no_arrow_in_nil ([], b, e) = cc
no_arrow_in_nil (c ∷ a, b, e) = cc

-- An arrow that is not at the front is further on.
HasArrow-tail :
    (c : ℕ) (t : Text) → has_prefix (c ∷ t) arrow ≡ false → HasArrow (c ∷ t) → HasArrow t
unfolding has_prefix
HasArrow-tail c t h ([], b, e) = absurd (ground arith)
HasArrow-tail c t h (x ∷ a, b, e) = (a, b, cc)

index_of-none : (t : Text) → index_of arrow t ≡ none → ¬ HasArrow t
unfolding index_of
index_of-none [] h a = no_arrow_in_nil a
index_of-none (c ∷ t) h a = elim (Bool-cases (has_prefix (c ∷ t) arrow)) [
  | inl here ↦ absurd (ground arith)
  | inr later ↦ elim (Option-cases (index_of arrow t)) [
    | inl missed ↦ index_of-none t missed (HasArrow-tail c t later a)
    | inr (i, found) ↦ absurd (ground arith)
  ]
]

prefix-extends : (p u rest : Text) → has_prefix u p ≡ true → has_prefix (u ++ rest) p ≡ true
prefix-extends p u rest h =
    let (more, e) = (has_prefix_iff u p).0 h in
    (has_prefix_iff (u ++ rest) p).1
      (more ++ rest, ap (λ x. x ++ rest) e ∙ append_assoc p more rest)

still_later :
    (c : ℕ) (t u rest : Text)
    → t ≡ u ++ rest
    → has_prefix (c ∷ t) arrow ≡ false
    → has_prefix (c ∷ u) arrow ≡ false
still_later c t u rest e h = elim (Bool-cases (has_prefix (c ∷ u) arrow)) [
  | inl early ↦
      let there : has_prefix (c ∷ t) arrow ≡ true =
        rw e (prefix-extends arrow (c ∷ u) rest early) in
      cc
  | inr later ↦ later
]

index_of-some :
    (t : Text) (i : ℕ) → index_of arrow t ≡ some i → CutsInto t (take i t) (drop (i + 2) t)
unfolding index_of has_prefix
index_of-some [] i h = cc
index_of-some (c ∷ t) i h = elim (Bool-cases (has_prefix (c ∷ t) arrow)) [
  | inl here ↦
      let same : i ≡ 0 = ground arith in rw same (starts_arrow (c ∷ t) here, no_arrow_in_nil)
  | inr later ↦ elim (Option-cases (index_of arrow t)) [
    | inl missed ↦ absurd (ground arith)
    | inr (k, found) ↦
        let same : i ≡ suc k = ground arith in
        let (cut, clean) = index_of-some t k found in
        let counted : suc k + 2 ≡ suc (k + 2) = omega arith in
        let quiet =
          still_later c t (take k t) (arrow ++ drop (k + 2) t)
            (cut ∙ append_assoc (take k t) arrow (drop (k + 2) t)) later in
        rw same (rw counted (ap (◌∷◌ c) cut, λ a. clean (HasArrow-tail c (take k t) quiet a)))
  ]
]

-- With no arrow in `p`, none starts before the end of `p`.
not_yet :
    (c : ℕ) (p b : Text) → ¬ HasArrow (c ∷ p) → has_prefix (c ∷ (p ++ arrow ++ b)) arrow ≡ false
unfolding has_prefix
not_yet c [] b clean = ground arith
not_yet c (d ∷ p) b clean = elim (Bool-cases (has_prefix (c ∷ d ∷ (p ++ arrow ++ b)) arrow)) [
  | inl early ↦ absurd (clean ([], p, ground arith))
  | inr later ↦ later
]

clean_tail : (c : ℕ) (p : Text) → ¬ HasArrow (c ∷ p) → ¬ HasArrow p
clean_tail c p clean (a, b, e) = clean (c ∷ a, b, ap (◌∷◌ c) e)

index_of-append : (p b : Text) → ¬ HasArrow p → index_of arrow (p ++ arrow ++ b) ≡ some (length p)
unfolding index_of has_prefix
index_of-append [] b clean = refl
index_of-append (c ∷ p) b clean =
    rw (not_yet c p b clean, index_of-append p b (clean_tail c p clean)) refl

take-drop :
    (p b : Text)
    → (take (length p) (p ++ arrow ++ b) ≡ p) × (drop (length p + 2) (p ++ arrow ++ b) ≡ b)
take-drop [] b = (refl, refl)
take-drop (c ∷ p) b =
    let (t, d) = take-drop p b in
    let counted : suc (length p) + 2 ≡ suc (length p + 2) = omega arith in
    (ap (◌∷◌ c) t, rw counted d)

-- `split_arrow` returns a prefix and a backend exactly when the text is the two with "=>"
-- between them, and the prefix holds no "=>".
pub split_arrow-some_iff : (t p b : Text) → (split_arrow t ≡ some (p, b)) ↔ CutsInto t p b
unfolding split_arrow
split_arrow-some_iff t p b = (
  (λ h. elim (Option-cases (index_of arrow t)) [
    | inl missed ↦ absurd (ground arith)
    | inr (i, found) ↦
        let front : take i t ≡ p = ground arith in
        let back : drop (i + 2) t ≡ b = ground arith in
        rw (front, back) at (index_of-some t i found)
  ]),
  (λ (e, clean).
      let (front, back) = take-drop p b in
      rw e (rw (index_of-append p b clean, split_arrow) (rw (front, back) refl))),
)

-- `split_arrow` fails exactly on the texts that hold no "=>".
pub split_arrow-none_iff : (t : Text) → (split_arrow t ≡ none) ↔ (¬ HasArrow t)
unfolding split_arrow
split_arrow-none_iff t = (
  (λ h. elim (Option-cases (index_of arrow t)) [
    | inl missed ↦ index_of-none t missed
    | inr (i, found) ↦ absurd (ground arith)
  ]),
  (λ clean. elim (Option-cases (index_of arrow t)) [
    | inl missed ↦ ground arith
    | inr (i, found) ↦ absurd (clean (take i t, drop (i + 2) t, (index_of-some t i found).0))
  ]),
)
