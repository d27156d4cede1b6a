-- ===== src/Gateway/Matching.antt =====
-- internal/gateway/router.go: Match, against a description of the longest prefix over the given
-- routes.
use decision_gateway.Prelude.{
  ◌≤◌, ◌≡◌, refl, sym, ap, ◌∙◌, subst, ◌≢◌, inl, inr, Option, none, some, List, [], ◌∷◌, ◌++◌, Memᴰ,
  Permᴰ, arith, Bool-cases, length, Memᴰ-perm, All-mem, Text, has_prefix, IsPrefixOf,
  has_prefix_iff,
}
use mathlib.Core.List.Permᴰ
use decision_gateway.Gateway.{Route, Router, match_first, match}
use decision_gateway.Gateway.Validation.{IsTable, HasUniquePrefixes}
use decision_gateway.Gateway.Sorting.{IsDescending}
use decision_gateway.Gateway.Construction.{IsRouterOf}

-- `r` is a route of the table whose prefix the path has, and no longer prefix fits the path.
pub record IsLongest (path : Text) (rs : List Route) (r : Route) : Type 0 where
  pub listed : Memᴰ r rs
  pub fits : IsPrefixOf r.prefix path
  pub longest :
      (s : Route) → Memᴰ s rs → IsPrefixOf s.prefix path → length s.prefix ≤ length r.prefix

-- No route of the table fits the path.
abbrev pub IsUnmatched : Text → List Route → Type 0
IsUnmatched path rs = (s : Route) → Memᴰ s rs → ¬ IsPrefixOf s.prefix path

IsLongest-cons :
    {path : Text} {rs : List Route} {r : Route} (s : Route)
    → ¬ IsPrefixOf s.prefix path
    → IsLongest path rs r
    → IsLongest path (s ∷ rs) r
IsLongest-cons {path} {rs} {r} s misses l = record {
  listed = Memᴰ.tail l.listed;
  fits = l.fits;
  longest = λ q m fits. later q m fits;
}
  where
    later :
        (q : Route) → Memᴰ q (s ∷ rs) → IsPrefixOf q.prefix path → length q.prefix ≤ length r.prefix
    later q (Memᴰ.head e) fits = absurd (misses (subst (λ x. IsPrefixOf x.prefix path) e fits))
    later q (Memᴰ.tail m) fits = l.longest q m fits

IsLongest-head :
    {path : Text} {rs : List Route} (r : Route)
    → IsPrefixOf r.prefix path
    → IsDescending (r ∷ rs)
    → IsLongest path (r ∷ rs) r
IsLongest-head {rs} r fits d = record {
  listed = Memᴰ.head refl;
  fits = fits;
  longest =
      λ s m _. All-mem (λ s. length s.prefix ≤ length r.prefix) {l = r ∷ rs} (omega arith, d.0) m;
}

-- The verdict of the loop of `match` over a descending list.
abbrev pub Selects : Text → List Route → Option Route → Type 0
Selects path rs none = IsUnmatched path rs
Selects path rs (some r) = IsLongest path rs r

Selects-cons :
    (path : Text) (rs : List Route) (r : Route) (found : Option Route)
    → ¬ IsPrefixOf r.prefix path
    → Selects path rs found
    → Selects path (r ∷ rs) found
Selects-cons path rs r none misses h = unmatched
  where
    unmatched : IsUnmatched path (r ∷ rs)
    unmatched s (Memᴰ.head e) fits = misses (subst (λ x. IsPrefixOf x.prefix path) e fits)
    unmatched s (Memᴰ.tail m) fits = h s m fits
Selects-cons path rs r (some s) misses h = IsLongest-cons r misses h

match_first-Selects :
    (path : Text) (rs : List Route) → IsDescending rs → Selects path rs (match_first path rs)
unfolding match_first
match_first-Selects path [] d = λ s m. absurd (no_member m)
  where
    no_member : {s : Route} → Memᴰ s [] → ⊥
    no_member m = elim m [ ]
match_first-Selects path (r ∷ rs) d = elim (Bool-cases (has_prefix path r.prefix)) [
  | inl fits ↦ rw fits (IsLongest-head r ((has_prefix_iff path r.prefix).0 fits) d)
  | inr misses ↦
      let apart : ¬ IsPrefixOf r.prefix path = λ p. cc ((has_prefix_iff path r.prefix).1 p) in
      rw misses
        (Selects-cons path rs r (match_first path rs) apart (match_first-Selects path rs d.1))
]

-- Two prefixes of one path that are equally long are equal.
prefix_unique :
    (p q path : Text) → IsPrefixOf p path → IsPrefixOf q path → length p ≡ length q → p ≡ q
prefix_unique [] [] path h k e = refl
prefix_unique [] (b ∷ q) path h k e = absurd (omega arith)
prefix_unique (a ∷ p) [] path h k e = absurd (omega arith)
prefix_unique (a ∷ p) (b ∷ q) [] (x, h) k e = cc
prefix_unique (a ∷ p) (b ∷ q) (c ∷ path) (x, h) (y, k) e =
    let h' : path ≡ p ++ x = cc in
    let k' : path ≡ q ++ y = cc in
    let same = prefix_unique p q path (x, h') (y, k') (omega arith) in let head : a ≡ b = cc in cc

-- A table names each prefix once.
pub same_route :
    (rs : List Route) {r s : Route}
    → HasUniquePrefixes rs
    → Memᴰ r rs
    → Memᴰ s rs
    → r.prefix ≡ s.prefix
    → r ≡ s
same_route [] u m n same = elim m [ ]
same_route (q ∷ rs) u (Memᴰ.head e) (Memᴰ.head f) same = e ∙ sym f
same_route (q ∷ rs) {r} {s} u (Memᴰ.head e) (Memᴰ.tail m) same =
    absurd (All-mem (λ x. x.prefix ≢ q.prefix) u.0 m (sym same ∙ ap (λ x. x.prefix) e))
same_route (q ∷ rs) {r} {s} u (Memᴰ.tail m) (Memᴰ.head e) same =
    absurd (All-mem (λ x. x.prefix ≢ q.prefix) u.0 m (same ∙ ap (λ x. x.prefix) e))
same_route (q ∷ rs) u (Memᴰ.tail m) (Memᴰ.tail n) same = same_route rs u.1 m n same

pub IsLongest-unique :
    {path : Text} {rs : List Route} {r s : Route}
    → IsTable rs
    → IsLongest path rs r
    → IsLongest path rs s
    → r ≡ s
IsLongest-unique {path} {rs} {r} {s} t l k =
    let le = k.longest r l.listed l.fits in
    let ge = l.longest s k.listed k.fits in
    same_route rs t.unique l.listed k.listed
      (prefix_unique r.prefix s.prefix path l.fits k.fits (omega arith))

module _ (path : Text) {l rs : List Route} (p : Permᴰ l rs) where
  IsLongest-perm : {r : Route} → IsLongest path l r → IsLongest path rs r
  IsLongest-perm k = record {
    listed = Memᴰ-perm p k.listed;
    fits = k.fits;
    longest = λ s m. k.longest s (Memᴰ-perm (Permᴰ.symm p) m);
  }

  Selects-perm : (found : Option Route) → Selects path l found → Selects path rs found
  Selects-perm none h = λ s m. h s (Memᴰ-perm (Permᴰ.symm p) m)
  Selects-perm (some r) h = IsLongest-perm h

pub match-Selects :
    (rs : List Route) (router : Router) (path : Text)
    → IsRouterOf rs router
    → Selects path rs (match router path)
unfolding match
match-Selects rs router path built =
    Selects-perm path built.same (match_first path router.routes)
      (match_first-Selects path router.routes built.descending)

match_first-listed :
    (path : Text) (rs : List Route) {r : Route} → match_first path rs ≡ some r → Memᴰ r rs
unfolding match_first
match_first-listed path [] e = cc
match_first-listed path (q ∷ rs) e = elim (Bool-cases (has_prefix path q.prefix)) [
  | inl fits ↦ Memᴰ.head (ground arith)
  | inr misses ↦ Memᴰ.tail (match_first-listed path rs (ground arith))
]

pub match-listed :
    (router : Router) (path : Text) {r : Route} → match router path ≡ some r → Memᴰ r router.routes
unfolding match
match-listed router path e = match_first-listed path router.routes e
