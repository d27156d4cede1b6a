-- ===== src/Gateway/Validation.antt =====
-- internal/gateway/router.go: the checks of NewRouter, against a description of a table.
use decision_gateway.Prelude.{
  ℕ, zero, suc, ◌+◌, ◌<◌, ◌≡◌, refl, sym, ◌∙◌, subst, ◌≢◌, inl, inr, Option, none, some, List, [],
  ◌∷◌, ◌++◌, append_assoc, append-nil, arith, Bool-cases, Option-cases, length, get_elem?, take,
  length-append, take-append, get_elem?-append_mid, get_elem?-append_left, All, All-append,
  All-get_elem?, Text, text_eq, text_eq_iff, blank_cases,
}
use decision_gateway.Net.Url.{Url}
use decision_gateway.Gateway.{
  Route, RouterError, no_routes, empty_prefix, nil_backend, duplicate_prefix, find_seen,
  check_route, validate,
}

-- A prefix to match and a backend to forward to.
abbrev pub IsServable : Route → Type 0
IsServable r = (r.prefix ≢ []) × ((u : Url) × (r.backend ≡ some u))

abbrev pub HasUniquePrefixes : List Route → Type 0
HasUniquePrefixes [] = Unit
HasUniquePrefixes (r ∷ rs) = All (λ s. s.prefix ≢ r.prefix) rs × HasUniquePrefixes rs

pub record IsTable (rs : List Route) : Type 0 where
  pub servable : All IsServable rs
  pub unique : HasUniquePrefixes rs

-- What each error claims of the routes: the index is that of the first route that fails a check.
abbrev pub Explains : List Route → RouterError → Type 0
Explains rs no_routes = rs ≡ []
Explains rs (empty_prefix i) =
    (r : Route) × (get_elem? rs i ≡ some r) × (r.prefix ≡ []) × IsTable (take i rs)
Explains rs (nil_backend i) =
    (r : Route) × (get_elem? rs i ≡ some r)
    × (r.prefix ≢ [])
    × (r.backend ≡ none)
    × IsTable (take i rs)
Explains rs (duplicate_prefix p i j) =
    (r : Route) × (s : Route) × (i < j)
    × (get_elem? rs i ≡ some r)
    × (get_elem? rs j ≡ some s)
    × (r.prefix ≡ p)
    × (s.prefix ≡ p)
    × IsServable s
    × IsTable (take j rs)

HasUniquePrefixes-concat :
    (rs : List Route) (r : Route)
    → HasUniquePrefixes rs
    → All (λ q. q.prefix ≢ r.prefix) rs
    → HasUniquePrefixes (rs ++ r ∷ [])
HasUniquePrefixes-concat [] r u h = (tt, tt)
HasUniquePrefixes-concat (s ∷ rs) r u h = (
  All-append (λ q. q.prefix ≢ s.prefix) rs (r ∷ []) u.0 ((λ e. h.0 (sym e)), tt),
  HasUniquePrefixes-concat rs r u.1 h.1,
)

-- The map `seen` after the routes `done`.
pub record Tracks (seen : List (Text × ℕ)) (done : List Route) : Type 0 where
  found :
      (p : Text) (k : ℕ)
      → find_seen p seen ≡ some k
      → (r : Route) × (get_elem? done k ≡ some r) × (r.prefix ≡ p)
  missed : (p : Text) → find_seen p seen ≡ none → All (λ r. r.prefix ≢ p) done

pub Tracks-nil : Tracks [] []
unfolding find_seen
Tracks-nil = record { found = λ p k h. cc; missed = λ p h. tt }

Tracks-concat :
    (seen : List (Text × ℕ)) (done : List Route) (r : Route)
    → Tracks seen done
    → Tracks ((r.prefix, length done) ∷ seen) (done ++ r ∷ [])
unfolding find_seen
Tracks-concat seen done r t = record {
  found = λ p k h. elim (Bool-cases (text_eq r.prefix p)) [
    | inl e ↦
        let same : length done ≡ k = ground arith in
        rw (← same) (r, get_elem?-append_mid done [] r, (text_eq_iff r.prefix p).0 e)
    | inr e ↦
        let (q, at, eq) = t.found p k (ground arith) in
        (q, (get_elem?-append_left done (r ∷ []) k at).0, eq)
  ];
  missed = λ p h. elim (Bool-cases (text_eq r.prefix p)) [
    | inl e ↦ absurd (ground arith)
    | inr e ↦
        All-append (λ q. q.prefix ≢ p) done (r ∷ []) (t.missed p (ground arith))
          ((λ eq. ground (arith, text_eq_iff r.prefix p)), tt)
  ];
}

Tracked-IsTable :
    {seen : List (Text × ℕ)} {done : List Route} (r : Route)
    → Tracks seen done
    → IsTable done
    → IsServable r
    → find_seen r.prefix seen ≡ none
    → IsTable (done ++ r ∷ [])
Tracked-IsTable {done} r t table good fresh = record {
  servable = All-append IsServable done (r ∷ []) table.servable (good, tt);
  unique = HasUniquePrefixes-concat done r table.unique (t.missed r.prefix fresh);
}

-- A route that fails a check is explained by that check.
check_route-Explains :
    {seen : List (Text × ℕ)} (done rs : List Route) (r : Route) (e : RouterError)
    → Tracks seen done
    → IsTable done
    → check_route seen (length done) r ≡ some e
    → Explains (done ++ r ∷ rs) e
unfolding check_route
check_route-Explains {seen} done rs r e t table h =
    let at = get_elem?-append_mid done rs r in
    let before : IsTable (take (length done) (done ++ r ∷ rs)) =
      rw (take-append done (r ∷ rs)) table in
    elim (blank_cases r.prefix) [
      | inl (empty, blank) ↦
          let same : e ≡ empty_prefix (length done) = ground arith in rw same (r, at, empty, before)
      | inr (filled, nonblank) ↦ elim (Option-cases r.backend) [
        | inl missing ↦
            let same : e ≡ nil_backend (length done) = ground arith in
            rw same (r, at, filled, missing, before)
        | inr (u, present) ↦ elim (Option-cases (find_seen r.prefix seen)) [
          | inl fresh ↦ absurd (ground arith)
          | inr (k, old) ↦
              let same : e ≡ duplicate_prefix r.prefix k (length done) = ground arith in
              let (q, here, eq) = t.found r.prefix k old in
              let (there, lt) = get_elem?-append_left done (r ∷ rs) k here in
              rw same (q, r, lt, there, at, eq, refl, (filled, (u, present)), before)
        ]
      ]
    ]

-- A route that passes is servable and new.
check_route_passes :
    (seen : List (Text × ℕ)) (i : ℕ) (r : Route)
    → check_route seen i r ≡ none
    → IsServable r × (find_seen r.prefix seen ≡ none)
unfolding check_route
check_route_passes seen i r h = elim (blank_cases r.prefix) [
  | inl (empty, blank) ↦ absurd (ground arith)
  | inr (filled, nonblank) ↦ elim (Option-cases r.backend) [
    | inl missing ↦ absurd (ground arith)
    | inr (u, present) ↦ ((filled, (u, present)), ground arith)
  ]
]

-- The verdict of the loop: an explained error, or a table.
abbrev pub Verdict : List Route → Option RouterError → Type 0
Verdict rs none = IsTable rs
Verdict rs (some e) = Explains rs e

validate_passed :
    (seen : List (Text × ℕ)) (i : ℕ) (r : Route) (rs : List Route)
    → check_route seen i r ≡ none
    → validate seen i (r ∷ rs) ≡ validate ((r.prefix, i) ∷ seen) (i + 1) rs
unfolding validate
validate_passed seen i r rs h = ground arith

validate_failed :
    (seen : List (Text × ℕ)) (i : ℕ) (r : Route) (rs : List Route) {e : RouterError}
    → check_route seen i r ≡ some e
    → validate seen i (r ∷ rs) ≡ some e
unfolding validate
validate_failed seen i r rs h = ground arith

pub validate-Verdict :
    (seen : List (Text × ℕ)) (done rs : List Route)
    → Tracks seen done
    → IsTable done
    → Verdict (done ++ rs) (validate seen (length done) rs)
unfolding validate
validate-Verdict seen done [] t table = rw append-nil table
validate-Verdict seen done (r ∷ rs) t table =
    elim (Option-cases (check_route seen (length done) r)) [
      | inl passed ↦
          let (good, fresh) = check_route_passes seen (length done) r passed in
          let rest =
            validate-Verdict ((r.prefix, length done) ∷ seen) (done ++ r ∷ []) rs
              (Tracks-concat seen done r t) (Tracked-IsTable r t table good fresh) in
          let counted : length (done ++ r ∷ []) ≡ length done + 1 =
            omega (arith, length-append done (r ∷ [])) in
          subst (Verdict (done ++ r ∷ rs)) (sym (validate_passed seen (length done) r rs passed))
            (rw (append_assoc, counted) at rest)
      | inr (e, failed) ↦
          subst (Verdict (done ++ r ∷ rs)) (sym (validate_failed seen (length done) r rs failed))
            (check_route-Explains done rs r e t table failed)
    ]

-- A table has no first failing route.
get_elem?-prefix_ne :
    (rs : List Route) (i j : ℕ) {r s : Route}
    → HasUniquePrefixes rs
    → i < j
    → get_elem? rs i ≡ some r
    → get_elem? rs j ≡ some s
    → s.prefix ≢ r.prefix
get_elem?-prefix_ne [] i j u lt a b = cc
get_elem?-prefix_ne (q ∷ rs) i zero u lt a b = absurd (omega arith)
get_elem?-prefix_ne (q ∷ rs) zero (suc j) {r} {s} u lt a b =
    let head : q ≡ r = cc in
    subst (λ x. s.prefix ≢ x.prefix) head (All-get_elem? (λ x. x.prefix ≢ q.prefix) rs j u.0 b)
get_elem?-prefix_ne (q ∷ rs) (suc i) (suc j) u lt a b =
    get_elem?-prefix_ne rs i j u.1 (omega arith) a b

pub not-IsTable_of_Explains :
    (rs : List Route) (e : RouterError) → rs ≢ [] → Explains rs e → ¬ IsTable rs
not-IsTable_of_Explains rs no_routes filled h t = filled h
not-IsTable_of_Explains rs (empty_prefix i) filled (r, at, empty, _) t =
    (All-get_elem? IsServable rs i t.servable at).0 empty
not-IsTable_of_Explains rs (nil_backend i) filled (r, at, _, missing, _) t =
    let (_, (u, present)) = All-get_elem? IsServable rs i t.servable at in cc
not-IsTable_of_Explains rs (duplicate_prefix p i j) filled (r, s, lt, here, there, e, f, _, _) t =
    get_elem?-prefix_ne rs i j t.unique lt here there (f ∙ sym e)
