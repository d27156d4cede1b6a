-- ===== src/Cmd/Flags/Parsing.antt =====
-- cmd/decision-gateway/routes.go: parseRouteFlags, against a description of what a spec names.
use decision_gateway.Prelude.{
  ◌≡◌, refl, sym, ap, subst, ◌≢◌, ◌↔◌, inl, inr, false, none, some, List, [], ◌∷◌, arith,
  Bool-cases, Option-cases, Text, text, is_blank, blank_cases, has_prefix, IsPrefixOf,
  has_prefix_iff, Outcome, ok, err, panic, Outcome-cases,
}
use decision_gateway.Net.Url.{Url}
use decision_gateway.Gateway.{Route}
use decision_gateway.World.{Env}
use decision_gateway.Cmd.Flags.{
  FlagError, RouteFlagList, split_arrow, check_backend, parse_spec, parse_specs, parse_route_flags,
  route_required, missing_arrow, prefix_is_empty, prefix_without_slash, invalid_url, missing_scheme,
  missing_host,
}
use decision_gateway.Cmd.Flags.Arrow.{
  CutsInto, HasArrow, split_arrow-some_iff, split_arrow-none_iff,
}

-- A spec names the route: the text before its first "=>" is the prefix, which is rooted, and the
-- text after it parses as a URL with a scheme and a host.
pub record Names (env : Env) (spec : Text) (r : Route) : Type 0 where
  pub backend : Text
  pub cut : CutsInto spec r.prefix backend
  pub rooted : IsPrefixOf (text "/") r.prefix
  pub url : Url
  pub parsed : env.parse_url backend ≡ some url
  pub scheme : url.scheme ≢ []
  pub host : url.host ≢ []
  pub kept : r.backend ≡ some url

-- Why a spec is refused: the first check that fails.
abbrev pub Refuses : Env → Text → FlagError → Type 0
Refuses env spec route_required = ⊥
Refuses env spec (missing_arrow t) = (t ≡ spec) × ¬ HasArrow spec
Refuses env spec (prefix_is_empty t) = (t ≡ spec) × ((b : Text) × CutsInto spec [] b)
Refuses env spec (prefix_without_slash t) =
    (t ≡ spec)
    × ((p : Text) × (b : Text) × CutsInto spec p b × (p ≢ []) × ¬ IsPrefixOf (text "/") p)
Refuses env spec (invalid_url t b) =
    (t ≡ spec)
    × ((p : Text) × CutsInto spec p b × IsPrefixOf (text "/") p × (env.parse_url b ≡ none))
Refuses env spec (missing_scheme t b) =
    (t ≡ spec)
    × ((p : Text) × (u : Url) × CutsInto spec p b
        × IsPrefixOf (text "/") p
        × (env.parse_url b ≡ some u)
        × (u.scheme ≡ []))
Refuses env spec (missing_host t b) =
    (t ≡ spec)
    × ((p : Text) × (u : Url) × CutsInto spec p b
        × IsPrefixOf (text "/") p
        × (env.parse_url b ≡ some u)
        × (u.scheme ≢ [])
        × (u.host ≡ []))

abbrev pub Verdict : Env → Text → Outcome FlagError Route → Type 0
Verdict env spec (ok r) = Names env spec r
Verdict env spec (err e) = Refuses env spec e
Verdict env spec panic = ⊥

module _ (env : Env) (spec prefix backend : Text) (cut : CutsInto spec prefix backend)
    (rooted : IsPrefixOf (text "/") prefix) where
  check_url-Verdict :
      (u : Url)
      → env.parse_url backend ≡ some u
      → Verdict env spec (check_backend spec prefix backend (some u))
  unfolding check_backend
  check_url-Verdict u parsed = elim (blank_cases (u.scheme)) [
    | inl (empty, test) ↦ rw test (refl, (prefix, u, cut, rooted, parsed, empty))
    | inr (scheme, test) ↦ elim (blank_cases (u.host)) [
      | inl (empty, test') ↦
          rw (test, test') (refl, (prefix, u, cut, rooted, parsed, scheme, empty))
      | inr (host, test') ↦
          rw (test, test')
            (record {
              backend = backend;
              cut = cut;
              rooted = rooted;
              url = u;
              parsed = parsed;
              scheme = scheme;
              host = host;
              kept = refl;
            })
    ]
  ]

  check_backend-Verdict :
      Verdict env spec (check_backend spec prefix backend (env.parse_url backend))
  unfolding check_backend
  check_backend-Verdict = elim (Option-cases (env.parse_url backend)) [
    | inl failed ↦ rw failed (refl, (prefix, cut, rooted, failed))
    | inr (u, parsed) ↦ rw parsed (check_url-Verdict u parsed)
  ]

-- `parse_spec` gives the route that the spec names, or the first check that the spec fails.
pub parse_spec-Verdict : (env : Env) (spec : Text) → Verdict env spec (parse_spec env spec)
unfolding parse_spec
parse_spec-Verdict env spec = elim (Option-cases (split_arrow spec)) [
  | inl missed ↦ rw (missed, parse_spec) (refl, (split_arrow-none_iff spec).0 missed)
  | inr ((prefix, backend), found) ↦
      let cut = (split_arrow-some_iff spec prefix backend).0 found in
      elim (blank_cases prefix) [
        | inl (empty, test) ↦
            rw (found, parse_spec, test)
              (refl, (backend, subst (λ p. CutsInto spec p backend) empty cut))
        | inr (filled, test) ↦ elim (Bool-cases (has_prefix prefix (text "/"))) [
          | inl rooted ↦
              rw (found, parse_spec, test, rooted)
                (check_backend-Verdict env spec prefix backend cut
                  ((has_prefix_iff prefix (text "/")).0 rooted))
          | inr bare ↦
              rw (found, parse_spec, test, bare)
                (
                  refl,
                  (
                    prefix,
                    backend,
                    cut,
                    filled,
                    λ p. let there = (has_prefix_iff prefix (text "/")).1 p in cc,
                  ),
                )
        ]
      ]
]

not_blank : (t : Text) → t ≢ [] → is_blank t ≡ false
not_blank [] ne = absurd (ne refl)
not_blank (a ∷ t) ne = refl

pub rooted_filled : (p : Text) → IsPrefixOf (text "/") p → p ≢ []
rooted_filled p (rest, e) h = cc

parse_spec_of_Names :
    (env : Env) (spec : Text) (r : Route) → Names env spec r → parse_spec env spec ≡ ok r
unfolding parse_spec check_backend
parse_spec_of_Names env spec r n =
    let found = (split_arrow-some_iff spec r.prefix n.backend).1 n.cut in
    let filled = not_blank r.prefix (rooted_filled r.prefix n.rooted) in
    let slash = (has_prefix_iff r.prefix (text "/")).1 n.rooted in
    let has_scheme = not_blank n.url.scheme n.scheme in
    let has_host = not_blank n.url.host n.host in
    let same : (record { prefix = r.prefix; backend = some n.url }) ≡ r =
      ap (λ b. record r { backend = b }) (sym n.kept) in
    rw (found, parse_spec, filled, slash, n.parsed, has_scheme, has_host) (ap ok same)

-- The specs name the routes, in order.
abbrev pub AllName : Env → List Text → List Route → Type 0
AllName env [] [] = Unit
AllName env (spec ∷ specs) (r ∷ rs) = Names env spec r × AllName env specs rs
AllName env _ _ = ⊥

parse_specs_of_AllName :
    (env : Env) (specs : List Text) (rs : List Route)
    → AllName env specs rs
    → parse_specs env specs ≡ ok rs
unfolding parse_specs
parse_specs_of_AllName env [] [] n = refl
parse_specs_of_AllName env [] (r ∷ rs) n = elim n [ ]
parse_specs_of_AllName env (spec ∷ specs) [] n = elim n [ ]
parse_specs_of_AllName env (spec ∷ specs) (r ∷ rs) (n, ns) =
    rw (parse_spec_of_Names env spec r n, parse_specs_of_AllName env specs rs ns) refl

AllName-of_parse_specs :
    (env : Env) (specs : List Text) (rs : List Route)
    → parse_specs env specs ≡ ok rs
    → AllName env specs rs
unfolding parse_specs
AllName-of_parse_specs env [] [] e = tt
AllName-of_parse_specs env [] (r ∷ rs) e = cc
AllName-of_parse_specs env (spec ∷ specs) rs e = elim (Outcome-cases (parse_spec env spec)) [
  | inl (r, found) ↦ elim (Outcome-cases (parse_specs env specs)) [
    | inl (rs', rest) ↦
        let same : rs ≡ r ∷ rs' = ground arith in
        rw same (
          subst (Verdict env spec) found (parse_spec-Verdict env spec),
          AllName-of_parse_specs env specs rs' rest,
        )
    | inr (inl (x, failed)) ↦ absurd (ground arith)
    | inr (inr fell) ↦ absurd (ground arith)
  ]
  | inr (inl (x, failed)) ↦ absurd (ground arith)
  | inr (inr fell) ↦ absurd (ground arith)
]

-- The flags give a list of routes exactly when there is at least one flag and the specs name these
-- routes, one each and in order.
pub parse_route_flags_iff :
    (env : Env) (flags : RouteFlagList) (rs : List Route)
    → (parse_route_flags env flags ≡ ok rs) ↔ ((flags ≢ []) × AllName env flags rs)
unfolding parse_route_flags
parse_route_flags_iff env [] rs = ((λ e. cc), λ (filled, _). absurd (filled refl))
parse_route_flags_iff env (spec ∷ specs) rs = (
  (λ e. ((λ h. cc), AllName-of_parse_specs env (spec ∷ specs) rs e)),
  (λ (_, n). parse_specs_of_AllName env (spec ∷ specs) rs n),
)

parse_specs_returns : (env : Env) (specs : List Text) → parse_specs env specs ≢ panic
unfolding parse_specs
parse_specs_returns env [] e = cc
parse_specs_returns env (spec ∷ specs) e = elim (Outcome-cases (parse_spec env spec)) [
  | inl (r, found) ↦ elim (Outcome-cases (parse_specs env specs)) [
    | inl (rs, rest) ↦ ground arith
    | inr (inl (x, failed)) ↦ ground arith
    | inr (inr fell) ↦ parse_specs_returns env specs fell
  ]
  | inr (inl (x, failed)) ↦ ground arith
  | inr (inr fell) ↦ subst (Verdict env spec) fell (parse_spec-Verdict env spec)
]

pub parse_route_flags_returns :
    (env : Env) (flags : RouteFlagList) → parse_route_flags env flags ≢ panic
unfolding parse_route_flags
parse_route_flags_returns env [] e = cc
parse_route_flags_returns env (spec ∷ specs) e = parse_specs_returns env (spec ∷ specs) e
