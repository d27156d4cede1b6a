-- ===== src/Gateway/Order.antt =====
-- internal/gateway/router.go: Match on a router that NewRouter built.
use decision_gateway.Prelude.{
  ◌≡◌, ap, ◌∙◌, subst, ◌↔◌, inl, inr, none, some, List, Option-cases, Text, ok,
}
use decision_gateway.Gateway.{Route, Router, match, new_router}
use decision_gateway.Gateway.Validation.{IsTable}
use decision_gateway.Gateway.Construction.{new_router_accepts_iff, new_router-IsRouterOf}
use decision_gateway.Gateway.Matching.{
  IsLongest, IsUnmatched, Selects, match-Selects, IsLongest-unique,
}

module _ (rs : List Route) (router : Router) (built : new_router rs ≡ ok router) where
  is_table : IsTable rs
  is_table = ((new_router_accepts_iff rs).0 (router, built)).1

  verdict : (path : Text) → Selects path rs (match router path)
  verdict path = match-Selects rs router path (new_router-IsRouterOf rs router built)

-- A built router selects a route exactly when it is the route of the given list with the longest
-- prefix that the path has.
pub match-some_iff :
    (rs : List Route) (router : Router) (path : Text) (r : Route)
    → new_router rs ≡ ok router
    → (match router path ≡ some r) ↔ IsLongest path rs r
match-some_iff rs router path r built = (
  (λ e. subst (Selects path rs) e (verdict rs router built path)),
  (λ l. elim (Option-cases (match router path)) [
    | inl missed ↦
        absurd (subst (Selects path rs) missed (verdict rs router built path) r l.listed l.fits)
    | inr (s, found) ↦
        let k : IsLongest path rs s =
          subst (Selects path rs) found (verdict rs router built path) in
        found ∙ ap some (IsLongest-unique (is_table rs router built) k l)
  ]),
)

-- It selects none exactly when no route's prefix fits the path.
pub match-none_iff :
    (rs : List Route) (router : Router) (path : Text)
    → new_router rs ≡ ok router
    → (match router path ≡ none) ↔ IsUnmatched path rs
match-none_iff rs router path built = (
  (λ e. subst (Selects path rs) e (verdict rs router built path)),
  (λ u. elim (Option-cases (match router path)) [
    | inl missed ↦ missed
    | inr (s, found) ↦
        let k : IsLongest path rs s =
          subst (Selects path rs) found (verdict rs router built path) in
        absurd (u s k.listed k.fits)
  ]),
)
