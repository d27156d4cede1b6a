-- ===== src/Gateway/Rebuilding.antt =====
-- internal/gateway/router.go: NewRouter on the routes of a router.
use decision_gateway.Prelude.{
  ◌≤◌, ◌≡◌, refl, sym, ap, ◌∙◌, ◌≢◌, inl, inr, List, [], ◌∷◌, arith, leb, leb_iff, Bool-cases,
  Option-cases, length, All, ok,
}
use decision_gateway.Gateway.{Route, Router, insert_route, sort_routes, validate, new_router}
use decision_gateway.Gateway.Validation.{IsServable, HasUniquePrefixes, IsTable}
use decision_gateway.Gateway.Sorting.{IsDescending, sort_routes-perm, All-perm, insert_route-perm}
use decision_gateway.Gateway.Construction.{
  new_router_accepts_iff, new_router-IsRouterOf, new_router_passed,
}

insert_route_unique :
    (r : Route) (rs : List Route)
    → All (λ q. q.prefix ≢ r.prefix) rs
    → HasUniquePrefixes rs
    → HasUniquePrefixes (insert_route r rs)
unfolding insert_route
insert_route_unique r [] new u = (tt, tt)
insert_route_unique r (s ∷ rs) new u = elim (Bool-cases (leb (length s.prefix) (length r.prefix))) [
  | inl h ↦ rw h (new, u)
  | inr h ↦ rw h (
    All-perm (λ q. q.prefix ≢ s.prefix) (insert_route-perm r rs) ((λ e. new.0 (sym e)), u.0),
    insert_route_unique r rs new.1 u.1,
  )
]

sort_routes_unique : (rs : List Route) → HasUniquePrefixes rs → HasUniquePrefixes (sort_routes rs)
unfolding sort_routes
sort_routes_unique [] u = tt
sort_routes_unique (r ∷ rs) u =
    insert_route_unique r (sort_routes rs)
      (All-perm (λ q. q.prefix ≢ r.prefix) (sort_routes-perm rs) u.0) (sort_routes_unique rs u.1)

-- A route that is not shorter than the first of a sorted list goes to its front.
insert_route-front :
    (r : Route) (rs : List Route)
    → All (λ s. length s.prefix ≤ length r.prefix) rs
    → insert_route r rs ≡ r ∷ rs
unfolding insert_route
insert_route-front r [] d = refl
insert_route-front r (s ∷ rs) d = rw ((leb_iff _ _).1 d.0) refl

sort_routes_sorted : (rs : List Route) → IsDescending rs → sort_routes rs ≡ rs
unfolding sort_routes
sort_routes_sorted [] d = refl
sort_routes_sorted (r ∷ rs) d = rw (sort_routes_sorted rs d.1) (insert_route-front r rs d.0)

new_router-sorts :
    (rs : List Route) (router : Router) → new_router rs ≡ ok router → router.routes ≡ sort_routes rs
unfolding new_router
new_router-sorts [] router e = absurd (cc e)
new_router-sorts (r ∷ rs) router e = elim (Option-cases (validate [] 0 (r ∷ rs))) [
  | inl passed ↦
      let made : ok (record { routes = sort_routes (r ∷ rs) }) ≡ ok router =
        sym (new_router_passed rs r passed) ∙ e in
      cc made
  | inr (x, failed) ↦ absurd (ground arith)
]

sort_routes-ne_nil : (rs : List Route) → rs ≢ [] → sort_routes rs ≢ []
unfolding sort_routes insert_route
sort_routes-ne_nil [] filled = absurd (filled refl)
sort_routes-ne_nil (r ∷ rs) filled = go (sort_routes rs)
  where
    go : (l : List Route) → insert_route r l ≢ []
    go [] e = cc e
    go (s ∷ l) e = ground arith

-- The routes of a router that `new_router` returned build the same router.
pub new_router-routes :
    (rs : List Route) (router : Router)
    → new_router rs ≡ ok router
    → new_router router.routes ≡ ok router
new_router-routes rs router e =
    let (filled, table) = (new_router_accepts_iff rs).0 (router, e) in
    let is = new_router-IsRouterOf rs router e in
    let sorted = new_router-sorts rs router e in
    let again : IsTable router.routes = record {
      servable = All-perm IsServable is.same table.servable;
      unique = rw sorted (sort_routes_unique rs table.unique);
    } in
    let (second, built) =
      (new_router_accepts_iff router.routes).1 (rw sorted (sort_routes-ne_nil rs filled), again) in
    let same : second.routes ≡ router.routes =
      new_router-sorts router.routes second built
      ∙ sort_routes_sorted router.routes is.descending in
    built ∙ ap (λ l. ok (record { routes = l })) same
