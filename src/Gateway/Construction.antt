-- ===== src/Gateway/Construction.antt =====
-- internal/gateway/router.go: NewRouter as a whole, on each of its outcomes.
use decision_gateway.Prelude.{
  ℕ, ◌≡◌, refl, sym, subst, ◌≢◌, ◌↔◌, inl, inr, none, some, List, [], ◌∷◌, Permᴰ, Option-cases,
  Outcome, ok, err, panic, Outcome-cases,
}
use decision_gateway.Gateway.{Route, Router, RouterError, validate, sort_routes, new_router}
use decision_gateway.Gateway.Validation.{
  IsTable, Explains, Verdict, Tracks-nil, validate-Verdict, not-IsTable_of_Explains,
}
use decision_gateway.Gateway.Sorting.{
  IsDescending, of_length, sort_routes-perm, sort_routes-IsDescending, of_length-sort_routes,
}

nil-IsTable : IsTable []
nil-IsTable = record { servable = tt; unique = tt }

verdict : (rs : List Route) → Verdict rs (validate [] 0 rs)
verdict rs = validate-Verdict [] [] rs Tracks-nil nil-IsTable

pub new_router_passed :
    (rs : List Route) (r : Route)
    → validate [] 0 (r ∷ rs) ≡ none
    → new_router (r ∷ rs) ≡ ok (record { routes = sort_routes (r ∷ rs) })
unfolding new_router
new_router_passed rs r h = rw (h, new_router)

new_router_failed :
    (rs : List Route) (r : Route) {e : RouterError}
    → validate [] 0 (r ∷ rs) ≡ some e
    → new_router (r ∷ rs) ≡ err e
unfolding new_router
new_router_failed rs r h = rw (h, new_router)

-- The router that a table gives: its routes are those of the table, longest prefix first, and
-- routes of equal length stand in the order of the table.
pub record IsRouterOf (rs : List Route) (router : Router) : Type 0 where
  pub same : Permᴰ router.routes rs
  pub descending : IsDescending router.routes
  pub stable : (n : ℕ) → of_length n router.routes ≡ of_length n rs

sort_routes-IsRouterOf : (rs : List Route) → IsRouterOf rs (record { routes = sort_routes rs })
sort_routes-IsRouterOf rs = record {
  same = sort_routes-perm rs;
  descending = sort_routes-IsDescending rs;
  stable = λ n. of_length-sort_routes n rs;
}

-- The outcome of `new_router`, as a statement about its input.
abbrev pub Promises : List Route → Outcome RouterError Router → Type 0
Promises rs (ok router) = (rs ≢ []) × IsTable rs × IsRouterOf rs router
Promises rs (err e) = Explains rs e
Promises rs panic = ⊥

pub new_router-Promises : (rs : List Route) → Promises rs (new_router rs)
unfolding new_router
new_router-Promises [] = refl
new_router-Promises (r ∷ rs) = elim (Option-cases (validate [] 0 (r ∷ rs))) [
  | inl passed ↦
      let table : IsTable (r ∷ rs) = subst (Verdict (r ∷ rs)) passed (verdict (r ∷ rs)) in
      subst (Promises (r ∷ rs)) (sym (new_router_passed rs r passed))
        ((λ e. cc), table, sort_routes-IsRouterOf (r ∷ rs))
  | inr (e, failed) ↦
      subst (Promises (r ∷ rs)) (sym (new_router_failed rs r failed))
        (subst (Verdict (r ∷ rs)) failed (verdict (r ∷ rs)))
]

-- `new_router` succeeds exactly on the route lists that are not empty, whose routes all have a
-- prefix and a backend, and whose prefixes are distinct.
pub new_router_accepts_iff :
    (rs : List Route) → ((router : Router) × (new_router rs ≡ ok router)) ↔ ((rs ≢ []) × IsTable rs)
new_router_accepts_iff rs = (
  (λ (router, e).
      let (filled, table, _) = subst (Promises rs) e (new_router-Promises rs) in (filled, table)),
  (λ (filled, table). elim (Outcome-cases (new_router rs)) [
    | inl found ↦ found
    | inr (inl (e, failed)) ↦ absurd (
        not-IsTable_of_Explains rs e filled (subst (Promises rs) failed (new_router-Promises rs))
          table)
    | inr (inr fell) ↦ absurd (subst (Promises rs) fell (new_router-Promises rs))
  ]),
)

-- The router that `new_router` returns holds the given routes, longest prefix first, and keeps the
-- given order among prefixes of equal length.
pub new_router-IsRouterOf :
    (rs : List Route) (router : Router) → new_router rs ≡ ok router → IsRouterOf rs router
new_router-IsRouterOf rs router e =
    let (_, _, is_router) = subst (Promises rs) e (new_router-Promises rs) in is_router

-- An error of `new_router` tells the first route that fails a check: the list is empty, or the
-- routes before the reported index form a table and the route there has no prefix, or a prefix
-- and no backend, or is servable with the prefix of the earlier reported index.
pub new_router-Explains :
    (rs : List Route) (e : RouterError) → new_router rs ≡ err e → Explains rs e
new_router-Explains rs e failed = subst (Promises rs) failed (new_router-Promises rs)
