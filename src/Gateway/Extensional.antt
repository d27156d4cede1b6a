-- ===== src/Gateway/Extensional.antt =====
-- internal/gateway/router.go: a router is what it answers.
use decision_gateway.Prelude.{
  ◌≤◌, ◌≡◌, sym, ◌∙◌, ◌↔◌, inl, inr, some, List, [], Memᴰ, Permᴰ, append-nil, arith, Option-cases,
  length, length-append, Memᴰ-perm, Text, IsPrefixOf, ok,
}
use mathlib.Core.List.Permᴰ
use decision_gateway.Gateway.{Route, Router, new_router, match}
use decision_gateway.Gateway.Order.{match-some_iff, match-none_iff}

-- The two lists hold the same routes.
abbrev pub SameRoutes : List Route → List Route → Type 0
SameRoutes rs rs' = (r : Route) → Memᴰ r rs ↔ Memᴰ r rs'

IsPrefixOf-length : (p s : Text) → IsPrefixOf p s → length p ≤ length s
IsPrefixOf-length p s (rest, e) = rw e (omega (arith, length-append {0} p rest))

-- A route is selected for its own prefix.
own_prefix :
    (rs : List Route) (router : Router) (r : Route)
    → new_router rs ≡ ok router
    → Memᴰ r rs
    → match router r.prefix ≡ some r
own_prefix rs router r built m = (match-some_iff rs router r.prefix r built).1 (record {
  listed = m;
  fits = ([], sym (append-nil r.prefix));
  longest = λ s _ fits. IsPrefixOf-length s.prefix r.prefix fits;
})

same_listed :
    (rs rs' : List Route) (router router' : Router) (r : Route)
    → new_router rs ≡ ok router
    → new_router rs' ≡ ok router'
    → match router r.prefix ≡ match router' r.prefix
    → Memᴰ r rs
    → Memᴰ r rs'
same_listed rs rs' router router' r built built' same m =
    ((match-some_iff rs' router' r.prefix r built').0
      (sym same ∙ own_prefix rs router r built m)).listed

same_answer :
    (rs rs' : List Route) (router router' : Router) (path : Text)
    → new_router rs ≡ ok router
    → new_router rs' ≡ ok router'
    → SameRoutes rs rs'
    → match router path ≡ match router' path
same_answer rs rs' router router' path built built' same = elim (Option-cases (match router path)) [
  | inl missed ↦
      let u = (match-none_iff rs router path built).0 missed in
      missed ∙ sym ((match-none_iff rs' router' path built').1 (λ s m. u s ((same s).1 m)))
  | inr (r, found) ↦
      let l = (match-some_iff rs router path r built).0 found in
      found
      ∙ sym (
          (match-some_iff rs' router' path r built').1 (record {
            listed = (same r).0 l.listed;
            fits = l.fits;
            longest = λ s m. l.longest s ((same s).1 m);
          }))
]

-- Two routers that `new_router` returned answer every path alike exactly when they were built from
-- the same routes, in whatever order.
pub match_extensional :
    (rs rs' : List Route) (router router' : Router)
    → new_router rs ≡ ok router
    → new_router rs' ≡ ok router'
    → ((path : Text) → match router path ≡ match router' path) ↔ SameRoutes rs rs'
match_extensional rs rs' router router' built built' = (
  (λ same r. (
    same_listed rs rs' router router' r built built' (same r.prefix),
    same_listed rs' rs router' router r built' built (sym (same r.prefix)),
  )),
  (λ same path. same_answer rs rs' router router' path built built' same),
)

-- Routers built from the same routes in any order answer every path alike.
pub match_order_irrelevant :
    (rs rs' : List Route) (router router' : Router) (path : Text)
    → Permᴰ rs rs'
    → new_router rs ≡ ok router
    → new_router rs' ≡ ok router'
    → match router path ≡ match router' path
match_order_irrelevant rs rs' router router' path p built built' =
    (match_extensional rs rs' router router' built built').1
      (λ r. (Memᴰ-perm p, Memᴰ-perm (Permᴰ.symm p))) path
