-- ===== src/Proxy/Build/Wiring.antt =====
-- internal/proxy/proxy.go: the proxies that New makes for the routes of a router.
use decision_gateway.Prelude.{
  ◌≡◌, refl, sym, ap, ◌∙◌, subst, ◌≢◌, inr, some, List, [], ◌∷◌, Memᴰ, arith, Memᴰ-perm, All,
  All-mem, All-of_mem, Text, ok,
}
use mathlib.Core.List.Permᴰ
use decision_gateway.Net.Url.{Url}
use decision_gateway.Gateway.{Route, Router, new_router, routes_of}
use decision_gateway.Gateway.Construction.{new_router_accepts_iff, new_router-IsRouterOf}
use decision_gateway.Gateway.Matching.{same_route}
use decision_gateway.Proxy.Build.{
  ReverseProxy, Handler, BuildConfig, build_proxies, new_reverse_proxy, find_proxy, new,
}
use decision_gateway.Proxy.Build.Selection.{proxy_to, build_proxies-leads, new-built}

-- Every route has a backend.
abbrev pub IsBacked : List Route → Type 0
IsBacked rs = All (λ r. (u : Url) × (r.backend ≡ some u)) rs

-- Every route of the table has a backend, and a proxy that leads there.
pub record IsWired (h : Handler) : Type 0 where
  pub leads :
      (r : Route)
      → Memᴰ r h.router.routes
      → (u : Url) × (r.backend ≡ some u)
        × ((rp : ReverseProxy) × (find_proxy r.prefix h.proxies ≡ some rp) × (rp.target ≡ u))
  pub backed : IsBacked h.router.routes

-- The proxy that a handler keeps for a route of its table leads to the route's backend.
pub find_proxy-leads :
    (cfg : BuildConfig) (rs : List Route) (router : Router) (h : Handler) (r : Route) (u : Url)
    → new_router rs ≡ ok router
    → new (some router) cfg ≡ ok h
    → Memᴰ r rs
    → r.backend ≡ some u
    → find_proxy r.prefix h.proxies ≡ some (proxy_to cfg u)
find_proxy-leads cfg rs router h r u built made m has_u =
    let perm = (new_router-IsRouterOf rs router built).same in
    let table = ((new_router_accepts_iff rs).0 (router, built)).1 in
    build_proxies-leads cfg r.prefix u router.routes [] h.proxies
      (λ s n same.
        ap (λ (x : Route). x.backend) (same_route rs table.unique (Memᴰ-perm perm n) m same)
        ∙ has_u)
      (inr (r, Memᴰ-perm (Permᴰ.symm perm) m, refl)) (new-built cfg router h made).1

-- The routes of a router that `new_router` returned have backends.
pub new_router-IsBacked :
    (rs : List Route) (router : Router) → new_router rs ≡ ok router → IsBacked router.routes
new_router-IsBacked rs router e =
    let (_, table) = (new_router_accepts_iff rs).0 (router, e) in
    let same = (new_router-IsRouterOf rs router e).same in
    All-of_mem (λ r. (u : Url) × (r.backend ≡ some u)) router.routes
      (λ r m.
        (All-mem (λ q. (q.prefix ≢ []) × ((u : Url) × (q.backend ≡ some u))) table.servable
          (Memᴰ-perm same m)).1)

module _ (cfg : BuildConfig) where
  build_proxies_returns :
      (rs : List Route) (before : List (Text × ReverseProxy))
      → IsBacked rs
      → (after : List (Text × ReverseProxy)) × (build_proxies cfg rs before ≡ ok after)
  unfolding build_proxies new_reverse_proxy
  build_proxies_returns [] before b = (before, refl)
  build_proxies_returns (r ∷ rs) before ((u, has_u), b) =
      let (after, ends) = build_proxies_returns rs ((r.prefix, proxy_to cfg u) ∷ before) b in
      (after, ground arith)

  new_returns :
      (router : Router)
      → IsBacked router.routes
      → (h : Handler) × (new (some router) cfg ≡ ok h) × (h.router ≡ router)
  unfolding new routes_of
  new_returns router b =
      let (after, ends) = build_proxies_returns router.routes [] b in
      (record { router = router; proxies = after }, rw ends, refl)

  -- From a router that `new_router` returned, `new` makes a handler that has this router, and for
  -- each of its routes a proxy that leads to the route's backend.
  pub new-IsWired :
      (rs : List Route) (router : Router)
      → new_router rs ≡ ok router
      → (h : Handler) × (new (some router) cfg ≡ ok h) × (h.router ≡ router) × IsWired h
  new-IsWired rs router built =
      let backed = new_router-IsBacked rs router built in
      let (h, made, same) = new_returns router backed in
      let perm = (new_router-IsRouterOf rs router built).same in
      (
        h,
        made,
        same,
        record {
          leads = λ r m.
              let listed : Memᴰ r router.routes = subst (λ (t : Router). Memᴰ r t.routes) same m in
              let (u, has_u) =
                All-mem (λ (q : Route). (u : Url) × (q.backend ≡ some u)) backed listed in
              (
                u,
                has_u,
                (
                  proxy_to cfg u,
                  find_proxy-leads cfg rs router h r u built made (Memᴰ-perm perm listed) has_u,
                  refl,
                ),
              );
          backed = subst (λ (t : Router). IsBacked t.routes) (sym same) backed;
        },
      )
