-- ===== src/Proxy/Build/Selection.antt =====
-- internal/proxy/proxy.go: the proxy that New keeps for a prefix.
use decision_gateway.Prelude.{
  ◌≡◌, refl, sym, ap, ◌∙◌, subst, ◌⊎◌, inl, inr, false, some, List, [], ◌∷◌, Memᴰ, arith,
  Bool-cases, Option-cases, Text, text_eq, text_eq_refl, text_eq_iff, ok, Outcome-cases,
}
use decision_gateway.Net.Url.{Url}
use decision_gateway.Gateway.{Route, Router, routes_of}
use decision_gateway.Proxy.Build.{
  ReverseProxy, Handler, BuildConfig, build_proxies, new_reverse_proxy, find_proxy, new,
}
use decision_gateway.Proxy.Transport.{new_tuned_transport}

-- The proxy of a route with backend `u`.
abbrev pub proxy_to : BuildConfig → Url → ReverseProxy
proxy_to cfg u = record {
  target = u;
  transport = new_tuned_transport cfg.backend_timeout cfg.pool cfg.protocol cfg.transport_wrapper;
}

find_proxy-cons_self :
    (p : Text) (rp : ReverseProxy) (proxies : List (Text × ReverseProxy))
    → find_proxy p ((p, rp) ∷ proxies) ≡ some rp
unfolding find_proxy
find_proxy-cons_self p rp proxies = rw (text_eq_refl p)

module _ (cfg : BuildConfig) (p : Text) (u : Url) where
  find_proxy-cons_ne :
      (q : Text) (rp : ReverseProxy) (proxies : List (Text × ReverseProxy))
      → text_eq q p ≡ false
      → find_proxy p ((q, rp) ∷ proxies) ≡ find_proxy p proxies
  unfolding find_proxy
  find_proxy-cons_ne q rp proxies other = rw other

  -- When every listed route with the prefix has the backend, and the prefix is listed or led there
  -- before, it leads there in the end.
  pub build_proxies-leads :
      (rs : List Route) (before after : List (Text × ReverseProxy))
      → ((s : Route) → Memᴰ s rs → s.prefix ≡ p → s.backend ≡ some u)
      → (find_proxy p before ≡ some (proxy_to cfg u)) ⊎ ((s : Route) × Memᴰ s rs × (s.prefix ≡ p))
      → build_proxies cfg rs before ≡ ok after
      → find_proxy p after ≡ some (proxy_to cfg u)
  unfolding build_proxies new_reverse_proxy
  build_proxies-leads [] before after one (inl led) e = ground arith
  build_proxies-leads [] before after one (inr (s, m, _)) e = elim m [ ]
  build_proxies-leads (r ∷ rs) before after one before_or_later e =
      elim (Option-cases (r.backend)) [
        | inl missing ↦ absurd (ground arith)
        | inr (v, has_v) ↦
            let rest : build_proxies cfg rs ((r.prefix, proxy_to cfg v) ∷ before) ≡ ok after =
              ground arith in
            build_proxies-leads rs ((r.prefix, proxy_to cfg v) ∷ before) after
              (λ s m. one s (Memᴰ.tail m)) (now v has_v) rest
      ]
    where
      now :
          (v : Url)
          → r.backend ≡ some v
          → (find_proxy p ((r.prefix, proxy_to cfg v) ∷ before) ≡ some (proxy_to cfg u))
            ⊎ ((s : Route) × Memᴰ s rs × (s.prefix ≡ p))
      now v has_v = elim (Bool-cases (text_eq r.prefix p)) [
        | inl same ↦
            let at = (text_eq_iff r.prefix p).0 same in
            let here : v ≡ u = let k = one r (Memᴰ.head refl) at in cc in
            inl (
              subst
                (λ x. find_proxy x ((r.prefix, proxy_to cfg v) ∷ before) ≡ some (proxy_to cfg u)) at
                (find_proxy-cons_self r.prefix (proxy_to cfg v) before
                  ∙ ap (λ x. some (proxy_to cfg x)) here))
        | inr other ↦ elim before_or_later [
          | inl led ↦ inl (find_proxy-cons_ne r.prefix (proxy_to cfg v) before other ∙ led)
          | inr (s, Memᴰ.head e, at) ↦ absurd (
              let same = (text_eq_iff r.prefix p).1 (ap (λ (x : Route). x.prefix) (sym e) ∙ at) in
              cc)
          | inr (s, Memᴰ.tail m, at) ↦ inr (s, m, at)
        ]
      ]

-- What `new` returns holds the router and the proxies of its loop.
pub new-built :
    (cfg : BuildConfig) (router : Router) (h : Handler)
    → new (some router) cfg ≡ ok h
    → (h.router ≡ router) × (build_proxies cfg router.routes [] ≡ ok h.proxies)
unfolding new routes_of
new-built cfg router h e = elim (Outcome-cases (build_proxies cfg router.routes [])) [
  | inl (after, built) ↦
      let same : record { router = router; proxies = after } ≡ h = ground arith in
      (ap (λ (x : Handler). x.router) (sym same), built ∙ ap (λ (x : Handler). ok x.proxies) same)
  | inr (inl (x, failed)) ↦ absurd (ground arith)
  | inr (inr fell) ↦ absurd (ground arith)
]
