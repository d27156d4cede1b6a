-- ===== src/Proxy/Build.antt =====
-- internal/proxy/proxy.go: construction of a Handler from a router.
pub mod Wiring
pub mod Selection
use decision_gateway.Prelude.{
  Option, none, some, List, [], ◌∷◌, if◌then◌else◌, Text, text_eq, Outcome, ok, err, panic, ℤ,
}
use decision_gateway.Prelude.Results.{◌>>=◌}
use decision_gateway.Net.Url.{Url}
use decision_gateway.Gateway.{Route, Router, routes_of}
use decision_gateway.Proxy.Transport.{
  RoundTripper, Wrapper, PoolConfig, UpstreamProtocol, new_tuned_transport,
}

-- httputil.ReverseProxy, as NewSingleHostReverseProxy and the assignment of Transport leave it.
pub record ReverseProxy : Type 0 where
  pub target : Url
  pub transport : RoundTripper

pub record Handler : Type 0 where
  pub router : Router
  -- the map from prefixes, latest entry first
  pub proxies : List (Text × ReverseProxy)

pub data BuildError : Type 0 where
  router_required : BuildError

pub record BuildConfig : Type 0 where
  pub backend_timeout : ℤ
  pub pool : PoolConfig
  pub protocol : UpstreamProtocol
  pub transport_wrapper : Wrapper

-- NewSingleHostReverseProxy reads the target's query, so a nil backend panics.
unfoldable pub new_reverse_proxy : Option Url → BuildConfig → Outcome BuildError ReverseProxy
new_reverse_proxy none cfg = panic
new_reverse_proxy (some backend) cfg = ok (record {
  target = backend;
  transport = new_tuned_transport cfg.backend_timeout cfg.pool cfg.protocol cfg.transport_wrapper;
})

-- The loop over the routes.
pub build_proxies :
    BuildConfig
    → List Route
    → List (Text × ReverseProxy)
    → Outcome BuildError (List (Text × ReverseProxy))
build_proxies cfg [] proxies = ok proxies
build_proxies cfg (r ∷ rs) proxies = do
  rp ← new_reverse_proxy r.backend cfg
  build_proxies cfg rs ((r.prefix, rp) ∷ proxies)

-- `New`; `none` is a nil router.
unfoldable pub new : Option Router → BuildConfig → Outcome BuildError Handler
unfolding build_proxies
new none cfg = err router_required
new (some router) cfg = do
  proxies ← build_proxies cfg (routes_of router) []
  ok (record { router = router; proxies = proxies })

-- `h.proxies[prefix]`
unfoldable pub find_proxy : Text → List (Text × ReverseProxy) → Option ReverseProxy
find_proxy p [] = none
find_proxy p ((q, rp) ∷ proxies) = if text_eq q p then some rp else find_proxy p proxies
