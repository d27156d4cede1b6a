-- ===== src/Handlers/Aborting.antt =====
-- internal/proxy/proxy.go: a reply whose body cannot be copied to the client in full.
use decision_gateway.Prelude.{◌≡◌, ◌↔◌, true, none, length}
use decision_gateway.Net.Url.{Url}
use decision_gateway.Net.Http.{Request}
use decision_gateway.Writer.{Writer}
use decision_gateway.World.{World, Env}
use decision_gateway.Proxy.Build
use decision_gateway.Proxy.Transport.{RoundTripper}
use decision_gateway.Proxy.Forward.{is_cut}
use decision_gateway.Proxy.Serve.{serve}
use decision_gateway.Handlers.{inbound}
use decision_gateway.Handlers.Outbound.{IsDelivery}

-- A request that leaves for a backend, and that ends the handler with a panic exactly when the
-- network's reply to it is cut.
pub record MayAbort (env : Env) (h : Build.Handler) (u : Url) (r : Request) (w : Writer) (s : World)
    : Type 0 where
  pub over : RoundTripper
  pub sent : Request
  pub delivery : IsDelivery u (inbound r) sent
  pub aborts :
      (serve env h r w s ≡ none) ↔ (is_cut (env.network (length s.forwarded) over sent) ≡ true)
