-- ===== src/Proxy/Holder.antt =====
-- internal/proxy/holder.go: the current handler behind a lock. Each operation holds the lock once,
-- so it reads or writes the field `current` of the state in one step.
pub mod Threads
pub mod Exclusion
pub mod Progress
pub mod Snapshots
use decision_gateway.Prelude.{Option, none, some, List, Outcome, ok}
use decision_gateway.Gateway.{Route, Router, routes_of}
use decision_gateway.World.{World, Env, Handler}
use decision_gateway.Proxy.Build.{BuildConfig, BuildError, new}
use decision_gateway.Proxy.Serve.{serve}
use decision_gateway.Prelude.Results.{◌>>=◌}

-- NewHolder, with the holder in the state.
unfoldable pub new_holder : Option Router → BuildConfig → World → Outcome BuildError World
new_holder router cfg s = do h ← new router cfg; ok (record s { current = some h })

-- ServeHTTP; `none` where there is no handler to call.
unfoldable pub serve_current : Env → Handler
serve_current env r w s = elim (s.current) [ none ↦ none | some h ↦ serve env h r w s ]

unfoldable pub replace : BuildConfig → Option Router → World → Outcome BuildError World
replace cfg router s = do next ← new router cfg; ok (record s { current = some next })

unfoldable pub current_routes : World → Option (List Route)
current_routes s = elim (s.current) [ none ↦ none | some h ↦ some (routes_of h.router) ]
