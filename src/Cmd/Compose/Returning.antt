-- ===== src/Cmd/Compose/Returning.antt =====
-- cmd/decision-gateway/main.go: `setup` with the Prometheus client as it is documented.
use decision_gateway.Prelude.{◌≢◌, subst, panic}
use decision_gateway.World.{World, Env}
use decision_gateway.Otel.Bootstrap.{Sdk}
use decision_gateway.Metrics.Registry.Creation.{IsPrometheus, new_sink-returns}
use decision_gateway.Cmd.Compose.{Options, setup}
use decision_gateway.Cmd.Compose.Boot.{BootVerdict, setup-BootVerdict}

-- Where Prometheus takes histograms with strictly increasing buckets and distinct valid names,
-- `setup` never panics, whatever the flags and the SDK do.
pub setup_returns :
    (env : Env) (sdk : Sdk) (o : Options) (s : World)
    → IsPrometheus env.prometheus
    → setup env sdk o s ≢ panic
setup_returns env sdk o s prom e =
    let (on, refused) = subst (BootVerdict env sdk o s) e (setup-BootVerdict env sdk o s) in
    let (sink, made, _) = new_sink-returns env.prometheus prom in cc (made, refused)
