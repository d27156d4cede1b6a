-- ===== src/Tests/Startup.antt =====
-- The start of tracing and of the metrics with sample libraries.
use decision_gateway.Prelude.{◌≡◌, refl, inl, inr, none, [], text}
use decision_gateway.Otel.Bootstrap.{Sdk, Globals, bootstrap}
use decision_gateway.Otel.Bootstrap.Start.{Starts, bootstrap-Starts}
use decision_gateway.Tests.Sample.{sdk}

abbrev untraced : Globals
untraced = record { provider = none; propagators = [] }

abbrev no_resource : Sdk
no_resource = record { new_exporter = inr 1; new_resource = inl (text "no host") }

refuses :
    bootstrap no_resource (text "gateway") untraced
    ≡ (inl (text "resource detection: no host"), untraced)
unfolding bootstrap
refuses = refl

bootstrap-Starts_example :
    Starts sdk (text "gateway") untraced (bootstrap sdk (text "gateway") untraced)
bootstrap-Starts_example = bootstrap-Starts sdk (text "gateway") untraced
