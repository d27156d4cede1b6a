-- ===== src/Otel/Bootstrap.antt =====
-- internal/observability/otel/bootstrap.go: the start of the OpenTelemetry SDK. The SDK's
-- constructors are parameters: each gives an error or a value, which is known by a number.
pub mod Start
use decision_gateway.Prelude.{ℕ, ◌⊎◌, inl, inr, Option, some, List, [], ◌∷◌, ◌++◌, Text, text}

-- What the constructors of the exporter and of the resource give.
pub record Sdk : Type 0 where
  pub new_exporter : Text ⊎ ℕ
  pub new_resource : Text ⊎ ℕ

-- sdktrace.TracerProvider, from the two options.
pub record TracerProvider : Type 0 where
  pub exporter : ℕ
  pub resource : ℕ

pub data Propagator : Type 0 where
  trace_context baggage : Propagator

-- The global provider and the global propagator.
pub record Globals : Type 0 where
  pub provider : Option TracerProvider
  pub propagators : List Propagator

-- trace.Tracer
pub record Tracer : Type 0 where
  pub name : Text
  pub provider : TracerProvider

install : Text → ℕ → ℕ → Globals → (Text ⊎ Tracer) × Globals
install name exporter resource g =
    let tp : TracerProvider = record { exporter = exporter; resource = resource } in
    let g1 : Globals = record g { provider = some tp } in
    let g2 : Globals = record g1 { propagators = trace_context ∷ baggage ∷ [] } in
    (inr (record { name = name; provider = tp }), g2)

-- The Shutdown function is the provider's; it is run when the process ends, and not modelled.
unfoldable pub bootstrap : Sdk → Text → Globals → (Text ⊎ Tracer) × Globals
unfolding install
bootstrap sdk name g = elim (sdk.new_exporter) [
  | inl e ↦ (inl (text "otlptrace gRPC exporter: " ++ e), g)
  | inr exporter ↦ elim (sdk.new_resource) [
    | inl e ↦ (inl (text "resource detection: " ++ e), g)
    | inr resource ↦ install name exporter resource g
  ]
]
