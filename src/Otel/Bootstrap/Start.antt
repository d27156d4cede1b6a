-- ===== src/Otel/Bootstrap/Start.antt =====
-- internal/observability/otel/bootstrap.go: the outcomes of Bootstrap.
use decision_gateway.Prelude.{ℕ, ◌≡◌, refl, ◌⊎◌, inl, inr, some, [], ◌∷◌, ◌++◌, Text, text}
use decision_gateway.Otel.Bootstrap.{Sdk, trace_context, baggage, Globals, Tracer, bootstrap}

-- An error is that of the first constructor that fails, under its name, and installs nothing; a
-- tracer has the given name and the provider that was installed, which exports what the two
-- constructors gave, with both propagators.
abbrev pub Starts : Sdk → Text → Globals → (Text ⊎ Tracer) × Globals → Type 0
Starts sdk name g (inl e, g') =
    (g' ≡ g)
    × (((x : Text) × (sdk.new_exporter ≡ inl x) × (e ≡ text "otlptrace gRPC exporter: " ++ x))
        ⊎ ((n : ℕ) × (x : Text) × (sdk.new_exporter ≡ inr n)
            × (sdk.new_resource ≡ inl x)
            × (e ≡ text "resource detection: " ++ x)))
Starts sdk name g (inr t, g') =
    (sdk.new_exporter ≡ inr t.provider.exporter)
    × (sdk.new_resource ≡ inr t.provider.resource)
    × (t.name ≡ name)
    × (g'.provider ≡ some t.provider)
    × (g'.propagators ≡ trace_context ∷ baggage ∷ [])

sum-cases {ℓ κ} :
    {A : Type ℓ} {B : Type κ} (x : A ⊎ B) → ((a : A) × (x ≡ inl a)) ⊎ ((b : B) × (x ≡ inr b))
sum-cases (inl a) = inl (a, refl)
sum-cases (inr b) = inr (b, refl)

-- Bootstrap returns an error and leaves the global state as it was, or returns a tracer of the
-- given name and installs its provider, which exports what the two constructors gave, and both
-- propagators. The error is that of the exporter, or that of the resource after an exporter.
pub bootstrap-Starts :
    (sdk : Sdk) (name : Text) (g : Globals) → Starts sdk name g (bootstrap sdk name g)
unfolding bootstrap
bootstrap-Starts sdk name g = elim (sum-cases (sdk.new_exporter)) [
  | inl (x, failed) ↦ rw (failed, bootstrap) (refl, inl (x, refl, refl))
  | inr (n, exported) ↦ elim (sum-cases (sdk.new_resource)) [
    | inl (x, failed) ↦ rw (exported, bootstrap, failed) (refl, inr (n, x, refl, refl, refl))
    | inr (k, found) ↦ rw (exported, bootstrap, found) (refl, refl, refl, refl, refl)
  ]
]
