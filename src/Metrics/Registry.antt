-- ===== src/Metrics/Registry.antt =====
-- internal/observability/metrics/metrics.go: New. The Prometheus library is a parameter: whether it
-- panics on a histogram's buckets, and whether it registers metrics of the given names. A bucket's
-- bound is in units of 10 microseconds.
pub mod Creation
use decision_gateway.Prelude.{ℕ, Bool, Option, none, some, List, [], ◌∷◌, if◌then◌else◌, Text, text}
use decision_gateway.World.{Labels, Prometheus}

pub record CounterVec : Type 0 where
  pub name : Text
  pub labels : List Text

pub record HistogramVec : Type 0 where
  pub name : Text
  pub labels : List Text
  pub buckets : List ℕ

pub record Sink : Type 0 where
  pub count : CounterVec
  pub dur : HistogramVec

abbrev pub gateway_buckets : List ℕ
gateway_buckets =
    10 ∷ 25 ∷ 50 ∷ 100 ∷ 250 ∷ 500 ∷ 1_000 ∷ 2_500 ∷ 5_000 ∷ 10_000 ∷ 25_000 ∷ 50_000 ∷ 100_000
    ∷ 250_000 ∷ []

abbrev label_names : List Text
label_names = text "method" ∷ text "route" ∷ text "status" ∷ []

abbrev pub requests_total : CounterVec
requests_total = record { name = text "gateway_requests_total"; labels = label_names }

abbrev pub request_duration : HistogramVec
request_duration = record {
  name = text "gateway_request_duration_seconds";
  labels = label_names;
  buckets = gateway_buckets;
}

-- NewCounterVec, NewHistogramVec and MustRegister; `none` is a panic.
unfoldable pub new_sink : Prometheus → Option Sink
new_sink prom =
    if prom.accepts_buckets request_duration.buckets
    then (if prom.registers (requests_total.name ∷ request_duration.name ∷ [])
        then some (record { count = requests_total; dur = request_duration })
        else none)
    else none

-- The label map that the middleware gives to `With`.
abbrev pub label_map : Labels → List (Text × Text)
label_map l = (text "method", l.method) ∷ (text "route", l.route) ∷ (text "status", l.status) ∷ []
