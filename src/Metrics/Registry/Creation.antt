-- ===== src/Metrics/Registry/Creation.antt =====
-- internal/observability/metrics/metrics.go: New on the library's documented behaviour.
use decision_gateway.Prelude.{
  Bool, leb, ◌&&◌, ◌||◌, ◌==◌, ℕ, ◌<◌, ◌≡◌, refl, ◌≢◌, true, some, List, [], ◌∷◌, map, arith, All,
  Text, text,
}
use decision_gateway.World.{Labels}
use decision_gateway.Metrics.Registry.{
  Prometheus, Sink, gateway_buckets, requests_total, request_duration, new_sink, label_map,
}

abbrev pub IsIncreasing : List ℕ → Type 0
IsIncreasing [] = Unit
IsIncreasing (b ∷ []) = Unit
IsIncreasing (b ∷ c ∷ bs) = (b < c) × IsIncreasing (c ∷ bs)

abbrev pub AreDistinct : List Text → Type 0
AreDistinct [] = Unit
AreDistinct (t ∷ ts) = All (λ u. u ≢ t) ts × AreDistinct ts

abbrev is_name_char : ℕ → Bool
is_name_char c = (leb b'a' c && leb c b'z') || c == b'_'

-- A metric name of lowercase letters and underscores.
abbrev pub IsName : Text → Type 0
IsName t = (t ≢ []) × All (λ c. is_name_char c ≡ true) t

-- What is documented of Prometheus: a histogram with strictly increasing buckets is made, and a new
-- registry takes metrics with distinct names, such names being valid.
pub record IsPrometheus (prom : Prometheus) : Type 0 where
  pub buckets : (bs : List ℕ) → IsIncreasing bs → prom.accepts_buckets bs ≡ true
  pub names : (ts : List Text) → All IsName ts → AreDistinct ts → prom.registers ts ≡ true

-- New does not panic; the two metrics that it registers declare exactly the labels that the
-- middleware gives values for, so that `With` finds each.
pub new_sink-returns :
    (prom : Prometheus)
    → IsPrometheus prom
    → (sink : Sink) × (new_sink prom ≡ some sink)
      × ((l : Labels)
          → (map (λ p. p.0) (label_map l) ≡ sink.count.labels)
            × (map (λ p. p.0) (label_map l) ≡ sink.dur.labels))
unfolding new_sink
new_sink-returns prom is =
    let increasing : IsIncreasing gateway_buckets = omega arith in
    let named : All IsName (requests_total.name ∷ request_duration.name ∷ []) = ground arith in
    let distinct : AreDistinct
        (text "gateway_requests_total" ∷ text "gateway_request_duration_seconds" ∷ []) =
      (((λ e. cc), tt), (tt, tt)) in
    (
      record { count = requests_total; dur = request_duration },
      rw
          (
            is.buckets gateway_buckets increasing,
            is.names (requests_total.name ∷ request_duration.name ∷ []) named distinct,
          )
          refl,
      (λ l. (refl, refl)),
    )
