-- ===== src/Metrics.antt =====
-- internal/observability/metrics/metrics.go: the Sink's middleware. A call of the Prometheus
-- library is recorded with its labels.
pub mod Registry
use decision_gateway.Prelude.{ℕ, ◌-◌, false, Option, none, some, [], ◌∷◌, itoa}
use decision_gateway.Net.Http.{Request, status_ok}
use decision_gateway.Writer.{Writer, MetricsWriter, meter}
use decision_gateway.World.{Labels, World, Env, Handler, read_clock, ◌>>=◌}

abbrev pub fresh_meter : MetricsWriter
fresh_meter = record { status = status_ok; route = []; wrote_header = false }

unfoldable pub labels_of : MetricsWriter → Request → Labels
labels_of sw r = record { method = r.method; route = sw.route; status = itoa sw.status }

-- What follows `next.ServeHTTP(sw, r)`.
finish_metrics : Env → ℕ → Request → Writer × World → Option (Writer × World)
finish_metrics env start r (meter sw w, s) =
    let labels = labels_of sw r in
    let (stop, s') = read_clock env s in
    some (
      w,
      record s' { counted = labels ∷ s'.counted; observed = (labels, stop - start) ∷ s'.observed },
    )
finish_metrics env start r (_, s) = none

unfoldable pub metrics : Env → Handler → Handler
unfolding finish_metrics
metrics env next r w s =
    let (start, s') = read_clock env s in
    do end ← next r (meter fresh_meter w) s'; finish_metrics env start r end
