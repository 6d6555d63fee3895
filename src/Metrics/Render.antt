-- ===== src/Metrics/Render.antt =====
-- `render`: the counters as text. How a stream prints a double is a parameter.
use eventedge.Base.{ℕ, ◌+◌, Bool, true, false, List, [], ◌∷◌, ◌++◌, Text, codes, Outcome, ok, ◌>>=◌}
use eventedge.Decimal.{to_string}
use eventedge.Upstream.{UpstreamPool, is_healthy}
use eventedge.Metrics.Registry.{MetricsRegistry, UpstreamMetrics, buckets}

-- A bound of a bucket, and a sum of nanoseconds with twelve digits, both printed in seconds.
pub record Printer : Type 0 where
  pub bound : ℕ → Text
  pub sum : ℕ → Text

abbrev newline : Text
newline = 10 ∷ []

unfoldable pub counter : Text → ℕ → Text
counter name value = name ++ (b' ' ∷ (to_string value ++ newline))

unfoldable pub render_buckets : Printer → List ℕ → List ℕ → Text
render_buckets print (bound ∷ bounds) (count ∷ counts) =
    codes "eventedge_request_duration_seconds_bucket{le=\""
    ++ (print.bound bound
        ++ (codes "\"} " ++ (to_string count ++ (newline ++ render_buckets print bounds counts))))
render_buckets print _ counts = []

unfoldable pub health_digit : Bool → Text
health_digit true = codes "1"
health_digit false = codes "0"

unfoldable pub render_upstreams : ℕ → List UpstreamMetrics → UpstreamPool → Outcome Text
render_upstreams i [] pool = ok []
render_upstreams i (v ∷ vs) pool = do
  healthy ← is_healthy pool i
  rest ← render_upstreams (i + 1) vs pool
  ok (
      codes "eventedge_upstream_selections_total{upstream=\""
      ++ (v.label
          ++ (codes "\"} "
              ++ (to_string v.selections
                  ++ (newline
                      ++ (codes "eventedge_upstream_healthy{upstream=\""
                          ++ (v.label
                              ++ (codes "\"} "
                                  ++ (health_digit healthy ++ (newline ++ rest))))))))))

unfoldable pub render : Printer → MetricsRegistry → UpstreamPool → Outcome Text
render print m pool =
    let head =
      codes "# TYPE eventedge_requests_total counter"
      ++ (newline
          ++ (counter (codes "eventedge_requests_total") m.requests
              ++ (counter (codes "eventedge_local_health_requests_total") m.health_requests
                  ++ (counter (codes "eventedge_metrics_requests_total") m.metrics_requests
                      ++ (counter (codes "eventedge_proxy_requests_total") m.proxy_requests
                          ++ (counter (codes "eventedge_cache_hits_total") m.cache_hits
                              ++ (counter (codes "eventedge_cache_misses_total") m.cache_misses
                                  ++ (counter (codes "eventedge_coalescing_leaders_total")
                                        m.coalescing_leaders
                                      ++ (counter (codes "eventedge_coalescing_waiters_total")
                                            m.coalescing_waiters
                                          ++ (counter (codes "eventedge_bad_gateway_total")
                                                m.bad_gateway
                                              ++ (counter
                                                    (codes "eventedge_service_unavailable_total")
                                                    m.service_unavailable
                                                  ++ (counter
                                                        (codes "eventedge_gateway_timeout_total")
                                                        m.gateway_timeout
                                                      ++ (counter
                                                            (codes
                                                            "eventedge_upstream_health_transitions_total")
                                                            m.health_transitions
                                                          ++ counter
                                                            (codes "eventedge_proxy_in_flight")
                                                            m.proxy_in_flight))))))))))))) in
    let durations =
      render_buckets print buckets m.duration_buckets
      ++ (codes "eventedge_request_duration_seconds_bucket{le=\"+Inf\"} "
          ++ (to_string m.duration_count
              ++ (newline
                  ++ (counter (codes "eventedge_request_duration_seconds_count") m.duration_count
                      ++ (codes "eventedge_request_duration_seconds_sum "
                          ++ (print.sum m.duration_sum_nanos ++ newline)))))) in
    (do upstreams ← render_upstreams 0 m.upstreams pool; ok (head ++ (durations ++ upstreams)))
