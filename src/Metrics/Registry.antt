-- ===== src/Metrics/Registry.antt =====
-- `MetricsRegistry`. Every method is one atomic addition or a few; a counter has 64 bits.
use eventedge.Base.{
  ℕ, zero, suc, ◌+◌, ◌-◌, ◌%◌, ◌^◌, List, [], ◌∷◌, ◌++◌, Text, Outcome, ok, ◌>>=◌, leb, ◌==◌,
  if◌then◌else◌,
}
use eventedge.Decimal.{to_string}
use eventedge.Upstream.{UpstreamEndpoint, UpstreamPool, size, endpoint}
use eventedge.Handler.{text_eq}

-- `fetch_add(n)` and `fetch_sub(1)`
unfoldable pub fetch_add : ℕ → ℕ → ℕ
fetch_add n counter = (counter + n) % 2 ^ 64

unfoldable pub fetch_sub : ℕ → ℕ
fetch_sub counter = (counter + (2 ^ 64 - 1)) % 2 ^ 64

pub record UpstreamMetrics : Type 0 where
  pub label : Text
  pub selections : ℕ

pub record MetricsRegistry : Type 0 where
  pub upstreams : List UpstreamMetrics
  pub requests : ℕ
  pub health_requests : ℕ
  pub metrics_requests : ℕ
  pub proxy_requests : ℕ
  pub cache_hits : ℕ
  pub cache_misses : ℕ
  pub coalescing_leaders : ℕ
  pub coalescing_waiters : ℕ
  pub bad_gateway : ℕ
  pub service_unavailable : ℕ
  pub gateway_timeout : ℕ
  pub health_transitions : ℕ
  pub proxy_in_flight : ℕ
  pub duration_count : ℕ
  pub duration_sum_nanos : ℕ
  pub duration_buckets : List ℕ

-- The upper ends of the buckets, in nanoseconds. The code compares seconds as doubles; for durations
-- below 2^53 nanoseconds that is the same, since rounding keeps the order.
abbrev pub buckets : List ℕ
buckets =
    1000000 ∷ 5000000 ∷ 10000000 ∷ 50000000 ∷ 100000000 ∷ 500000000 ∷ 1000000000 ∷ 5000000000 ∷ []

unfoldable pub endpoint_label : UpstreamEndpoint → Text
endpoint_label e = e.host ++ (b':' ∷ to_string e.port)

-- The loop of the constructor, with `left` of the backends to come.
unfoldable pub label_from : ℕ → ℕ → UpstreamPool → Outcome (List UpstreamMetrics)
label_from zero index pool = ok []
label_from (suc left) index pool = do
  e ← endpoint pool index
  rest ← label_from left (index + 1) pool
  ok (record { label = endpoint_label e; selections = 0 } ∷ rest)

-- The counters before the first report.
unfoldable pub start : List UpstreamMetrics → MetricsRegistry
start upstreams = record {
  upstreams = upstreams;
  requests = 0;
  health_requests = 0;
  metrics_requests = 0;
  proxy_requests = 0;
  cache_hits = 0;
  cache_misses = 0;
  coalescing_leaders = 0;
  coalescing_waiters = 0;
  bad_gateway = 0;
  service_unavailable = 0;
  gateway_timeout = 0;
  health_transitions = 0;
  proxy_in_flight = 0;
  duration_count = 0;
  duration_sum_nanos = 0;
  duration_buckets = 0 ∷ 0 ∷ 0 ∷ 0 ∷ 0 ∷ 0 ∷ 0 ∷ 0 ∷ [];
}

unfoldable pub create : UpstreamPool → Outcome MetricsRegistry
create pool = do upstreams ← label_from (size pool) 0 pool; ok (start upstreams)

unfoldable pub record_request : MetricsRegistry → MetricsRegistry
record_request m = record m { requests = fetch_add 1 m.requests }

unfoldable pub record_health_request : MetricsRegistry → MetricsRegistry
record_health_request m = record m { health_requests = fetch_add 1 m.health_requests }

unfoldable pub record_metrics_request : MetricsRegistry → MetricsRegistry
record_metrics_request m = record m { metrics_requests = fetch_add 1 m.metrics_requests }

unfoldable pub record_proxy_request : MetricsRegistry → MetricsRegistry
record_proxy_request m = record m { proxy_requests = fetch_add 1 m.proxy_requests }

unfoldable pub record_cache_hit : MetricsRegistry → MetricsRegistry
record_cache_hit m = record m { cache_hits = fetch_add 1 m.cache_hits }

unfoldable pub record_cache_miss : MetricsRegistry → MetricsRegistry
record_cache_miss m = record m { cache_misses = fetch_add 1 m.cache_misses }

unfoldable pub record_coalescing_leader : MetricsRegistry → MetricsRegistry
record_coalescing_leader m = record m { coalescing_leaders = fetch_add 1 m.coalescing_leaders }

unfoldable pub record_coalescing_waiter : MetricsRegistry → MetricsRegistry
record_coalescing_waiter m = record m { coalescing_waiters = fetch_add 1 m.coalescing_waiters }

unfoldable pub record_health_transition : MetricsRegistry → MetricsRegistry
record_health_transition m = record m { health_transitions = fetch_add 1 m.health_transitions }

unfoldable pub proxy_started : MetricsRegistry → MetricsRegistry
proxy_started m = record m { proxy_in_flight = fetch_add 1 m.proxy_in_flight }

unfoldable pub proxy_completed : MetricsRegistry → MetricsRegistry
proxy_completed m = record m { proxy_in_flight = fetch_sub m.proxy_in_flight }

unfoldable pub record_response_status : ℕ → MetricsRegistry → MetricsRegistry
record_response_status status m =
    if status == 502
    then record m { bad_gateway = fetch_add 1 m.bad_gateway }
    else if status == 503
    then record m { service_unavailable = fetch_add 1 m.service_unavailable }
    else if status == 504
    then record m { gateway_timeout = fetch_add 1 m.gateway_timeout }
    else m

-- The loop over the upstreams returns at the first of the label.
unfoldable pub select_label : Text → List UpstreamMetrics → List UpstreamMetrics
select_label upstream [] = []
select_label upstream (v ∷ vs) =
    let rest = select_label upstream vs in
    if text_eq v.label upstream
    then record v { selections = fetch_add 1 v.selections } ∷ vs
    else v ∷ rest

unfoldable pub record_upstream_selection : Text → MetricsRegistry → MetricsRegistry
record_upstream_selection upstream m = record m { upstreams = select_label upstream m.upstreams }

-- The loop over the buckets.
unfoldable pub fill_buckets : ℕ → List ℕ → List ℕ → List ℕ
fill_buckets duration (bound ∷ bounds) (counter ∷ counters) =
    (if leb duration bound then fetch_add 1 counter else counter)
    ∷ fill_buckets duration bounds counters
fill_buckets duration _ counters = counters

-- The duration is in nanoseconds.
unfoldable pub observe_duration : ℕ → MetricsRegistry → MetricsRegistry
observe_duration duration m = record m {
  duration_count = fetch_add 1 m.duration_count;
  duration_sum_nanos = fetch_add duration m.duration_sum_nanos;
  duration_buckets = fill_buckets duration buckets m.duration_buckets;
}
