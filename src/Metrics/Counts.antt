-- ===== src/Metrics/Counts.antt =====
-- What the counters hold after any history of reports.
use eventedge.Base.{
  ℕ, ◌+◌, ◌-◌, ◌*◌, ◌%◌, ◌^◌, ◌<◌, ◌≡◌, refl, Bool, true, false, List, [], ◌∷◌, Text, leb, ◌==◌,
  map, arith,
}
use eventedge.Metrics.Registry.{
  MetricsRegistry, fetch_add, fetch_sub, fill_buckets, record_request, record_health_request,
  record_metrics_request, record_proxy_request, record_cache_hit, record_cache_miss,
  record_coalescing_leader, record_coalescing_waiter, record_health_transition, proxy_started,
  proxy_completed, record_response_status, record_upstream_selection, observe_duration,
}

-- One call of a method.
pub data Report : Type 0 where
  request health_request metrics_request proxy_request : Report
  cache_hit cache_miss leads waits health_transition started completed : Report
  response_status : ℕ → Report
  selection : Text → Report
  duration : ℕ → Report

unfoldable pub record_one : Report → MetricsRegistry → MetricsRegistry
record_one request m = record_request m
record_one health_request m = record_health_request m
record_one metrics_request m = record_metrics_request m
record_one proxy_request m = record_proxy_request m
record_one cache_hit m = record_cache_hit m
record_one cache_miss m = record_cache_miss m
record_one leads m = record_coalescing_leader m
record_one waits m = record_coalescing_waiter m
record_one health_transition m = record_health_transition m
record_one started m = proxy_started m
record_one completed m = proxy_completed m
record_one (response_status status) m = record_response_status status m
record_one (selection upstream) m = record_upstream_selection upstream m
record_one (duration d) m = observe_duration d m

unfoldable pub record_all : List Report → MetricsRegistry → MetricsRegistry
record_all [] m = m
record_all (r ∷ rs) m = record_all rs (record_one r m)

-- The sum of what each report is worth.
unfoldable pub total : (Report → ℕ) → List Report → ℕ
total worth [] = 0
total worth (r ∷ rs) = worth r + total worth rs

mod_below : (n : ℕ) → n < 2 ^ 64 → n % 2 ^ 64 ≡ n
mod_below n h = omega (arith, h)

mod_bound : (n : ℕ) → n % 2 ^ 64 < 2 ^ 64
mod_bound n = omega arith

-- A counter to which every report adds what it is worth.
module _ (counter : MetricsRegistry → ℕ) (worth : Report → ℕ)
    (adds : (r : Report) (m : MetricsRegistry)
      → counter m < 2 ^ 64
      → counter (record_one r m) ≡ (counter m + worth r) % 2 ^ 64) where
  counter-record_all :
      (rs : List Report) (m : MetricsRegistry)
      → counter m < 2 ^ 64
      → counter (record_all rs m) ≡ (counter m + total worth rs) % 2 ^ 64
  unfolding record_all total
  counter-record_all [] m h = omega (arith, h)
  counter-record_all (r ∷ rs) m h =
      let step = adds r m h in
      let bound = mod_bound (counter m + worth r) in
      let later = counter-record_all rs (record_one r m) (rw step bound) in
      omega (arith, step, later)

  pub counter_from_zero :
      (rs : List Report) (m : MetricsRegistry)
      → counter m ≡ 0
      → counter (record_all rs m) ≡ total worth rs % 2 ^ 64
  counter_from_zero rs m z =
      let e = counter-record_all rs m (omega (arith, z)) in omega (arith, e, z)

-- What a report is worth to each counter.
abbrev pub one_if : Bool → ℕ
one_if true = 1
one_if false = 0

abbrev pub is_start : Report → ℕ
is_start started = 1
is_start _ = 0

abbrev pub is_completion : Report → ℕ
is_completion completed = 1
is_completion _ = 0

abbrev pub has_status : ℕ → Report → ℕ
has_status code (response_status status) = one_if (status == code)
has_status code _ = 0

abbrev pub is_duration : Report → ℕ
is_duration (duration d) = 1
is_duration _ = 0

abbrev pub length_of : Report → ℕ
length_of (duration d) = d
length_of _ = 0

abbrev pub up_to : ℕ → Report → ℕ
up_to bound (duration d) = one_if (leb d bound)
up_to bound _ = 0

abbrev pub in_flight_change : Report → ℕ
in_flight_change started = 1
in_flight_change completed = 2 ^ 64 - 1
in_flight_change _ = 0

unchanged : (n : ℕ) → n < 2 ^ 64 → n ≡ (n + 0) % 2 ^ 64
unchanged n h = omega (arith, h)

pub proxy_in_flight-adds :
    (r : Report) (m : MetricsRegistry)
    → m.proxy_in_flight < 2 ^ 64
    → (record_one r m).proxy_in_flight ≡ (m.proxy_in_flight + in_flight_change r) % 2 ^ 64
unfolding record_one fetch_add fetch_sub record_request record_health_request record_metrics_request
    record_proxy_request record_cache_hit record_cache_miss record_coalescing_leader
    record_coalescing_waiter record_health_transition proxy_started proxy_completed
    record_response_status record_upstream_selection observe_duration
proxy_in_flight-adds started m h = refl
proxy_in_flight-adds completed m h = refl
proxy_in_flight-adds (response_status s) m h = ground (arith, unchanged m.proxy_in_flight h)
proxy_in_flight-adds _ m h = unchanged m.proxy_in_flight h

pub duration_count-adds :
    (r : Report) (m : MetricsRegistry)
    → m.duration_count < 2 ^ 64
    → (record_one r m).duration_count ≡ (m.duration_count + is_duration r) % 2 ^ 64
unfolding record_one fetch_add fetch_sub record_request record_health_request record_metrics_request
    record_proxy_request record_cache_hit record_cache_miss record_coalescing_leader
    record_coalescing_waiter record_health_transition proxy_started proxy_completed
    record_response_status record_upstream_selection observe_duration
duration_count-adds (duration d) m h = refl
duration_count-adds (response_status s) m h = ground (arith, unchanged m.duration_count h)
duration_count-adds _ m h = unchanged m.duration_count h

pub duration_sum_nanos-adds :
    (r : Report) (m : MetricsRegistry)
    → m.duration_sum_nanos < 2 ^ 64
    → (record_one r m).duration_sum_nanos ≡ (m.duration_sum_nanos + length_of r) % 2 ^ 64
unfolding record_one fetch_add fetch_sub record_request record_health_request record_metrics_request
    record_proxy_request record_cache_hit record_cache_miss record_coalescing_leader
    record_coalescing_waiter record_health_transition proxy_started proxy_completed
    record_response_status record_upstream_selection observe_duration
duration_sum_nanos-adds (duration d) m h = refl
duration_sum_nanos-adds (response_status s) m h = ground (arith, unchanged m.duration_sum_nanos h)
duration_sum_nanos-adds _ m h = unchanged m.duration_sum_nanos h

pub bad_gateway-adds :
    (r : Report) (m : MetricsRegistry)
    → m.bad_gateway < 2 ^ 64
    → (record_one r m).bad_gateway ≡ (m.bad_gateway + has_status 502 r) % 2 ^ 64
unfolding record_one fetch_add fetch_sub record_request record_health_request record_metrics_request
    record_proxy_request record_cache_hit record_cache_miss record_coalescing_leader
    record_coalescing_waiter record_health_transition proxy_started proxy_completed
    record_response_status record_upstream_selection observe_duration
bad_gateway-adds (response_status s) m h = ground (arith, unchanged m.bad_gateway h)
bad_gateway-adds _ m h = unchanged m.bad_gateway h

pub service_unavailable-adds :
    (r : Report) (m : MetricsRegistry)
    → m.service_unavailable < 2 ^ 64
    → (record_one r m).service_unavailable ≡ (m.service_unavailable + has_status 503 r) % 2 ^ 64
unfolding record_one fetch_add fetch_sub record_request record_health_request record_metrics_request
    record_proxy_request record_cache_hit record_cache_miss record_coalescing_leader
    record_coalescing_waiter record_health_transition proxy_started proxy_completed
    record_response_status record_upstream_selection observe_duration
service_unavailable-adds (response_status s) m h = ground (arith, unchanged m.service_unavailable h)
service_unavailable-adds _ m h = unchanged m.service_unavailable h

pub gateway_timeout-adds :
    (r : Report) (m : MetricsRegistry)
    → m.gateway_timeout < 2 ^ 64
    → (record_one r m).gateway_timeout ≡ (m.gateway_timeout + has_status 504 r) % 2 ^ 64
unfolding record_one fetch_add fetch_sub record_request record_health_request record_metrics_request
    record_proxy_request record_cache_hit record_cache_miss record_coalescing_leader
    record_coalescing_waiter record_health_transition proxy_started proxy_completed
    record_response_status record_upstream_selection observe_duration
gateway_timeout-adds (response_status s) m h = ground (arith, unchanged m.gateway_timeout h)
gateway_timeout-adds _ m h = unchanged m.gateway_timeout h

-- The counters of some bounds, each by what it has counted.
abbrev pub counters_of : (ℕ → ℕ) → List ℕ → List ℕ
counters_of count bounds = map (λ bound. count bound % 2 ^ 64) bounds

pub fill_buckets-counters_of :
    (d : ℕ) (count : ℕ → ℕ) (bounds : List ℕ)
    → fill_buckets d bounds (counters_of count bounds)
      ≡ counters_of (λ bound. count bound + one_if (leb d bound)) bounds
unfolding fill_buckets fetch_add
fill_buckets-counters_of d count [] = refl
fill_buckets-counters_of d count (bound ∷ bounds) =
    let rest = fill_buckets-counters_of d count bounds in ground (arith, rest)

pub total_in_flight :
    (rs : List Report)
    → total in_flight_change rs ≡ total is_start rs + (2 ^ 64 - 1) * total is_completion rs
unfolding total
total_in_flight [] = refl
total_in_flight (started ∷ rs) = omega (arith, total_in_flight rs)
total_in_flight (completed ∷ rs) = omega (arith, total_in_flight rs)
total_in_flight (_ ∷ rs) = omega (arith, total_in_flight rs)
