-- ===== src/Metrics/Totals.antt =====
-- The counters of a registry that started at zero, after any history of reports.
use eventedge.Base.{ℕ, ◌+◌, ◌%◌, ◌^◌, ◌<◌, ◌≡◌, refl, ap, ◌∙◌, List, [], ◌∷◌, arith}
use eventedge.Metrics.Registry.{
  MetricsRegistry, UpstreamMetrics, start, buckets, observe_duration, fetch_add, fetch_sub,
  fill_buckets, record_request, record_health_request, record_metrics_request, record_proxy_request,
  record_cache_hit, record_cache_miss, record_coalescing_leader, record_coalescing_waiter,
  record_health_transition, proxy_started, proxy_completed, record_response_status,
  record_upstream_selection,
}
use eventedge.Metrics.Counts.{
  Report, response_status, duration, record_one, record_all, total, counter_from_zero, is_start,
  is_completion, has_status, is_duration, length_of, up_to, in_flight_change, total_in_flight,
  counters_of, fill_buckets-counters_of, proxy_in_flight-adds, duration_count-adds,
  duration_sum_nanos-adds, bad_gateway-adds, service_unavailable-adds, gateway_timeout-adds,
}

buckets-record_one :
    (r : Report) (count : ℕ → ℕ) (m : MetricsRegistry)
    → m.duration_buckets ≡ counters_of count buckets
    → (record_one r m).duration_buckets ≡ counters_of (λ bound. count bound + up_to bound r) buckets
unfolding record_one fetch_add fetch_sub record_request record_health_request record_metrics_request
    record_proxy_request record_cache_hit record_cache_miss record_coalescing_leader
    record_coalescing_waiter record_health_transition proxy_started proxy_completed
    record_response_status record_upstream_selection observe_duration
buckets-record_one (duration d) count m h =
    ap (fill_buckets d buckets) h ∙ fill_buckets-counters_of d count buckets
buckets-record_one (response_status s) count m h = ground (arith, h)
buckets-record_one _ count m h = h ∙ ground arith

buckets-record_all :
    (rs : List Report) (count : ℕ → ℕ) (m : MetricsRegistry)
    → m.duration_buckets ≡ counters_of count buckets
    → (record_all rs m).duration_buckets
      ≡ counters_of (λ bound. count bound + total (λ r. up_to bound r) rs) buckets
unfolding record_all total
buckets-record_all [] count m h = h ∙ ground arith
buckets-record_all (r ∷ rs) count m h =
    let step = buckets-record_one r count m h in
    let later =
      buckets-record_all rs (λ bound. count bound + up_to bound r) (record_one r m) step in
    later ∙ ground arith

module _ (upstreams : List UpstreamMetrics) where
  -- After any history of reports in which no more proxies have completed than started, and fewer
  -- than 2^64 are still open, the gauge is the number of proxies that are open.
  pub proxy_in_flight-record_all :
      (rs : List Report) (open_now : ℕ)
      → total is_start rs ≡ open_now + total is_completion rs
      → open_now < 2 ^ 64
      → (record_all rs (start upstreams)).proxy_in_flight ≡ open_now
  unfolding start
  proxy_in_flight-record_all rs open_now balance small =
      let all =
        counter_from_zero (λ m. m.proxy_in_flight) in_flight_change proxy_in_flight-adds rs
          (start upstreams) refl in
      omega (arith, all, total_in_flight rs, balance, small)

  -- After any history of reports, each gateway counter is the number of responses with its status,
  -- modulo 2^64.
  pub gateway_counters-record_all :
      (rs : List Report)
      → ((record_all rs (start upstreams)).bad_gateway ≡ total (has_status 502) rs % 2 ^ 64)
        × ((record_all rs (start upstreams)).service_unavailable
            ≡ total (has_status 503) rs % 2 ^ 64)
        × ((record_all rs (start upstreams)).gateway_timeout ≡ total (has_status 504) rs % 2 ^ 64)
  unfolding start
  gateway_counters-record_all rs = (
    counter_from_zero (λ m. m.bad_gateway) (has_status 502) bad_gateway-adds rs (start upstreams)
        refl,
    counter_from_zero (λ m. m.service_unavailable) (has_status 503) service_unavailable-adds rs
        (start upstreams) refl,
    counter_from_zero (λ m. m.gateway_timeout) (has_status 504) gateway_timeout-adds rs
        (start upstreams) refl,
  )

  -- After any history of reports, the count, the sum and every bucket are those of the durations
  -- reported: how many, how long in all, and how many up to the bound, modulo 2^64.
  pub durations-record_all :
      (rs : List Report)
      → ((record_all rs (start upstreams)).duration_count ≡ total is_duration rs % 2 ^ 64)
        × ((record_all rs (start upstreams)).duration_sum_nanos ≡ total length_of rs % 2 ^ 64)
        × ((record_all rs (start upstreams)).duration_buckets
            ≡ counters_of (λ bound. total (λ r. up_to bound r) rs) buckets)
  unfolding start
  durations-record_all rs = (
    counter_from_zero (λ m. m.duration_count) is_duration duration_count-adds rs (start upstreams)
        refl,
    counter_from_zero (λ m. m.duration_sum_nanos) length_of duration_sum_nanos-adds rs
        (start upstreams) refl,
    buckets-record_all rs (λ bound. 0) (start upstreams) refl ∙ ground arith,
  )
