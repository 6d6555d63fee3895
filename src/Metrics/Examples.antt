-- ===== src/Metrics/Examples.antt =====
-- The counters on small histories.
use mathlib.Core.List.{perm_append_comm}
use eventedge.Base.{◌%◌, ◌^◌, ◌≡◌, refl, true, false, List, [], ◌∷◌, ◌++◌, codes, arith}
use eventedge.Upstream.{UpstreamPool}
use eventedge.Metrics.Registry.{UpstreamMetrics, start, buckets}
use eventedge.Metrics.Counts.{
  Report, started, completed, response_status, selection, duration, record_all, total, has_status,
  is_duration, length_of, up_to, counters_of,
}
use eventedge.Metrics.Totals.{
  proxy_in_flight-record_all, gateway_counters-record_all, durations-record_all,
}
use eventedge.Metrics.Orders.{record_all-Perm}

abbrev one_upstream : List UpstreamMetrics
one_upstream = record { label = codes "localhost:9001"; selections = 0 } ∷ []

abbrev reports : List Report
reports =
    started
    ∷ selection (codes "localhost:9001")
    ∷ started
    ∷ completed
    ∷ response_status 502
    ∷ duration 3000000
    ∷ response_status 200
    ∷ duration 700000
    ∷ []

proxy_in_flight-record_all_example : (record_all reports (start one_upstream)).proxy_in_flight ≡ 1
unfolding total
proxy_in_flight-record_all_example =
    proxy_in_flight-record_all one_upstream reports 1 refl (omega arith)

gateway_counters-record_all_example :
    ((record_all reports (start one_upstream)).bad_gateway
      ≡ total (has_status 502) reports % 2 ^ 64)
    × ((record_all reports (start one_upstream)).service_unavailable
        ≡ total (has_status 503) reports % 2 ^ 64)
    × ((record_all reports (start one_upstream)).gateway_timeout
        ≡ total (has_status 504) reports % 2 ^ 64)
gateway_counters-record_all_example = gateway_counters-record_all one_upstream reports

durations-record_all_example :
    ((record_all reports (start one_upstream)).duration_count ≡ total is_duration reports % 2 ^ 64)
    × ((record_all reports (start one_upstream)).duration_sum_nanos
        ≡ total length_of reports % 2 ^ 64)
    × ((record_all reports (start one_upstream)).duration_buckets
        ≡ counters_of (λ bound. total (λ r. up_to bound r) reports) buckets)
durations-record_all_example = durations-record_all one_upstream reports

abbrev small_pool : UpstreamPool
small_pool = record {
  backends =
      record { endpoint = record { host = codes "a"; port = 1 }; healthy = true }
      ∷ record { endpoint = record { host = codes "b"; port = 2 }; healthy = false }
      ∷ [];
  next_index = 0;
}

-- The reports of another thread, before or after those above.
abbrev more_reports : List Report
more_reports = completed ∷ duration 20000000 ∷ response_status 504 ∷ []

record_all-Perm_example :
    record_all (reports ++ more_reports) (start one_upstream)
    ≡ record_all (more_reports ++ reports) (start one_upstream)
record_all-Perm_example =
    record_all-Perm (perm_append_comm reports more_reports) (start one_upstream)
