-- ===== src/Metrics/Orders.antt =====
-- The registry for reports that come in another order.
use mathlib.Core.List.{Perm, Permᴰ}
use mathlib.Core.Logic.{∥∥₁_elim}
use eventedge.Base.{
  ℕ, ◌-◌, ◌^◌, ◌≡◌, refl, sym, ap, ◌∙◌, List, [], ◌∷◌, Option, none, some, Text, ◌==◌,
  if◌then◌else◌, Bool-cases, inl, inr, arith,
}
use eventedge.Handler.{text_eq}
use eventedge.Metrics.Registry.{
  MetricsRegistry, UpstreamMetrics, buckets, fetch_add, fetch_sub, fill_buckets, select_label,
  record_request, record_health_request, record_metrics_request, record_proxy_request,
  record_cache_hit, record_cache_miss, record_coalescing_leader, record_coalescing_waiter,
  record_health_transition, proxy_started, proxy_completed, record_response_status,
  record_upstream_selection, observe_duration,
}
use eventedge.Metrics.Counts.{
  Report, request, health_request, metrics_request, proxy_request, cache_hit, cache_miss, leads,
  waits, health_transition, started, completed, response_status, selection, duration, record_one,
  record_all,
}

-- What is added to each counter, if anything is.
record Change : Type 0 where
  requests : Option ℕ
  health_requests : Option ℕ
  metrics_requests : Option ℕ
  proxy_requests : Option ℕ
  cache_hits : Option ℕ
  cache_misses : Option ℕ
  coalescing_leaders : Option ℕ
  coalescing_waiters : Option ℕ
  bad_gateway : Option ℕ
  service_unavailable : Option ℕ
  gateway_timeout : Option ℕ
  health_transitions : Option ℕ
  proxy_in_flight : Option ℕ
  observed : Option ℕ
  selected : Option Text

abbrev nothing : Change
nothing = record {
  requests = none;
  health_requests = none;
  metrics_requests = none;
  proxy_requests = none;
  cache_hits = none;
  cache_misses = none;
  coalescing_leaders = none;
  coalescing_waiters = none;
  bad_gateway = none;
  service_unavailable = none;
  gateway_timeout = none;
  health_transitions = none;
  proxy_in_flight = none;
  observed = none;
  selected = none;
}

abbrev change : Report → Change
change request = record nothing { requests = some 1 }
change health_request = record nothing { health_requests = some 1 }
change metrics_request = record nothing { metrics_requests = some 1 }
change proxy_request = record nothing { proxy_requests = some 1 }
change cache_hit = record nothing { cache_hits = some 1 }
change cache_miss = record nothing { cache_misses = some 1 }
change leads = record nothing { coalescing_leaders = some 1 }
change waits = record nothing { coalescing_waiters = some 1 }
change health_transition = record nothing { health_transitions = some 1 }
change started = record nothing { proxy_in_flight = some 1 }
change completed = record nothing { proxy_in_flight = some (2 ^ 64 - 1) }
change (response_status status) =
    if status == 502
    then record nothing { bad_gateway = some 1 }
    else if status == 503
    then record nothing { service_unavailable = some 1 }
    else if status == 504
    then record nothing { gateway_timeout = some 1 }
    else nothing
change (selection upstream) = record nothing { selected = some upstream }
change (duration d) = record nothing { observed = some d }

-- `f` for the value that is there.
abbrev apply_some : {A B : Type 0} → (A → B → B) → Option A → B → B
apply_some f none b = b
apply_some f (some a) b = f a b

abbrev apply : Change → MetricsRegistry → MetricsRegistry
apply c m = record {
  upstreams = apply_some select_label c.selected m.upstreams;
  requests = apply_some fetch_add c.requests m.requests;
  health_requests = apply_some fetch_add c.health_requests m.health_requests;
  metrics_requests = apply_some fetch_add c.metrics_requests m.metrics_requests;
  proxy_requests = apply_some fetch_add c.proxy_requests m.proxy_requests;
  cache_hits = apply_some fetch_add c.cache_hits m.cache_hits;
  cache_misses = apply_some fetch_add c.cache_misses m.cache_misses;
  coalescing_leaders = apply_some fetch_add c.coalescing_leaders m.coalescing_leaders;
  coalescing_waiters = apply_some fetch_add c.coalescing_waiters m.coalescing_waiters;
  bad_gateway = apply_some fetch_add c.bad_gateway m.bad_gateway;
  service_unavailable = apply_some fetch_add c.service_unavailable m.service_unavailable;
  gateway_timeout = apply_some fetch_add c.gateway_timeout m.gateway_timeout;
  health_transitions = apply_some fetch_add c.health_transitions m.health_transitions;
  proxy_in_flight = apply_some fetch_add c.proxy_in_flight m.proxy_in_flight;
  duration_count = apply_some (λ d. fetch_add 1) c.observed m.duration_count;
  duration_sum_nanos = apply_some fetch_add c.observed m.duration_sum_nanos;
  duration_buckets = apply_some (λ d. fill_buckets d buckets) c.observed m.duration_buckets;
}

record_one-apply : (r : Report) (m : MetricsRegistry) → record_one r m ≡ apply (change r) m
unfolding record_one fetch_add fetch_sub record_request record_health_request record_metrics_request
    record_proxy_request record_cache_hit record_cache_miss record_coalescing_leader
    record_coalescing_waiter record_health_transition proxy_started proxy_completed
    record_response_status record_upstream_selection observe_duration
record_one-apply request m = refl
record_one-apply health_request m = refl
record_one-apply metrics_request m = refl
record_one-apply proxy_request m = refl
record_one-apply cache_hit m = refl
record_one-apply cache_miss m = refl
record_one-apply leads m = refl
record_one-apply waits m = refl
record_one-apply health_transition m = refl
record_one-apply started m = refl
record_one-apply completed m = refl
record_one-apply (response_status s) m = ground arith
record_one-apply (selection u) m = refl
record_one-apply (duration d) m = refl

-- Two additions to the same counter, in either order.
module _ {A B : Type 0} (f : A → B → B)
    (commutes : (x y : A) (b : B) → f x (f y b) ≡ f y (f x b)) where
  apply_some_comm :
      (x y : Option A) (b : B)
      → apply_some f x (apply_some f y b) ≡ apply_some f y (apply_some f x b)
  apply_some_comm none y b = refl
  apply_some_comm (some x) none b = refl
  apply_some_comm (some x) (some y) b = commutes x y b

fetch_add_comm :
    (x y counter : ℕ) → fetch_add x (fetch_add y counter) ≡ fetch_add y (fetch_add x counter)
unfolding fetch_add
fetch_add_comm x y counter = omega arith

fill_buckets_comm :
    (d e : ℕ) (bounds counters : List ℕ)
    → fill_buckets d bounds (fill_buckets e bounds counters)
      ≡ fill_buckets e bounds (fill_buckets d bounds counters)
unfolding fill_buckets fetch_add
fill_buckets_comm d e [] counters = refl
fill_buckets_comm d e (bound ∷ bounds) [] = refl
fill_buckets_comm d e (bound ∷ bounds) (counter ∷ counters) =
    let rest = fill_buckets_comm d e bounds counters in ground (arith, rest)

select_label_comm :
    (t u : Text) (vs : List UpstreamMetrics)
    → select_label t (select_label u vs) ≡ select_label u (select_label t vs)
unfolding select_label fetch_add
select_label_comm t u [] = refl
select_label_comm t u (v ∷ vs) =
    let rest = select_label_comm t u vs in
    elim (Bool-cases (text_eq v.label t)) [
      | inl h ↦ elim (Bool-cases (text_eq v.label u)) [
        | inl g ↦ ground (arith, h, g)
        | inr g ↦ ground (arith, h, g)
      ]
      | inr h ↦ elim (Bool-cases (text_eq v.label u)) [
        | inl g ↦ ground (arith, h, g)
        | inr g ↦ ground (arith, h, g, rest)
      ]
    ]

apply_comm : (c d : Change) (m : MetricsRegistry) → apply c (apply d m) ≡ apply d (apply c m)
apply_comm c d m = λ i. record {
  upstreams = apply_some_comm select_label select_label_comm c.selected d.selected m.upstreams i;
  requests = adds c.requests d.requests m.requests i;
  health_requests = adds c.health_requests d.health_requests m.health_requests i;
  metrics_requests = adds c.metrics_requests d.metrics_requests m.metrics_requests i;
  proxy_requests = adds c.proxy_requests d.proxy_requests m.proxy_requests i;
  cache_hits = adds c.cache_hits d.cache_hits m.cache_hits i;
  cache_misses = adds c.cache_misses d.cache_misses m.cache_misses i;
  coalescing_leaders = adds c.coalescing_leaders d.coalescing_leaders m.coalescing_leaders i;
  coalescing_waiters = adds c.coalescing_waiters d.coalescing_waiters m.coalescing_waiters i;
  bad_gateway = adds c.bad_gateway d.bad_gateway m.bad_gateway i;
  service_unavailable = adds c.service_unavailable d.service_unavailable m.service_unavailable i;
  gateway_timeout = adds c.gateway_timeout d.gateway_timeout m.gateway_timeout i;
  health_transitions = adds c.health_transitions d.health_transitions m.health_transitions i;
  proxy_in_flight = adds c.proxy_in_flight d.proxy_in_flight m.proxy_in_flight i;
  duration_count =
      apply_some_comm (λ _. fetch_add 1) (λ x y n. refl) c.observed d.observed m.duration_count i;
  duration_sum_nanos = adds c.observed d.observed m.duration_sum_nanos i;
  duration_buckets =
      apply_some_comm (λ x. fill_buckets x buckets) (λ x y. fill_buckets_comm x y buckets)
        c.observed d.observed m.duration_buckets i;
}
  where
    adds :
        (x y : Option ℕ) (n : ℕ)
        → apply_some fetch_add x (apply_some fetch_add y n)
          ≡ apply_some fetch_add y (apply_some fetch_add x n)
    adds = apply_some_comm fetch_add fetch_add_comm

record_one_comm :
    (r q : Report) (m : MetricsRegistry)
    → record_one r (record_one q m) ≡ record_one q (record_one r m)
record_one_comm r q m =
    record_one-apply r (record_one q m)
    ∙ ap (apply (change r)) (record_one-apply q m)
    ∙ apply_comm (change r) (change q) m
    ∙ sym (record_one-apply q (record_one r m) ∙ ap (apply (change q)) (record_one-apply r m))

record_all-Permᴰ :
    {rs qs : List Report} → Permᴰ rs qs → (m : MetricsRegistry) → record_all rs m ≡ record_all qs m
unfolding record_all
record_all-Permᴰ Permᴰ.nil m = refl
record_all-Permᴰ (Permᴰ.cons {b = r} {l₁ = l₁} e p) m =
    ap (λ x. record_all l₁ (record_one x m)) e ∙ record_all-Permᴰ p (record_one r m)
record_all-Permᴰ (Permᴰ.swap {a = r} {b = q} {l = l} e₁ e₂) m =
    ap (record_all l) (record_one_comm q r m ∙ (λ i. record_one (e₁ i) (record_one (e₂ i) m)))
record_all-Permᴰ (Permᴰ.trans p₁ p₂) m = record_all-Permᴰ p₁ m ∙ record_all-Permᴰ p₂ m

MetricsRegistry-IsSet : IsSet MetricsRegistry
MetricsRegistry-IsSet = hlevel

-- Reports that come in any other order leave every counter, every bucket and every upstream's
-- selections with the same values.
pub record_all-Perm :
    {rs qs : List Report} → Perm rs qs → (m : MetricsRegistry) → record_all rs m ≡ record_all qs m
record_all-Perm {rs} {qs} p m =
    ∥∥₁_elim p (MetricsRegistry-IsSet (record_all rs m) (record_all qs m))
      (λ d. record_all-Permᴰ d m)
