-- ===== src/Service/Routes.antt =====
-- What each handler of a session does to the counts: the routes of a request.
use mathlib.Core.Path.{subst}
use eventedge.Base.{
  ℕ, ◌+◌, ◌≡◌, refl, sym, ap, ◌∙◌, inl, inr, false, List, [], ◌∷◌, ◌++◌, Option, none, some, Text,
  Text-discrete, ok, Option-cases, lookup, assign, IsDistinct, assign-IsDistinct, arith,
}
use eventedge.Http.{Beast, HttpResponse, has_trace_body}
use eventedge.Handler.{make_service_unavailable_response}
use eventedge.Upstream.{Selection, size, select}
use eventedge.Upstream.Select.{select-Selects, Selects-size}
use eventedge.Cache.{ResponseCache, get}
use eventedge.Cache.Spec.{read}
use eventedge.Cache.Refines.{get-read}
use eventedge.Coalescer.{RequestCoalescer, Role, leader, flight}
use eventedge.Metrics.{
  record_cache_hit, record_cache_miss, record_coalescing_leader, record_coalescing_waiter,
}
use eventedge.Metrics.Render.{Printer}
use eventedge.Session.{
  Shared, HttpSession, Clock, Result, serve_cacheable, serve_uncacheable, on_miss, join_flight,
  on_role, lead,
}
use eventedge.Session.Joins.{join_first, join_later}
use eventedge.Service.World.{holder, assigned}
use eventedge.Service.Counts.{waiting, one_if_key, under}
use eventedge.Service.Flights.{times-append, waiting_in-assign, under_way-cons, under_way-assign}
use eventedge.Service.Ledger.{
  IsHealthy, Ledger, going_on, flights_of, write_response-Ledger, current-Ledger,
  start_proxy-Ledger, complete_flight-Ledger,
}

module _ (b : Beast) (print : Printer) (n : ℕ) where
  open b use {Fields}

  -- The same counts, told otherwise.
  Ledger-same :
      (i : ℕ) (target target' : ℕ → ℕ) (base : Text → ℕ) (result : Result b print)
      → ((id : ℕ) → target id ≡ target' id)
      → Ledger b print n i target base result
      → Ledger b print n i target' base result
  Ledger-same i target target' base result same (s, w, new, done, place, healthy, owns, flies) =
      (s, w, new, done, place, healthy, (λ id. owns id ∙ same id), flies)

  pub selected-IsHealthy :
      (w : Shared Fields) (r : Selection)
      → IsHealthy b print n w
      → select w.upstream_pool ≡ ok r
      → IsHealthy b print n (record w { upstream_pool = r.0 })
  selected-IsHealthy w r h runs =
      let (r', runs', result) = select-Selects w.upstream_pool in
      let same : r' ≡ r = cc in
      record {
        items = h.items;
        represented = h.represented;
        backends =
            ap (λ x. size x.0) (sym same) ∙ Selects-size w.upstream_pool r' result ∙ h.backends;
        labels = h.labels;
        held = h.held;
      }

  module _ (clock : Clock) (s : HttpSession Fields) (fits : has_trace_body s.request ≡ false) where
    -- The leader of a flight that is under way and has no proxy.
    lead-Ledger :
        (key : Text) (w : Shared Fields) (c : RequestCoalescer ℕ) (base : Text → ℕ) (r : Selection)
        → IsHealthy b print n w
        → w.request_coalescer ≡ some c
        → flight key c ≡ some []
        → ((k : Text) → flights_of b print n w k ≡ base k + one_if_key key k)
        → select w.upstream_pool ≡ ok r
        → Ledger b print n s.id (going_on b print n s.id w) base (lead b print clock key s w)
    unfolding lead assigned holder
    lead-Ledger key w c base (pool, none) h is there lacks runs = rw runs (
        complete_flight-Ledger b print n clock s (record w { upstream_pool = pool })
          (selected-IsHealthy w (pool, none) h runs) fits key
          (make_service_unavailable_response b s.request) false base c [] is there lacks)
    lead-Ledger key w c base (pool, some endpoint) h is there lacks runs = rw runs (
        start_proxy-Ledger b print n clock s (record w { upstream_pool = pool })
          (selected-IsHealthy w (pool, some endpoint) h runs) fits (some key) endpoint base
          (λ k. omega (arith, lacks k)))

    pub serve_uncacheable-Ledger :
        (w : Shared Fields) (r : Selection)
        → IsHealthy b print n w
        → select w.upstream_pool ≡ ok r
        → Ledger b print n s.id
            (going_on b print n s.id w)
            (flights_of b print n w)
            (serve_uncacheable b print clock s w)
    unfolding serve_uncacheable assigned holder
    serve_uncacheable-Ledger w (pool, none) h runs = rw runs (
        write_response-Ledger b print n clock s (record w { upstream_pool = pool })
          (selected-IsHealthy w (pool, none) h runs) fits
          (make_service_unavailable_response b s.request))
    serve_uncacheable-Ledger w (pool, some endpoint) h runs = rw runs (
        start_proxy-Ledger b print n clock s (record w { upstream_pool = pool })
          (selected-IsHealthy w (pool, some endpoint) h runs) fits none endpoint
          (flights_of b print n w) (λ k. omega arith))

    -- A miss that leads a new flight, or waits in the one that is under way.
    first-Ledger :
        (key : Text) (w : Shared Fields) (c : RequestCoalescer ℕ) (r : Selection)
        → IsHealthy b print n w
        → w.request_coalescer ≡ some c
        → IsDistinct Text-discrete c.flights
        → flight key c ≡ none
        → select w.upstream_pool ≡ ok r
        → Ledger b print n s.id (going_on b print n s.id w) (flights_of b print n w) (
            on_role b print clock key leader s
              (record w { request_coalescer = some (record { flights = (key, []) ∷ c.flights }) }))
    unfolding on_role record_coalescing_leader lookup
    first-Ledger key w c r h is distinct out runs =
        let c' : RequestCoalescer ℕ = record { flights = (key, []) ∷ c.flights } in
        let w' = record w {
          request_coalescer = some c';
          metrics = record_coalescing_leader w.metrics;
        } in
        let h' : IsHealthy b print n w' = record {
          items = h.items;
          represented = h.represented;
          backends = h.backends;
          labels = h.labels;
          held = (c', refl, (out, distinct));
        } in
        Ledger-same s.id (going_on b print n s.id w') (going_on b print n s.id w)
          (flights_of b print n w) (lead b print clock key s w')
          (λ id. omega (arith, ap (waiting id) is))
          (lead-Ledger key w' c' (flights_of b print n w) r h' refl (ground arith)
            (λ k. omega (arith, under_way-cons k key c.flights out, ap (under k) is)) runs)

    pub later-Ledger :
        (key : Text) (w : Shared Fields) (c : RequestCoalescer ℕ) (ws : List ℕ)
        → IsHealthy b print n w
        → w.request_coalescer ≡ some c
        → IsDistinct Text-discrete c.flights
        → flight key c ≡ some ws
        → Ledger b print n s.id (going_on b print n s.id w) (flights_of b print n w) (
            on_role b print clock key Role.waiter s (record w {
              request_coalescer =
                  some
                    (record { flights = assign Text-discrete key (ws ++ (s.id ∷ [])) c.flights });
            }))
    unfolding on_role record_coalescing_waiter assigned
    later-Ledger key w c ws h is distinct there =
        let ws' = ws ++ (s.id ∷ []) in
        (
          _,
          _,
          _,
          refl,
          (refl, fits, tt),
          record {
            items = h.items;
            represented = h.represented;
            backends = h.backends;
            labels = h.labels;
            held = (_, refl, assign-IsDistinct Text-discrete key ws' c.flights distinct);
          },
          (λ id. omega (
            arith,
            waiting_in-assign id key c.flights ws ws' there,
            times-append ws (s.id ∷ []) id,
            ap (waiting id) is,
          )),
          (λ k. omega (arith, under_way-assign k key c.flights ws ws' there, ap (under k) is)),
        )

    join_flight-Ledger :
        (key : Text) (w : Shared Fields) (c : RequestCoalescer ℕ)
        → IsHealthy b print n w
        → w.request_coalescer ≡ some c
        → IsDistinct Text-discrete c.flights
        → Ledger b print n s.id
            (going_on b print n s.id w)
            (flights_of b print n w)
            (join_flight b print clock key (some c) s w)
    unfolding join_flight
    join_flight-Ledger key w c h is distinct =
        let goal : RequestCoalescer ℕ × Role → Type 0 = λ j.
          Ledger b print n s.id (going_on b print n s.id w) (flights_of b print n w)
            (on_role b print clock key j.1 s (record w { request_coalescer = some j.0 })) in
        elim (Option-cases (flight key c)) [
          | inl out ↦
              let (r, runs, result) = select-Selects w.upstream_pool in
              subst goal (sym (join_first key s.id c out))
                (first-Ledger key w c r h is distinct out runs)
          | inr (ws, there) ↦
              subst goal (sym (join_later key s.id c ws there))
                (later-Ledger key w c ws h is distinct there)
        ]

    on_miss-Ledger :
        (key : Text) (w : Shared Fields)
        → IsHealthy b print n w
        → Ledger b print n s.id
            (going_on b print n s.id w)
            (flights_of b print n w)
            (on_miss b print clock key s w)
    unfolding on_miss record_cache_miss
    on_miss-Ledger key w h =
        let (c, is, distinct) = h.held in
        let missed = record w { metrics = record_cache_miss w.metrics } in
        let h' : IsHealthy b print n missed = record {
          items = h.items;
          represented = h.represented;
          backends = h.backends;
          labels = h.labels;
          held = h.held;
        } in
        subst
          (λ held.
            Ledger b print n s.id (going_on b print n s.id w) (flights_of b print n w)
              (join_flight b print clock key held s missed))
          (sym is) (join_flight-Ledger key missed c h' is distinct)

    cached-Ledger :
        (key : Text) (w : Shared Fields) (cache : ResponseCache (HttpResponse Fields))
        (cached : Option (HttpResponse Fields))
        → IsHealthy b print n (record w { response_cache = cache })
        → get clock.cached key w.response_cache ≡ ok (cache, cached)
        → Ledger b print n s.id
            (going_on b print n s.id w)
            (flights_of b print n w)
            (serve_cacheable b print clock key s w)
    unfolding serve_cacheable record_cache_hit
    cached-Ledger key w cache none h got =
        rw got (on_miss-Ledger key (record w { response_cache = cache }) h)
    cached-Ledger key w cache (some response) h got = rw got (
        current-Ledger b print n clock s
          (record w { response_cache = cache; metrics = record_cache_hit w.metrics })
          (record {
            items = h.items;
            represented = h.represented;
            backends = h.backends;
            labels = h.labels;
            held = h.held;
          })
          fits response)

    pub serve_cacheable-Ledger :
        (key : Text) (w : Shared Fields)
        → IsHealthy b print n w
        → Ledger b print n s.id
            (going_on b print n s.id w)
            (flights_of b print n w)
            (serve_cacheable b print clock key s w)
    serve_cacheable-Ledger key w h =
        let (cache, got, kept, same) =
          get-read clock.cached key w.response_cache h.items h.represented in
        cached-Ledger key w cache (read clock.cached key h.items).1
          (record {
            items = (read clock.cached key h.items).0;
            represented = kept;
            backends = h.backends;
            labels = h.labels;
            held = h.held;
          })
          got
