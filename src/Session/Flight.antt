-- ===== src/Session/Flight.antt =====
-- The end of a flight: what is stored, who is answered, and what is left.
use mathlib.Core.Path.{subst}
use eventedge.Base.{
  ℕ, ◌+◌, ◌≡◌, refl, ap, ◌∙◌, ◌⊎◌, inl, inr, Bool, true, false, ◌&&◌, List, [], ◌∷◌, ◌++◌, map,
  some, Text, Text-discrete, length, ok, if◌then◌else◌, Bool-cases, erase,
}
use eventedge.Http.{Beast, HttpResponse}
use eventedge.Cache.{ResponseCache, put}
use eventedge.Cache.Spec.{Item, Items}
use eventedge.Cache.Refines.{Represents, put-write}
use eventedge.Coalescer.{RequestCoalescer, flight, complete}
use eventedge.Metrics.{observe_duration}
use eventedge.Metrics.Labels.{labels-status}
use eventedge.Metrics.Render.{Printer}
use eventedge.Session.Objects.{Shared, HttpSession, write, post, Clock, flight_calls}
use eventedge.Session.Routing.{
  write_response, for_request, write_response_for_current_request, cacheable_response, store,
  call_waiters, call_coalescer, complete_flight,
}
use eventedge.Session.Storing.{MayBeStored, cacheable_response-MayBeStored}

module _ (b : Beast) (print : Printer) where
  open b use {Fields}

  pub complete-erase :
      (key : Text) (response : HttpResponse Fields) (c : RequestCoalescer ℕ) (ws : List ℕ)
      → flight key c ≡ some ws
      → complete key response c
        ≡ (record { flights = erase Text-discrete key c.flights }, map (λ id. (id, response)) ws)
  unfolding complete
  complete-erase key response c ws there = rw (there, complete)

  pub flight_calls-map :
      (response : HttpResponse Fields) (ws : List ℕ)
      → flight_calls (map (λ id. (id, response)) ws) ≡ map (λ id. post id response) ws
  flight_calls-map response [] = refl
  flight_calls-map response (id ∷ ws) = ap (◌∷◌ (post id response)) (flight_calls-map response ws)

  -- The items after the flight: the response is written if it may be.
  abbrev pub stored :
      Clock
      → Text
      → HttpResponse Fields
      → Bool
      → ResponseCache (HttpResponse Fields)
      → Items (HttpResponse Fields)
      → Items (HttpResponse Fields)
  stored clock key response should_cache cache items =
      if should_cache && cacheable_response b print response
      then eventedge.Cache.Spec.write cache.capacity key
          (record { response = response; expires_at = clock.cached + cache.ttl }) items
      else items

  pub store-stored :
      (clock : Clock) (key : Text) (response : HttpResponse Fields) (should_cache : Bool)
      (w : Shared Fields) (items : Items (HttpResponse Fields))
      → Represents w.response_cache items
      → (cache : ResponseCache (HttpResponse Fields)) × (store b print clock key response
            should_cache w
          ≡ ok (record w { response_cache = cache }))
        × Represents cache (stored clock key response should_cache w.response_cache items)
  unfolding store
  store-stored clock key response should_cache w items rep =
      elim (Bool-cases (should_cache && cacheable_response b print response)) [
        | inl keep ↦
            let (cache, done, rep', same) =
              put-write clock.cached key response w.response_cache items rep in
            rw (keep, done) (cache, refl, rep')
        | inr drop ↦ rw drop (w.response_cache, refl, rep)
      ]

  pub complete_flight-runs :
      (clock : Clock) (key : Text) (response : HttpResponse Fields) (should_cache : Bool)
      (s : HttpSession Fields) (w : Shared Fields) (items : Items (HttpResponse Fields))
      (c : RequestCoalescer ℕ) (ws : List ℕ)
      → Represents w.response_cache items
      → w.request_coalescer ≡ some c
      → flight key c ≡ some ws
      → (w' : Shared Fields) × (complete_flight b print clock key response should_cache s w
          ≡ ok (
            s,
            w',
            map (λ id. post id response) ws
                ++ (write
                      (for_request b print s.request response)
                      (b.need_eof (for_request b print s.request response))
                    ∷ []),
          ))
        × (w'.request_coalescer ≡ some (record { flights = erase Text-discrete key c.flights }))
        × (w'.upstream_pool ≡ w.upstream_pool)
        × (length w'.metrics.upstreams ≡ length w.metrics.upstreams)
        × Represents w'.response_cache
            (stored clock key response should_cache w.response_cache items)
  unfolding complete_flight call_waiters call_coalescer observe_duration
      write_response_for_current_request write_response
  complete_flight-runs clock key response should_cache s w items c ws rep held there =
      let (cache, done, rep') = store-stored clock key response should_cache w items rep in
      let called : call_coalescer b print key response w.request_coalescer ≡ (
        some (record { flights = erase Text-discrete key c.flights }),
        map (λ id. post id response) ws,
      ) =
        ap (call_coalescer b print key response) held
        ∙ ap (λ x. (some x.0, flight_calls x.1)) (complete-erase key response c ws there)
        ∙ ap (λ x. (some (record { flights = erase Text-discrete key c.flights }), x))
            (flight_calls-map response ws) in
      rw (done, called)
        (
          _,
          refl,
          refl,
          refl,
          labels-status (for_request b print s.request response).status w.metrics,
          rep',
        )

  -- The items after the flight: the response is written, with its time, exactly if it was to be
  -- stored and may be.
  pub IsStored :
      Clock
      → Text
      → HttpResponse Fields
      → Bool
      → ResponseCache (HttpResponse Fields)
      → Items (HttpResponse Fields)
      → ResponseCache (HttpResponse Fields)
      → Type 0
  IsStored clock key response should_cache cache items cache' =
      ((should_cache ≡ true)
        × MayBeStored b print response
        × Represents cache' (
            eventedge.Cache.Spec.write cache.capacity key
              (record { response = response; expires_at = clock.cached + cache.ttl }) items))
      ⊎ ((¬ ((should_cache ≡ true) × MayBeStored b print response)) × Represents cache' items)

  stored-IsStored :
      (clock : Clock) (key : Text) (response : HttpResponse Fields) (should_cache : Bool)
      (cache : ResponseCache (HttpResponse Fields)) (items : Items (HttpResponse Fields))
      (cache' : ResponseCache (HttpResponse Fields))
      → Represents cache' (stored clock key response should_cache cache items)
      → IsStored clock key response should_cache cache items cache'
  unfolding IsStored
  stored-IsStored clock key response false cache items cache' rep =
      inr (λ both. let impossible = both.0 in cc, rep)
  stored-IsStored clock key response true cache items cache' rep =
      elim (cacheable_response-MayBeStored b print response) [
        | inl (kept, may) ↦ inl (refl, may, subst (Represents cache') (rw kept refl) rep)
        | inr (dropped, refused) ↦
            inr (λ both. refused both.1, subst (Represents cache') (rw dropped refl) rep)
      ]

  -- When a leader's flight ends, with a cache that stands for some items and the flight under way,
  -- the handler has defined behaviour and does not throw: each waiter of the flight is posted the
  -- response, in the order in which they joined, and then the session's own request is answered
  -- with its status and body, in the request's version and with the request's keep-alive; the
  -- flight is gone and the others stay; the pool is as it was and the metrics keep as many labels;
  -- and the response is written to the cache's items exactly if it was to be stored, its status is
  -- 200, it sets no cookie and its Cache-Control mentions neither no-store nor private, else the
  -- items stay.
  pub complete_flight-Represents :
      (clock : Clock) (key : Text) (response : HttpResponse Fields) (should_cache : Bool)
      (s : HttpSession Fields) (w : Shared Fields) (items : Items (HttpResponse Fields))
      (c : RequestCoalescer ℕ) (ws : List ℕ) (answer : HttpResponse Fields)
      → Represents w.response_cache items
      → w.request_coalescer ≡ some c
      → flight key c ≡ some ws
      → answer ≡ record {
        status = response.status;
        version = s.request.version;
        fields =
            b.set_keep_alive s.request.version
              (b.keep_alive s.request.version s.request.fields)
              response.fields;
        body = response.body;
      }
      → (w' : Shared Fields) × (complete_flight b print clock key response should_cache s w
          ≡ ok (s, w', map (λ id. post id response) ws ++ (write answer (b.need_eof answer) ∷ [])))
        × (w'.request_coalescer ≡ some (record { flights = erase Text-discrete key c.flights }))
        × (w'.upstream_pool ≡ w.upstream_pool)
        × (length w'.metrics.upstreams ≡ length w.metrics.upstreams)
        × IsStored clock key response should_cache w.response_cache items w'.response_cache
  unfolding for_request
  complete_flight-Represents clock key response should_cache s w items c ws answer rep held there
        a =
      let (w', done, gone, pool, labels, rep') =
        complete_flight-runs clock key response should_cache s w items c ws rep held there in
      rw a (
        w',
        done,
        gone,
        pool,
        labels,
        stored-IsStored clock key response should_cache w.response_cache items w'.response_cache
            rep',
      )
