-- ===== src/Parallel/Ends.antt =====
-- What the end of a flight does to the counts, in two parts.
use eventedge.Base.{
  ℕ, ◌+◌, ◌≡◌, refl, ap, ◌∙◌, true, false, List, [], ◌∷◌, ◌++◌, map, some, Text, Text-discrete, ok,
  erase, IsDistinct, erase-IsDistinct, arith,
}
use eventedge.Http.{has_trace_body, Beast, HttpResponse}
use eventedge.Coalescer.{RequestCoalescer, flight}
use eventedge.Metrics.{proxy_completed}
use eventedge.Metrics.Render.{Printer}
use eventedge.Session.{
  Shared, HttpSession, write, post, Clock, call_waiters, call_coalescer, flight_calls,
}
use eventedge.Session.Flight.{complete-erase, flight_calls-map, store-stored}
use eventedge.Service.World.{holder}
use eventedge.Service.World
use eventedge.Service.Counts.{waiting, one_if_key, under, owned-posts, flying-posts}
use eventedge.Service.Flights.{waiting_in-erase, under_way-erase}
use eventedge.Service.Ledger.{posts-IsStarted, IsHealthy, flights_of}
use eventedge.Parallel.State.{waits_for, completes, replies, keep, end_flight}
use eventedge.Parallel.View.{work_of}
use eventedge.Parallel.Calls.{Kept}

module _ (b : Beast) (print : Printer) (n : ℕ) (clock : Clock) (s : HttpSession (Beast.Fields b))
    (fits : has_trace_body s.request ≡ false) where
  open b use {Fields}

  pub keep-Kept :
      (key : Text) (response : HttpResponse Fields) (w : Shared Fields) (base : Text → ℕ)
      → IsHealthy b print n w
      → ((k : Text) → flights_of b print n w k ≡ base k + one_if_key key k)
      → Kept b print n clock s fits w base (keep b print clock key response s w)
  unfolding keep World.assigned holder proxy_completed
  keep-Kept key response w base h lacks =
      let (cache, done, rep) =
        store-stored b print clock key response true
          (record w { metrics = proxy_completed w.metrics }) h.items h.represented in
      rw done (
        s,
        record w { response_cache = cache; metrics = proxy_completed w.metrics },
        completes key response ∷ [],
        refl,
        (
          _,
          _,
          _,
          refl,
          (refl, fits, (b.default_has_none, tt)),
          record {
            items = _;
            represented = rep;
            backends = h.backends;
            labels = h.labels;
            held = h.held;
          },
          (λ id. omega arith),
          (λ k. omega (arith, lacks k)),
        ),
      )

  -- The waiters of a flight under way, and the flight, when it ends.
  called :
      (key : Text) (response : HttpResponse Fields) (w : Shared Fields) (c : RequestCoalescer ℕ)
      (ws : List ℕ)
      → w.request_coalescer ≡ some c
      → flight key c ≡ some ws
      → call_waiters b print key response w ≡ (
        record w {
          request_coalescer = some (record { flights = erase Text-discrete key c.flights });
        },
        map (λ id. post id response) ws,
      )
  unfolding call_waiters call_coalescer
  called key response w c ws is there =
      ap
        (λ held. (
          record w { request_coalescer = (call_coalescer b print key response held).0 },
          (call_coalescer b print key response held).1,
        ))
        is
      ∙ ap (λ x. (record w { request_coalescer = some x.0 }, flight_calls x.1))
          (complete-erase b print key response c ws there)
      ∙ ap
          (λ calls. (
            record w {
              request_coalescer = some (record { flights = erase Text-discrete key c.flights });
            },
            calls,
          ))
          (flight_calls-map b print response ws)

  works_of_posts :
      (response : HttpResponse Fields) (ws : List ℕ)
      → map (work_of b) (map waits_for (map (λ id. post id response) ws) ++ (replies response ∷ []))
        ≡ map (λ id. post id response) ws ++ (write response false ∷ [])
  works_of_posts response [] = refl
  works_of_posts response (id ∷ ws) = ap (◌∷◌ (post id response)) (works_of_posts response ws)

  pub end_flight-Kept :
      (key : Text) (response : HttpResponse Fields) (w : Shared Fields) (base : Text → ℕ)
      (c : RequestCoalescer ℕ) (ws : List ℕ)
      → IsHealthy b print n w
      → w.request_coalescer ≡ some c
      → IsDistinct Text-discrete c.flights
      → flight key c ≡ some ws
      → ((k : Text) → flights_of b print n w k ≡ base k + one_if_key key k)
      → Kept b print n clock s fits w base (end_flight b print key response s w)
  unfolding end_flight
  end_flight-Kept key response w base c ws h is distinct there lacks =
      let c' : RequestCoalescer ℕ = record { flights = erase Text-discrete key c.flights } in
      rw (called key response w c ws is there) (
        s,
        record w { request_coalescer = some c' },
        map waits_for (map (λ id. post id response) ws) ++ (replies response ∷ []),
        refl,
        (
          s,
          record w { request_coalescer = some c' },
          map (λ id. post id response) ws ++ (write response false ∷ []),
          ap (λ new. ok (s, record w { request_coalescer = some c' }, new))
              (works_of_posts response ws),
          (refl, fits, posts-IsStarted b print n response response false ws),
          record {
            items = h.items;
            represented = h.represented;
            backends = h.backends;
            labels = h.labels;
            held = (c', refl, erase-IsDistinct Text-discrete key c.flights distinct);
          },
          (λ id. omega (
            arith,
            owned-posts id s.id response ws response false,
            ap (waiting id) is,
            waiting_in-erase id key c.flights ws there,
          )),
          (λ k. omega (
            arith,
            flying-posts k s.id response ws response false,
            ap (under k) is,
            lacks k,
            under_way-erase k key c.flights ws there distinct,
          )),
        ),
      )
