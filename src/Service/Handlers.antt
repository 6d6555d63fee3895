-- ===== src/Service/Handlers.antt =====
-- What the handler of any piece of work does to the counts.
use eventedge.Base.{
  ℕ, ◌+◌, ◌≡◌, refl, ap, inl, inr, Bool, true, false, List, none, some, Text, codes, length,
  Bool-cases, Option-cases, arith,
}
use eventedge.Http.{Beast, has_trace_body}
use eventedge.Handler.{is_get, text_eq, is_health_request, handle_request}
use eventedge.Upstream.Select.{select-Selects}
use eventedge.Coalescer.{RequestCoalescer, flight, under_way}
use eventedge.Metrics.{
  MetricsRegistry, record_request, record_metrics_request, record_health_request, proxy_completed,
}
use eventedge.Metrics.Render.{Printer}
use eventedge.Session.{
  end_of_stream, failed, Shared, HttpSession, Work, read_request, shutdown_send, write, post, proxy,
  Clock, Result, on_read, on_write, on_proxied, serve, serve_metrics, cacheable_request,
  metrics_response,
}
use eventedge.Metrics.Rendering.{render-ok}
use eventedge.Service.World.{
  holder, assigned, Input, read, wrote, posted, answered, is_fatal, handler,
}
use eventedge.Service.Counts.{waiting, one_if_key, flies_for, under}
use eventedge.Service.Ledger.{
  IsHealthy, Ledger, going_on, flights_of, write_response-Ledger, close-Ledger, do_read-Ledger,
  current-Ledger, complete_flight-Ledger,
}
use eventedge.Service.Routes.{serve_cacheable-Ledger, serve_uncacheable-Ledger}

-- No TRACE request with a body is read.
abbrev pub Carries : {F : Type 0} → Input F → Type 0
Carries (read error request) = has_trace_body request ≡ false
Carries _ = Unit

module _ (b : Beast) (print : Printer) (n : ℕ) where
  open b use {Fields}

  -- Other counts of requests leave the shared objects in order.
  pub counted-IsHealthy :
      (w : Shared Fields) (m : MetricsRegistry)
      → IsHealthy b print n w
      → m.upstreams ≡ w.metrics.upstreams
      → IsHealthy b print n (record w { metrics = m })
  counted-IsHealthy w m h same = record {
    items = h.items;
    represented = h.represented;
    backends = h.backends;
    labels = omega (arith, ap length same, h.labels);
    held = h.held;
  }

  serve_metrics-Ledger :
      (clock : Clock) (s : HttpSession Fields) (w : Shared Fields)
      → IsHealthy b print n w
      → has_trace_body s.request ≡ false
      → Ledger b print n s.id
          (going_on b print n s.id w)
          (flights_of b print n w)
          (serve_metrics b print clock s w)
  unfolding serve_metrics record_metrics_request
  serve_metrics-Ledger clock s w h fits =
      let w' = record w { metrics = record_metrics_request w.metrics } in
      let h' = counted-IsHealthy w (record_metrics_request w.metrics) h refl in
      let (body, rendered) =
        render-ok print w'.metrics w.upstream_pool (omega (arith, h.labels, h.backends)) in
      elim (Bool-cases (is_get s.request.method)) [
        | inl got ↦
            rw (got, rendered)
              (write_response-Ledger b print n clock s w' h' fits
                (metrics_response b print s.request body))
        | inr other ↦
            rw other
              (write_response-Ledger b print n clock s w' h' fits (handle_request b s.request))
      ]

  serve-Ledger :
      (clock : Clock) (s : HttpSession Fields) (w : Shared Fields)
      → IsHealthy b print n w
      → has_trace_body s.request ≡ false
      → Ledger b print n s.id
          (going_on b print n s.id w)
          (flights_of b print n w)
          (serve b print clock s w)
  unfolding serve record_health_request
  serve-Ledger clock s w h fits = elim (Bool-cases (is_health_request b s.request)) [
    | inl health ↦ rw health (
        write_response-Ledger b print n clock s
          (record w { metrics = record_health_request w.metrics })
          (counted-IsHealthy w (record_health_request w.metrics) h refl) fits
          (handle_request b s.request))
    | inr other ↦ elim (Bool-cases (text_eq s.request.target (codes "/metrics"))) [
      | inl metrics ↦ rw (other, metrics) (serve_metrics-Ledger clock s w h fits)
      | inr proxied ↦ elim (Bool-cases (cacheable_request b print s.request)) [
        | inl may ↦
            rw (other, proxied, may)
              (serve_cacheable-Ledger b print n clock s fits s.request.target w h)
        | inr uncached ↦
            let (r, runs, result) = select-Selects w.upstream_pool in
            rw (other, proxied, uncached)
              (serve_uncacheable-Ledger b print n clock s fits w r h runs)
      ]
    ]
  ]

  -- What goes on with the sessions after an input: with one that has met its end, nothing more.
  abbrev pub after : Bool → ℕ → Shared Fields → ℕ → ℕ
  after true i w id = waiting id w.request_coalescer
  after false i w id = going_on b print n i w id

  -- The flights of the other proxies.
  abbrev pub WithoutOne : Work Fields → Shared Fields → (Text → ℕ) → Type 0
  WithoutOne x w base = (k : Text) → flights_of b print n w k ≡ base k + flies_for k x

  -- The same result, by counts written another way.
  Ledger-base :
      (i : ℕ) (target : ℕ → ℕ) (base base' : Text → ℕ) (r result : Result b print)
      → ((k : Text) → base k ≡ base' k)
      → some r ≡ some result
      → Ledger b print n i target base r
      → Ledger b print n i target base' result
  Ledger-base i target base base' r result same is (s, w, new, done, place, healthy, owns, flies) =
      (s, w, new, cc, place, healthy, owns, (λ k. omega (arith, flies k, same k)))

  -- A proxy of a key means that its flight is under way.
  pub flown :
      (key : Text) (c : RequestCoalescer ℕ) (base : ℕ)
      → under_way key c ≡ base + one_if_key key key
      → (ws : List ℕ) × (flight key c ≡ some ws)
  flown key c base h = elim (Option-cases (flight key c)) [
    | inl out ↦ absurd (ground (arith, out, h))
    | inr there ↦ there
  ]

  -- Any handler, called for work that is no longer outstanding.
  pub handler-Ledger :
      (clock : Clock) (x : Work Fields) (input : Input Fields) (s : HttpSession Fields)
      (w : Shared Fields) (base : Text → ℕ) (result : Result b print)
      → IsHealthy b print n w
      → has_trace_body s.request ≡ false
      → Carries input
      → WithoutOne x w base
      → handler b print clock x input s w ≡ some result
      → Ledger b print n s.id (after (is_fatal input) s.id w) base result
  unfolding handler is_fatal on_read on_write on_proxied holder assigned proxy_completed
      record_request
  handler-Ledger clock read_request (read none request) s w base result h fits carries lacks is =
      Ledger-base s.id (going_on b print n s.id w) (flights_of b print n w) base _ result
        (λ k. omega (arith, lacks k)) is
        (serve-Ledger clock (record s { request = request; request_started = clock.entered })
          (record w { metrics = record_request w.metrics })
          (counted-IsHealthy w (record_request w.metrics) h refl) carries)
  handler-Ledger clock read_request (read (some failed) request) s w base result h fits carries
        lacks is =
      Ledger-base s.id (after true s.id w) (flights_of b print n w) base _ result
        (λ k. omega (arith, lacks k)) is
        (_, _, _, refl, (refl, carries, tt), h, (λ id. omega arith), (λ k. omega arith))
  handler-Ledger clock read_request (read (some end_of_stream) request) s w base result h fits
        carries lacks is =
      Ledger-base s.id (going_on b print n s.id w) (flights_of b print n w) base _ result
        (λ k. omega (arith, lacks k)) is
        (close-Ledger b print n clock (record s { request = request }) w h carries)
  handler-Ledger clock (write response eof) (wrote true) s w base result h fits carries lacks is =
      Ledger-base s.id (after true s.id w) (flights_of b print n w) base _ result
        (λ k. omega (arith, lacks k)) is
        (_, _, _, refl, (refl, fits, tt), h, (λ id. omega arith), (λ k. omega arith))
  handler-Ledger clock (write response true) (wrote false) s w base result h fits carries lacks is =
      Ledger-base s.id (going_on b print n s.id w) (flights_of b print n w) base _ result
        (λ k. omega (arith, lacks k)) is (close-Ledger b print n clock s w h fits)
  handler-Ledger clock (write response false) (wrote false) s w base result h fits carries lacks
        is =
      Ledger-base s.id (going_on b print n s.id w) (flights_of b print n w) base _ result
        (λ k. omega (arith, lacks k)) is (do_read-Ledger b print n clock s w h fits)
  handler-Ledger clock (post id response) posted s w base result h fits carries lacks is =
      Ledger-base s.id (going_on b print n s.id w) (flights_of b print n w) base _ result
        (λ k. omega (arith, lacks k)) is (current-Ledger b print n clock s w h fits response)
  handler-Ledger clock (proxy endpoint request none) (answered response) s w base result h fits
        carries lacks is =
      Ledger-base s.id (going_on b print n s.id w) (flights_of b print n w) base _ result
        (λ k. omega (arith, lacks k)) is
        (current-Ledger b print n clock s (record w { metrics = proxy_completed w.metrics })
          (counted-IsHealthy w (proxy_completed w.metrics) h refl) fits response)
  handler-Ledger clock (proxy endpoint request (some key)) (answered response) s w base result h
        fits carries lacks is =
      let (c, held, distinct) = h.held in
      let (ws, there) = flown key c (base key) (omega (arith, lacks key, ap (under key) held)) in
      Ledger-base s.id (going_on b print n s.id w) base base _ result (λ k. refl) is
        (complete_flight-Ledger b print n clock s (record w { metrics = proxy_completed w.metrics })
          (counted-IsHealthy w (proxy_completed w.metrics) h refl) fits key response true base c ws
          held there lacks)
  handler-Ledger clock shutdown_send (read error r) s w base result h fits carries lacks is = cc
  handler-Ledger clock shutdown_send (wrote f) s w base result h fits carries lacks is = cc
  handler-Ledger clock shutdown_send posted s w base result h fits carries lacks is = cc
  handler-Ledger clock shutdown_send (answered r) s w base result h fits carries lacks is = cc
  handler-Ledger clock read_request (wrote f) s w base result h fits carries lacks is = cc
  handler-Ledger clock read_request posted s w base result h fits carries lacks is = cc
  handler-Ledger clock read_request (answered r) s w base result h fits carries lacks is = cc
  handler-Ledger clock (write q eof) (read error r) s w base result h fits carries lacks is = cc
  handler-Ledger clock (write q eof) posted s w base result h fits carries lacks is = cc
  handler-Ledger clock (write q eof) (answered r) s w base result h fits carries lacks is = cc
  handler-Ledger clock (post id q) (read error r) s w base result h fits carries lacks is = cc
  handler-Ledger clock (post id q) (wrote f) s w base result h fits carries lacks is = cc
  handler-Ledger clock (post id q) (answered r) s w base result h fits carries lacks is = cc
  handler-Ledger clock (proxy e q key) (read error r) s w base result h fits carries lacks is = cc
  handler-Ledger clock (proxy e q key) (wrote f) s w base result h fits carries lacks is = cc
  handler-Ledger clock (proxy e q key) posted s w base result h fits carries lacks is = cc
