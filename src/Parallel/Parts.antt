-- ===== src/Parallel/Parts.antt =====
-- What running any part does to the counts.
use eventedge.Base.{
  ℕ, ◌+◌, ◌≡◌, refl, false, ap, inl, inr, Option, none, some, Text, Bool-cases, arith,
}
use eventedge.Http.{has_trace_body, Beast, HttpRequest, HttpResponse}
use eventedge.Metrics.{record_request, record_cache_miss}
use eventedge.Metrics.Render.{Printer}
use eventedge.Session.{
  Shared, HttpSession, Work, read_request, shutdown_send, write, post, proxy, Clock, Result,
}
use eventedge.Service.World.{Input, read, wrote, posted, answered, handler, is_fatal}
use eventedge.Service.Counts.{under, one_if_key}
use eventedge.Service.Ledger.{IsHealthy, going_on, flights_of, current-Ledger}
use eventedge.Service.Handlers.{
  Carries, WithoutOne, after, handler-Ledger, counted-IsHealthy, flown,
}
use eventedge.Parallel.State.{
  Part, waits_for, missed, leads, completes, replies, PartResult, whole_or_none, whole, asks_cache,
  on_request, run_part, ends_session, end_flight,
}
use eventedge.Parallel.View.{work_of, PartLedger, whole-PartLedger}
use eventedge.Parallel.Ends.{keep-Kept, end_flight-Kept}
use eventedge.Parallel.Calls.{look_up-Kept, join-Kept, lead_on-Kept}

module _ (b : Beast) (print : Printer) (n : ℕ) (clock : Clock) (s : HttpSession (Beast.Fields b))
    (w : Shared (Beast.Fields b)) (base : Text → ℕ) (h : IsHealthy b print n w)
    (fits : has_trace_body s.request ≡ false) where
  open b use {Fields}

  -- The same result, by counts and from an equation.
  given-PartLedger :
      (target : ℕ → ℕ) (base' : Text → ℕ) (r result : PartResult b print)
      → ((k : Text) → base' k ≡ base k)
      → some r ≡ some result
      → PartLedger b print n s.id target base' r
      → PartLedger b print n s.id target base result
  given-PartLedger target base' r result same is
        (s', w', new, done, (s'', w'', works, shown, place, healthy, owns, flies)) =
      (
        s',
        w',
        new,
        cc,
        (s'', w'', works, shown, place, healthy, owns, (λ k. omega (arith, flies k, same k))),
      )

  -- A handler that runs as a whole.
  handler-PartLedger :
      (x : Work Fields) (input : Input Fields) (handled : Option (Result b print))
      (result : PartResult b print)
      → Carries input
      → WithoutOne b print n x w base
      → handler b print clock x input s w ≡ handled
      → whole_or_none b print handled ≡ some result
      → PartLedger b print n s.id (after b print n (is_fatal input) s.id w) base result
  unfolding whole_or_none
  handler-PartLedger x input none result carries lacks handled is = cc
  handler-PartLedger x input (some r) result carries lacks handled is =
      given-PartLedger (after b print n (is_fatal input) s.id w) base (whole b print r) result
        (λ k. refl) is
        (whole-PartLedger b print n s.id (after b print n (is_fatal input) s.id w) base r
          (handler-Ledger b print n clock x input s w base r h fits carries lacks handled))

  on_request-PartLedger :
      (request : HttpRequest Fields)
      → has_trace_body request ≡ false
      → WithoutOne b print n read_request w base
      → PartLedger b print n s.id
          (going_on b print n s.id w)
          base
          (on_request b print clock request s w)
  unfolding on_request record_request handler is_fatal
  on_request-PartLedger request carries lacks = elim (Bool-cases (asks_cache b print request)) [
    | inl asks ↦ rw asks (
        given-PartLedger (going_on b print n s.id w) (flights_of b print n w) _ _
          (λ k. omega (arith, lacks k)) refl
          (look_up-Kept b print n clock
            (record s { request = request; request_started = clock.entered }) carries request.target
            (record w { metrics = record_request w.metrics })
            (counted-IsHealthy b print n w (record_request w.metrics) h refl)))
    | inr other ↦ rw other (
        whole-PartLedger b print n s.id (going_on b print n s.id w) base _ (
          handler-Ledger b print n clock read_request (read none request) s w base _ h fits carries
            lacks refl))
  ]

  end_of_flight :
      (key : Text) (response : HttpResponse Fields)
      → ((k : Text) → flights_of b print n w k ≡ base k + one_if_key key k)
      → PartLedger b print n s.id
          (going_on b print n s.id w)
          base
          (end_flight b print key response s w)
  end_of_flight key response lacks =
      let (c, held, distinct) = h.held in
      let (ws, there) =
        flown b print n key c (base key) (omega (arith, lacks key, ap (under key) held)) in
      end_flight-Kept b print n clock s fits key response w base c ws h held distinct there lacks

  pub run_part-PartLedger :
      (x : Part Fields) (input : Input Fields) (result : PartResult b print)
      → Carries input
      → WithoutOne b print n (work_of b x) w base
      → run_part b print clock x input s w ≡ some result
      → PartLedger b print n s.id (after b print n (ends_session x input) s.id w) base result
  unfolding run_part is_fatal record_cache_miss
  run_part-PartLedger (waits_for read_request) (read none request) result carries lacks is =
      given-PartLedger _ base _ result (λ k. refl) is (on_request-PartLedger request carries lacks)
  run_part-PartLedger (waits_for read_request) (read (some e) request) result carries lacks is =
      handler-PartLedger read_request (read (some e) request) _ result carries lacks refl is
  run_part-PartLedger (waits_for read_request) (wrote f) result carries lacks is =
      handler-PartLedger read_request (wrote f) _ result carries lacks refl is
  run_part-PartLedger (waits_for read_request) posted result carries lacks is =
      handler-PartLedger read_request posted _ result carries lacks refl is
  run_part-PartLedger (waits_for read_request) (answered r) result carries lacks is =
      handler-PartLedger read_request (answered r) _ result carries lacks refl is
  run_part-PartLedger (waits_for (proxy e q (some key))) (answered r) result carries lacks is =
      given-PartLedger _ base _ result (λ k. refl) is
        (keep-Kept b print n clock s fits key r w base h lacks)
  run_part-PartLedger (waits_for (proxy e q (some key))) (read x r) result carries lacks is =
      handler-PartLedger (proxy e q (some key)) (read x r) _ result carries lacks refl is
  run_part-PartLedger (waits_for (proxy e q (some key))) (wrote f) result carries lacks is =
      handler-PartLedger (proxy e q (some key)) (wrote f) _ result carries lacks refl is
  run_part-PartLedger (waits_for (proxy e q (some key))) posted result carries lacks is =
      handler-PartLedger (proxy e q (some key)) posted _ result carries lacks refl is
  run_part-PartLedger (waits_for (proxy e q none)) input result carries lacks is =
      handler-PartLedger (proxy e q none) input _ result carries lacks refl is
  run_part-PartLedger (waits_for shutdown_send) input result carries lacks is =
      handler-PartLedger shutdown_send input _ result carries lacks refl is
  run_part-PartLedger (waits_for (write r eof)) input result carries lacks is =
      handler-PartLedger (write r eof) input _ result carries lacks refl is
  run_part-PartLedger (waits_for (post id r)) input result carries lacks is =
      handler-PartLedger (post id r) input _ result carries lacks refl is
  run_part-PartLedger (missed key) input result carries lacks is =
      given-PartLedger _ (flights_of b print n w) _ result (λ k. omega (arith, lacks k)) is
        (join-Kept b print n clock s fits key (record w { metrics = record_cache_miss w.metrics })
          (counted-IsHealthy b print n w (record_cache_miss w.metrics) h refl))
  run_part-PartLedger (leads key) input result carries lacks is =
      given-PartLedger _ base _ result (λ k. refl) is
        (lead_on-Kept b print n clock s fits key w base h lacks)
  run_part-PartLedger (completes key response) input result carries lacks is =
      given-PartLedger _ base _ result (λ k. refl) is (end_of_flight key response lacks)
  run_part-PartLedger (replies response) input result carries lacks is =
      given-PartLedger _ (flights_of b print n w) _ result (λ k. omega (arith, lacks k)) is
        (whole-PartLedger b print n s.id (going_on b print n s.id w) (flights_of b print n w) _
          (current-Ledger b print n clock s w h fits response))
