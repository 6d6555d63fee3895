-- ===== src/Parallel/Calls.antt =====
-- What the parts up to the proxy do to the counts.
use mathlib.Core.Path.{subst}
use eventedge.Base.{
  ℕ, ◌+◌, ◌≡◌, refl, sym, ap, inl, inr, [], false, ◌∷◌, Option, none, some, Text, Text-discrete, ok,
  Option-cases, lookup, IsDistinct, arith,
}
use eventedge.Http.{has_trace_body, Beast, HttpResponse}
use eventedge.Handler.{make_service_unavailable_response}
use eventedge.Upstream.{Selection, select}
use eventedge.Upstream.Select.{select-Selects}
use eventedge.Cache.{ResponseCache, get}
use eventedge.Cache.Spec
use eventedge.Cache.Refines.{get-read}
use eventedge.Coalescer.{RequestCoalescer, Role, leader, flight}
use eventedge.Metrics.{record_cache_hit, record_coalescing_leader}
use eventedge.Metrics.Render.{Printer}
use eventedge.Session.{Shared, HttpSession, Clock, on_role}
use eventedge.Session.Joins.{join_first, join_later}
use eventedge.Service.World.{holder}
use eventedge.Service.World
use eventedge.Service.Counts.{waiting, one_if_key, under}
use eventedge.Service.Flights.{under_way-cons}
use eventedge.Service.Ledger.{IsHealthy, going_on, flights_of, current-Ledger, start_proxy-Ledger}
use eventedge.Service.Routes.{selected-IsHealthy, later-Ledger}
use eventedge.Parallel.State.{
  missed, leads, completes, PartResult, look_up, on_joined, join, lead_on,
}
use eventedge.Parallel.View.{PartLedger, whole-PartLedger}

module _ (b : Beast) (print : Printer) (n : ℕ) (clock : Clock) (s : HttpSession (Beast.Fields b))
    (fits : has_trace_body s.request ≡ false) where
  open b use {Fields}

  -- What the session has to come, and the flights less those that the new work will end.
  abbrev pub Kept : Shared Fields → (Text → ℕ) → PartResult b print → Type 0
  Kept w base result = PartLedger b print n s.id (going_on b print n s.id w) base result

  cached-Kept :
      (key : Text) (w : Shared Fields) (cache : ResponseCache (HttpResponse Fields))
      (cached : Option (HttpResponse Fields))
      → IsHealthy b print n (record w { response_cache = cache })
      → get clock.cached key w.response_cache ≡ ok (cache, cached)
      → Kept w (flights_of b print n w) (look_up b print clock key s w)
  unfolding look_up World.assigned holder record_cache_hit
  cached-Kept key w cache none h got = rw got (
    s,
    record w { response_cache = cache },
    missed key ∷ [],
    refl,
    (_, _, _, refl, (refl, fits, (tt, tt)), h, (λ id. omega arith), (λ k. omega arith)),
  )
  cached-Kept key w cache (some response) h got =
      let w' = record w { response_cache = cache; metrics = record_cache_hit w.metrics } in
      let h' : IsHealthy b print n w' = record {
        items = h.items;
        represented = h.represented;
        backends = h.backends;
        labels = h.labels;
        held = h.held;
      } in
      rw got (
        whole-PartLedger b print n s.id (going_on b print n s.id w) (flights_of b print n w) _
          (current-Ledger b print n clock s w' h' fits response))

  pub look_up-Kept :
      (key : Text) (w : Shared Fields)
      → IsHealthy b print n w
      → Kept w (flights_of b print n w) (look_up b print clock key s w)
  look_up-Kept key w h =
      let (cache, got, kept, same) =
        get-read clock.cached key w.response_cache h.items h.represented in
      cached-Kept key w cache (Spec.read clock.cached key h.items).1
        (record {
          items = (Spec.read clock.cached key h.items).0;
          represented = kept;
          backends = h.backends;
          labels = h.labels;
          held = h.held;
        })
        got

  first-Kept :
      (key : Text) (w : Shared Fields) (c : RequestCoalescer ℕ)
      → IsHealthy b print n w
      → w.request_coalescer ≡ some c
      → IsDistinct Text-discrete c.flights
      → flight key c ≡ none
      → Kept w (flights_of b print n w) (
          on_joined b print key leader s
            (record w { request_coalescer = some (record { flights = (key, []) ∷ c.flights }) }))
  unfolding on_joined record_coalescing_leader World.assigned holder lookup
  first-Kept key w c h is distinct out = (
    _,
    _,
    leads key ∷ [],
    refl,
    (
      _,
      _,
      _,
      refl,
      (refl, fits, (b.default_has_none, tt)),
      record {
        items = h.items;
        represented = h.represented;
        backends = h.backends;
        labels = h.labels;
        held = (record { flights = (key, []) ∷ c.flights }, refl, (out, distinct));
      },
      (λ id. omega (arith, ap (waiting id) is)),
      (λ k. omega (arith, under_way-cons k key c.flights out, ap (under k) is)),
    ),
  )

  pub join-Kept :
      (key : Text) (w : Shared Fields)
      → IsHealthy b print n w
      → Kept w (flights_of b print n w) (join b print clock key w.request_coalescer s w)
  unfolding join on_joined on_role
  join-Kept key w h =
      let (c, is, distinct) = h.held in
      let goal : RequestCoalescer ℕ × Role → Type 0 = λ j.
        Kept w (flights_of b print n w)
          (on_joined b print key j.1 s (record w { request_coalescer = some j.0 })) in
      let joined : Kept w (flights_of b print n w) (join b print clock key (some c) s w) =
        elim (Option-cases (flight key c)) [
          | inl out ↦
              subst goal (sym (join_first key s.id c out)) (first-Kept key w c h is distinct out)
          | inr (ws, there) ↦
              subst goal (sym (join_later key s.id c ws there))
                (_, _, [], refl, later-Ledger b print n clock s fits key w c ws h is distinct there)
        ] in
      subst (λ held. Kept w (flights_of b print n w) (join b print clock key held s w)) (sym is)
        joined

  selected-Kept :
      (key : Text) (w : Shared Fields) (base : Text → ℕ) (r : Selection)
      → IsHealthy b print n w
      → ((k : Text) → flights_of b print n w k ≡ base k + one_if_key key k)
      → select w.upstream_pool ≡ ok r
      → Kept w base (lead_on b print key s w)
  unfolding lead_on World.assigned holder
  selected-Kept key w base (pool, none) h lacks done = rw done (
    s,
    record w { upstream_pool = pool },
    completes key (make_service_unavailable_response b s.request) ∷ [],
    refl,
    (
      _,
      _,
      _,
      refl,
      (refl, fits, (b.default_has_none, tt)),
      selected-IsHealthy b print n w (pool, none) h done,
      (λ id. omega arith),
      (λ k. omega (arith, lacks k)),
    ),
  )
  selected-Kept key w base (pool, some endpoint) h lacks done = rw done (
      whole-PartLedger b print n s.id (going_on b print n s.id w) base _ (
        start_proxy-Ledger b print n clock s (record w { upstream_pool = pool })
          (selected-IsHealthy b print n w (pool, some endpoint) h done) fits (some key) endpoint
          base (λ k. omega (arith, lacks k))))

  pub lead_on-Kept :
      (key : Text) (w : Shared Fields) (base : Text → ℕ)
      → IsHealthy b print n w
      → ((k : Text) → flights_of b print n w k ≡ base k + one_if_key key k)
      → Kept w base (lead_on b print key s w)
  lead_on-Kept key w base h lacks =
      let (r, done, selects) = select-Selects w.upstream_pool in
      selected-Kept key w base r h lacks done
