-- ===== src/Service/Ledger.antt =====
-- What each handler of a session does to the counts: the parts that end a request or hand it on.
use mathlib.Core.Path.{subst}
use eventedge.Base.{
  ℕ, ◌+◌, ◌≤◌, ◌≡◌, refl, ap, ◌∙◌, Bool, List, [], ◌∷◌, ◌++◌, map, Option, some, Text,
  Text-discrete, ok, length, erase, All, false, IsDistinct, erase-IsDistinct, arith,
}
use eventedge.Http.{Beast, HttpResponse, has_trace_body}
use eventedge.Proxy.{default_timeouts}
use eventedge.Proxy.Once.{run_ok}
use eventedge.Upstream.{UpstreamEndpoint, size}
use eventedge.Cache.Spec.{Items}
use eventedge.Cache.Refines.{Represents}
use eventedge.Coalescer.{RequestCoalescer, flight}
use eventedge.Metrics.{
  record_proxy_request, record_upstream_selection, proxy_started, observe_duration, endpoint_label,
}
use eventedge.Metrics.Labels.{labels-status, labels-selection}
use eventedge.Metrics.Render.{Printer}
use eventedge.Session.{
  Shared, HttpSession, Work, write, post, proxy, Clock, Result, do_read, close, write_response,
  for_request, write_response_for_current_request, complete_flight, start_proxy,
}
use eventedge.Session.Flight.{complete_flight-runs}
use eventedge.Service.World.{holder, assigned}
use eventedge.Service.Counts.{
  one_if_same, owned, waiting, one_if_key, flying, under, owned-posts, flying-posts,
}
use eventedge.Service.Flights.{waiting_in-erase, under_way-erase}

module _ (b : Beast) (print : Printer) (n : ℕ) where
  open b use {Fields}

  -- The coalescer is there, with one flight at most for a key.
  abbrev pub Held : Option (RequestCoalescer ℕ) → Type 0
  Held held = (c : RequestCoalescer ℕ) × (held ≡ some c) × IsDistinct Text-discrete c.flights

  -- The shared objects are in order: `n` backends, no more labels than that, a cache that stands for
  -- some items, and a coalescer.
  pub record IsHealthy (w : Shared Fields) : Type 0 where
    pub items : Items (HttpResponse Fields)
    pub represented : Represents w.response_cache items
    pub backends : size w.upstream_pool ≡ n
    pub labels : length w.metrics.upstreams ≤ n
    pub held : Held w.request_coalescer

  -- A proxy is started for no TRACE request with a body.
  abbrev pub IsStarted : Work Fields → Type 0
  IsStarted (proxy endpoint request key) = has_trace_body request ≡ false
  IsStarted _ = Unit

  -- The session is `i`, and such a request is neither its own nor that of a proxy that it starts.
  abbrev pub Stays : ℕ → HttpSession Fields → List (Work Fields) → Type 0
  Stays i s new = (s.id ≡ i) × (has_trace_body s.request ≡ false) × All IsStarted new

  pub posts-IsStarted :
      (response answer : HttpResponse Fields) (eof : Bool) (ws : List ℕ)
      → All IsStarted (map (λ id. post id response) ws ++ (write answer eof ∷ []))
  posts-IsStarted response answer eof [] = (tt, tt)
  posts-IsStarted response answer eof (id ∷ ws) = (tt, posts-IsStarted response answer eof ws)

  -- A handler's result, by the counts that it should lead to: of what goes on with each session, and
  -- of the flights under way, less the proxies started for them.
  abbrev pub Ledger : ℕ → (ℕ → ℕ) → (Text → ℕ) → Result b print → Type 0
  Ledger i target base result =
      (s : HttpSession Fields) × (w : Shared Fields) × (new : List (Work Fields)) × (result
        ≡ ok (s, w, new))
      × Stays i s new
      × IsHealthy w
      × ((id : ℕ) → owned id (assigned i new) + waiting id w.request_coalescer ≡ target id)
      × ((k : Text) → under k w.request_coalescer ≡ base k + flying k (assigned i new))

  -- The counts before, with one more thing to come for the session `i`.
  abbrev pub going_on : ℕ → Shared Fields → ℕ → ℕ
  going_on i w id = waiting id w.request_coalescer + one_if_same i id

  abbrev pub flights_of : Shared Fields → Text → ℕ
  flights_of w k = under k w.request_coalescer

  module _ (clock : Clock) (s : HttpSession Fields) (w : Shared Fields) (h : IsHealthy w)
      (fits : has_trace_body s.request ≡ false) where
    pub write_response-Ledger :
        (response : HttpResponse Fields)
        → Ledger s.id (going_on s.id w) (flights_of w) (write_response b print clock response s w)
    unfolding write_response assigned holder observe_duration
    write_response-Ledger response = (
      _,
      _,
      _,
      refl,
      (refl, fits, (tt, tt)),
      record {
        items = h.items;
        represented = h.represented;
        backends = h.backends;
        labels = omega (arith, labels-status response.status w.metrics, h.labels);
        held = h.held;
      },
      (λ id. omega arith),
      (λ k. omega arith),
    )

    pub close-Ledger : Ledger s.id (going_on s.id w) (flights_of w) (close b print s w)
    unfolding close assigned holder
    close-Ledger =
        (_, _, _, refl, (refl, fits, (tt, tt)), h, (λ id. omega arith), (λ k. omega arith))

    pub do_read-Ledger : Ledger s.id (going_on s.id w) (flights_of w) (do_read b print s w)
    unfolding do_read assigned holder
    do_read-Ledger = (
      _,
      _,
      _,
      refl,
      (refl, b.default_has_none, (tt, tt)),
      h,
      (λ id. omega arith),
      (λ k. omega arith),
    )

    pub current-Ledger :
        (response : HttpResponse Fields)
        → Ledger s.id
            (going_on s.id w)
            (flights_of w)
            (write_response_for_current_request b print clock response s w)
    unfolding write_response_for_current_request
    current-Ledger response = write_response-Ledger (for_request b print s.request response)

    abbrev started : Option Text → UpstreamEndpoint → List (Work Fields)
    started key endpoint = proxy endpoint s.request key ∷ []

    -- A proxy for no flight, or for one that is under way and has no proxy.
    pub start_proxy-Ledger :
        (key : Option Text) (endpoint : UpstreamEndpoint) (base : Text → ℕ)
        → ((k : Text) → flights_of w k ≡ base k + flying k (assigned s.id (started key endpoint)))
        → Ledger s.id (going_on s.id w) base (start_proxy b print key endpoint s w)
    unfolding start_proxy assigned holder record_proxy_request record_upstream_selection
        proxy_started
    start_proxy-Ledger key endpoint base lacks =
        let (sent, prepared, runs) = run_ok b endpoint s.request default_timeouts fits in
        rw runs (
          _,
          _,
          _,
          refl,
          (refl, fits, (fits, tt)),
          record {
            items = h.items;
            represented = h.represented;
            backends = h.backends;
            labels =
                omega
                  (arith, labels-selection (endpoint_label endpoint) w.metrics.upstreams, h.labels);
            held = h.held;
          },
          (λ id. omega arith),
          lacks,
        )

    -- The end of a flight that is under way.
    pub complete_flight-Ledger :
        (key : Text) (response : HttpResponse Fields) (should_cache : Bool) (base : Text → ℕ)
        (c : RequestCoalescer ℕ) (ws : List ℕ)
        → w.request_coalescer ≡ some c
        → flight key c ≡ some ws
        → ((k : Text) → flights_of w k ≡ base k + one_if_key key k)
        → Ledger s.id
            (going_on s.id w)
            base
            (complete_flight b print clock key response should_cache s w)
    complete_flight-Ledger key response should_cache base c ws is there lacks =
        let (c', is', distinct) = h.held in
        let same_c : c' ≡ c = cc in
        let distinct_c = subst (λ x. IsDistinct Text-discrete x.flights) same_c distinct in
        let (w', done, left, same_pool, same_labels, rep) =
          complete_flight-runs b print clock key response should_cache s w h.items c ws
            h.represented is there in
        let answer = for_request b print s.request response in
        (
          s,
          w',
          map (λ id. post id response) ws ++ (write answer (b.need_eof answer) ∷ []),
          done,
          (refl, fits, posts-IsStarted response answer (b.need_eof answer) ws),
          record {
            items = _;
            represented = rep;
            backends = ap size same_pool ∙ h.backends;
            labels = omega (arith, same_labels, h.labels);
            held = (
              record { flights = erase Text-discrete key c.flights },
              left,
              erase-IsDistinct Text-discrete key c.flights distinct_c,
            );
          },
          (λ id. omega (
            arith,
            owned-posts id s.id response ws answer (b.need_eof answer),
            ap (waiting id) left,
            ap (waiting id) is,
            waiting_in-erase id key c.flights ws there,
          )),
          (λ k. omega (
            arith,
            flying-posts k s.id response ws answer (b.need_eof answer),
            ap (under k) left,
            ap (under k) is,
            lacks k,
            under_way-erase k key c.flights ws there distinct_c,
          )),
        )
