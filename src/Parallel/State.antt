-- ===== src/Parallel/State.antt =====
-- A handler in parts: from one call of the cache, the pool or the coalescer to the next.
use eventedge.Base.{
  ℕ, Bool, true, false, List, [], ◌∷◌, ◌++◌, map, Option, none, some, Text, codes, Outcome, ok,
  ◌>>=◌, length, get_elem?, set, if◌then◌else◌, ◌&&◌, not,
}
use eventedge.Http.{Beast, HttpRequest, HttpResponse}
use eventedge.Handler.{text_eq, is_health_request, make_service_unavailable_response}
use eventedge.Upstream.{select}
use eventedge.Cache.{get}
use eventedge.Coalescer.{RequestCoalescer, Role, leader, join_or_start}
use eventedge.Metrics.{
  record_request, record_cache_hit, record_cache_miss, record_coalescing_leader,
  record_coalescing_waiter, proxy_completed,
}
use eventedge.Metrics.Render.{Printer}
use eventedge.Monitor.{mark}
use eventedge.Session
use eventedge.Session.{
  Shared, HttpSession, Work, read_request, shutdown_send, write, post, proxy, Clock, Result,
  cacheable_request, write_response_for_current_request, start_proxy, store, call_waiters,
}
use eventedge.Service.World.{
  Input, read, answered, handler, holder, is_fatal, remove_at, metrics_or,
}

-- A handler that is still to be called, or the rest of one that is under way: behind a miss of the
-- cache, behind the start of a flight, before the end of a flight, and behind it.
pub data Part (F : Type 0) : Type 0 where
  waits_for : Work F → Part F
  missed : Text → Part F
  leads : Text → Part F
  completes : Text → HttpResponse F → Part F
  replies : HttpResponse F → Part F

pub record Parallel (F : Type 0) : Type 0 where
  pub shared : Shared F
  pub sessions : List (HttpSession F)
  pub parts : List (ℕ × Part F)
  pub ended : List ℕ

-- A client connects; the part in a place runs; the monitor marks a backend.
pub data ParallelEvent (F : Type 0) : Type 0 where
  connects : ParallelEvent F
  runs : ℕ → Clock → Input F → ParallelEvent F
  marks : ℕ → Bool → ParallelEvent F

-- The session that goes on with a part.
unfoldable pub part_holder : {F : Type 0} → ℕ → Part F → ℕ
part_holder i (waits_for x) = holder i x
part_holder i (missed key) = i
part_holder i (leads key) = i
part_holder i (completes key response) = i
part_holder i (replies response) = i

unfoldable pub assigned : {F : Type 0} → ℕ → List (Part F) → List (ℕ × Part F)
assigned i [] = []
assigned i (x ∷ xs) = (part_holder i x, x) ∷ assigned i xs

-- Whether what a part is run with is the end of its session.
abbrev pub ends_session : {F : Type 0} → Part F → Input F → Bool
ends_session (waits_for x) input = is_fatal input
ends_session _ input = false

module _ (b : Beast) (print : Printer) where
  open b use {Fields}

  abbrev pub PartResult : Type 0
  PartResult = Outcome (HttpSession Fields × Shared Fields × List (Part Fields))

  -- A handler, or the last part of one, that makes one such call at most.
  unfoldable pub whole : Result b print → PartResult
  whole result = do (s, w, new) ← result; ok (s, w, map waits_for new)

  unfoldable pub whole_or_none : Option (Result b print) → Option PartResult
  whole_or_none none = none
  whole_or_none (some result) = some (whole result)

  -- `get`
  unfoldable pub look_up : Clock → Text → HttpSession Fields → Shared Fields → PartResult
  look_up clock key s w = do
    (cache, cached) ← get clock.cached key w.response_cache
    let w' = record w { response_cache = cache }
    elim cached [
      | some response ↦ whole (
          write_response_for_current_request b print clock response s
            (record w' { metrics = record_cache_hit w'.metrics }))
      | none ↦ ok (s, w', missed key ∷ [])
    ]

  abbrev pub asks_cache : HttpRequest Fields → Bool
  asks_cache request =
      (not (is_health_request b request) && not (text_eq request.target (codes "/metrics")))
      && cacheable_request b print request

  -- A request has been read.
  unfoldable pub on_request :
      Clock → HttpRequest Fields → HttpSession Fields → Shared Fields → PartResult
  on_request clock request s w =
      if asks_cache request
      then look_up clock request.target
          (record s { request = request; request_started = clock.entered })
          (record w { metrics = record_request w.metrics })
      else whole (Session.on_read b print clock none request s w)

  -- `join_or_start`
  unfoldable pub on_joined : Text → Role → HttpSession Fields → Shared Fields → PartResult
  on_joined key Role.waiter s w =
      ok (s, record w { metrics = record_coalescing_waiter w.metrics }, [])
  on_joined key leader s w =
      ok (s, record w { metrics = record_coalescing_leader w.metrics }, leads key ∷ [])

  unfoldable pub join :
      Clock → Text → Option (RequestCoalescer ℕ) → HttpSession Fields → Shared Fields → PartResult
  join clock key none s w = whole (
      write_response_for_current_request b print clock
        (make_service_unavailable_response b s.request) s w)
  join clock key (some c) s w =
      let (c', role) = join_or_start key s.id c in
      on_joined key role s (record w { request_coalescer = some c' })

  -- `select`
  unfoldable pub lead_on : Text → HttpSession Fields → Shared Fields → PartResult
  lead_on key s w = do
    (pool, upstream) ← select w.upstream_pool
    let w' = record w { upstream_pool = pool }
    elim upstream [
      | none ↦ ok (s, w', completes key (make_service_unavailable_response b s.request) ∷ [])
      | some endpoint ↦ whole (start_proxy b print (some key) endpoint s w')
    ]

  -- `put`, when the proxy of a flight has answered.
  unfoldable pub keep :
      Clock → Text → HttpResponse Fields → HttpSession Fields → Shared Fields → PartResult
  keep clock key response s w = do
    w' ← store b print clock key response true (record w { metrics = proxy_completed w.metrics })
    ok (s, w', completes key response ∷ [])

  -- `complete`, and the tasks that the waiters post.
  unfoldable pub end_flight :
      Text → HttpResponse Fields → HttpSession Fields → Shared Fields → PartResult
  end_flight key response s w =
      let (w', calls) = call_waiters b print key response w in
      ok (s, w', map waits_for calls ++ (replies response ∷ []))

  unfoldable pub run_part :
      Clock → Part Fields → Input Fields → HttpSession Fields → Shared Fields → Option PartResult
  run_part clock (waits_for read_request) (read none request) s w =
      some (on_request clock request s w)
  run_part clock (waits_for (proxy endpoint request (some key))) (answered response) s w =
      some (keep clock key response s w)
  run_part clock (waits_for x) input s w = whole_or_none (handler b print clock x input s w)
  run_part clock (missed key) input s w =
      some
        (join clock key w.request_coalescer s (record w { metrics = record_cache_miss w.metrics }))
  run_part clock (leads key) input s w = some (lead_on key s w)
  run_part clock (completes key response) input s w = some (end_flight key response s w)
  run_part clock (replies response) input s w =
      some (whole (write_response_for_current_request b print clock response s w))

  unfoldable pub go_on :
      ℕ → ℕ → Bool → Option PartResult → Parallel Fields → Outcome (Parallel Fields)
  go_on k i fatal none p = ok p
  go_on k i fatal (some result) p = do
    (s, w, new) ← result
    ok (record {
      shared = w;
      sessions = set p.sessions i s;
      parts = remove_at k p.parts ++ assigned i new;
      ended = if fatal then i ∷ p.ended else p.ended;
    })

  unfoldable pub run :
      ℕ
      → Clock
      → Input Fields
      → Option (ℕ × Part Fields)
      → Parallel Fields
      → Outcome (Parallel Fields)
  run k clock input none p = ok p
  run k clock input (some (i, x)) p = elim (get_elem? p.sessions i) [
    | none ↦ ok p
    | some s ↦ go_on k i (ends_session x input) (run_part clock x input s p.shared) p
  ]

  unfoldable pub connect : Parallel Fields → Outcome (Parallel Fields)
  connect p = do
    (s, w, new) ← Session.run b print (Session.create b print (length p.sessions)) p.shared
    ok (record p {
      shared = w;
      sessions = p.sessions ++ (s ∷ []);
      parts = p.parts ++ assigned (length p.sessions) (map waits_for new);
    })

  unfoldable pub step : ParallelEvent Fields → Parallel Fields → Outcome (Parallel Fields)
  step connects p = connect p
  step (runs k clock input) p = run k clock input (get_elem? p.parts k) p
  step (marks i healthy) p = do
    watched ←
        mark i healthy
          (record { upstream_pool = p.shared.upstream_pool; metrics = some p.shared.metrics })
    ok (record p {
      shared = record p.shared {
        upstream_pool = watched.upstream_pool;
        metrics = metrics_or p.shared.metrics watched.metrics;
      };
    })

  unfoldable pub steps : List (ParallelEvent Fields) → Parallel Fields → Outcome (Parallel Fields)
  steps [] p = ok p
  steps (event ∷ events) p = do p' ← step event p; steps events p'
