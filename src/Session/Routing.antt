-- ===== src/Session/Routing.antt =====
-- `HttpSession`: what happens to a request. The objects that sessions share are handed from call to
-- call; a handler gives the session, the shared objects and the work that it starts.
use eventedge.Base.{
  ℕ, ◌-◌, Bool, true, false, not, ◌&&◌, ◌||◌, List, [], ◌∷◌, ◌++◌, Option, none, some, Text, codes,
  Outcome, ok, ◌>>=◌, ◌==◌, if◌then◌else◌,
}
use eventedge.Http.{Beast, Field, HttpRequest, HttpResponse, success}
use eventedge.Handler.{
  is_get, text_eq, is_health_request, handle_request, make_service_unavailable_response,
}
use eventedge.Upstream.{UpstreamEndpoint, select}
use eventedge.Cache.{get, put}
use eventedge.Coalescer.{RequestCoalescer, Role, leader, join_or_start, complete}
use eventedge.Metrics.{
  endpoint_label, record_request, record_health_request, record_metrics_request,
  record_proxy_request, record_cache_hit, record_cache_miss, record_coalescing_leader,
  record_coalescing_waiter, proxy_started, proxy_completed, record_response_status,
  record_upstream_selection, observe_duration,
}
use eventedge.Proxy
use eventedge.Proxy.{default_timeouts}
use eventedge.Metrics.Render.{Printer, render}
use eventedge.Session.Objects.{
  contains, ReadError, end_of_stream, failed, Shared, HttpSession, Work, read_request,
  shutdown_send, write, proxy, Clock, flight_calls,
}

module _ (b : Beast) (print : Printer) where
  open b use {Fields, find, set, name_of}

  abbrev pub Result : Type 0
  Result = Outcome (HttpSession Fields × Shared Fields × List (Work Fields))

  unfoldable pub do_read : HttpSession Fields → Shared Fields → Result
  do_read s w = ok (record s { request = b.default_request }, w, read_request ∷ [])

  -- The constructor; the number is the session's own, which its callbacks name it by.
  unfoldable pub create : ℕ → HttpSession Fields
  create id = record { id = id; request = b.default_request; request_started = 0 }

  unfoldable pub run : HttpSession Fields → Shared Fields → Result
  run s w = do_read s w

  unfoldable pub close : HttpSession Fields → Shared Fields → Result
  close s w = ok (s, w, shutdown_send ∷ [])

  unfoldable pub write_response :
      Clock → HttpResponse Fields → HttpSession Fields → Shared Fields → Result
  write_response clock response s w =
      let m = record_response_status response.status w.metrics in
      let m' = observe_duration (clock.written - s.request_started) m in
      ok (s, record w { metrics = m' }, write response (b.need_eof response) ∷ [])

  -- The response in the version and with the keep-alive of a request.
  unfoldable pub for_request : HttpRequest Fields → HttpResponse Fields → HttpResponse Fields
  for_request request response = record response {
    version = request.version;
    fields =
        b.set_keep_alive request.version (b.keep_alive request.version request.fields)
          response.fields;
  }

  unfoldable pub write_response_for_current_request :
      Clock → HttpResponse Fields → HttpSession Fields → Shared Fields → Result
  write_response_for_current_request clock response s w =
      write_response clock (for_request s.request response) s w

  abbrev pub is_missing : Option Text → Bool
  is_missing none = true
  is_missing (some value) = false

  unfoldable pub cacheable_request : HttpRequest Fields → Bool
  cacheable_request request =
      (is_get request.method && is_missing (find (name_of Field.authorization) request.fields))
      && not (is_health_request b request)

  -- `response[field]` is empty when there is no such field.
  abbrev pub value_or_empty : Option Text → Text
  value_or_empty none = []
  value_or_empty (some value) = value

  unfoldable pub cacheable_response : HttpResponse Fields → Bool
  cacheable_response response =
      if not (response.status == success)
        || not (is_missing (find (name_of Field.set_cookie) response.fields))
      then false
      else (let cache_control =
            value_or_empty (find (name_of Field.cache_control) response.fields) in
          not (contains (codes "no-store") cache_control)
          && not (contains (codes "private") cache_control))

  -- The first `if` of `complete_flight`.
  unfoldable pub store :
      Clock → Text → HttpResponse Fields → Bool → Shared Fields → Outcome (Shared Fields)
  store clock key response should_cache w =
      if should_cache && cacheable_response response
      then (do
        cache ← put clock.cached key response w.response_cache
        ok (record w { response_cache = cache }))
      else ok w

  -- The second `if`: the waiters of the flight each post a task.
  unfoldable pub call_coalescer :
      Text
      → HttpResponse Fields
      → Option (RequestCoalescer ℕ)
      → Option (RequestCoalescer ℕ) × List (Work Fields)
  call_coalescer key response none = (none, [])
  call_coalescer key response (some c) =
      let (c', calls) = complete key response c in (some c', flight_calls calls)

  unfoldable pub call_waiters :
      Text → HttpResponse Fields → Shared Fields → Shared Fields × List (Work Fields)
  call_waiters key response w =
      let (held, calls) = call_coalescer key response w.request_coalescer in
      (record w { request_coalescer = held }, calls)

  unfoldable pub complete_flight :
      Clock → Text → HttpResponse Fields → Bool → HttpSession Fields → Shared Fields → Result
  complete_flight clock key response should_cache s w = do
    w' ← store clock key response should_cache w
    let called = call_waiters key response w'
    (s', w'', work) ← write_response_for_current_request clock response s called.0
    ok (s', w'', called.1 ++ work)

  -- The completion handlers of the proxies.
  unfoldable pub on_proxied :
      Clock → Option Text → HttpResponse Fields → HttpSession Fields → Shared Fields → Result
  on_proxied clock (some key) response s w =
      complete_flight clock key response true s (record w { metrics = proxy_completed w.metrics })
  on_proxied clock none response s w =
      write_response_for_current_request clock response s
        (record w { metrics = proxy_completed w.metrics })

  -- What the two places that start a proxy share. The handler runs the proxy, and throws when that does;
  -- the work is what the proxy was made from.
  unfoldable pub start_proxy :
      Option Text → UpstreamEndpoint → HttpSession Fields → Shared Fields → Result
  start_proxy key upstream s w =
      let m = record_proxy_request w.metrics in
      let m' = record_upstream_selection (endpoint_label upstream) m in
      do
        started ← Proxy.run b (Proxy.create b upstream s.request default_timeouts)
        ok (s, record w { metrics = proxy_started m' }, proxy upstream s.request key ∷ [])

  unfoldable pub metrics_response : HttpRequest Fields → Text → HttpResponse Fields
  metrics_response request body =
      let f0 = set (name_of Field.content_type) (codes "text/plain; version=0.0.4") b.empty in
      let f1 = b.set_keep_alive request.version (b.keep_alive request.version request.fields) f0 in
      let r : HttpResponse Fields = record {
        status = success;
        version = request.version;
        fields = f1;
        body = body;
      } in
      record r { fields = b.prepare_response r }

  unfoldable pub serve_metrics : Clock → HttpSession Fields → Shared Fields → Result
  serve_metrics clock s w =
      let w' = record w { metrics = record_metrics_request w.metrics } in
      if not (is_get s.request.method)
      then write_response clock (handle_request b s.request) s w'
      else (do
        body ← render print w'.metrics w'.upstream_pool
        write_response clock (metrics_response s.request body) s w')

  -- The leader of a flight.
  unfoldable pub lead : Clock → Text → HttpSession Fields → Shared Fields → Result
  lead clock key s w = do
    (pool, upstream) ← select w.upstream_pool
    let w' = record w { upstream_pool = pool }
    elim upstream [
      | none ↦ complete_flight clock key (make_service_unavailable_response b s.request) false s w'
      | some endpoint ↦ start_proxy (some key) endpoint s w'
    ]

  -- After `join_or_start`.
  unfoldable pub on_role : Clock → Text → Role → HttpSession Fields → Shared Fields → Result
  on_role clock key Role.waiter s w =
      ok (s, record w { metrics = record_coalescing_waiter w.metrics }, [])
  on_role clock key leader s w =
      lead clock key s (record w { metrics = record_coalescing_leader w.metrics })

  -- A miss joins the flight of its key, or leads it.
  unfoldable pub join_flight :
      Clock → Text → Option (RequestCoalescer ℕ) → HttpSession Fields → Shared Fields → Result
  join_flight clock key none s w =
      write_response_for_current_request clock (make_service_unavailable_response b s.request) s w
  join_flight clock key (some c) s w =
      let (c', role) = join_or_start key s.id c in
      on_role clock key role s (record w { request_coalescer = some c' })

  unfoldable pub on_miss : Clock → Text → HttpSession Fields → Shared Fields → Result
  on_miss clock key s w =
      join_flight clock key w.request_coalescer s
        (record w { metrics = record_cache_miss w.metrics })

  unfoldable pub serve_cacheable : Clock → Text → HttpSession Fields → Shared Fields → Result
  serve_cacheable clock key s w = do
    (cache, cached) ← get clock.cached key w.response_cache
    let w' = record w { response_cache = cache }
    elim cached [
      | some response ↦
          write_response_for_current_request clock response s
            (record w' { metrics = record_cache_hit w'.metrics })
      | none ↦ on_miss clock key s w'
    ]

  unfoldable pub serve_uncacheable : Clock → HttpSession Fields → Shared Fields → Result
  serve_uncacheable clock s w = do
    (pool, upstream) ← select w.upstream_pool
    let w' = record w { upstream_pool = pool }
    elim upstream [
      | none ↦ write_response clock (make_service_unavailable_response b s.request) s w'
      | some endpoint ↦ start_proxy none endpoint s w'
    ]

  unfoldable pub serve : Clock → HttpSession Fields → Shared Fields → Result
  serve clock s w =
      if is_health_request b s.request
      then write_response clock (handle_request b s.request) s
          (record w { metrics = record_health_request w.metrics })
      else if text_eq s.request.target (codes "/metrics")
      then serve_metrics clock s w
      else if cacheable_request s.request
      then serve_cacheable clock s.request.target s w
      else serve_uncacheable clock s w

  -- `request` is what has been read into the session's request.
  unfoldable pub on_read :
      Clock → Option ReadError → HttpRequest Fields → HttpSession Fields → Shared Fields → Result
  on_read clock (some end_of_stream) request s w = close (record s { request = request }) w
  on_read clock (some failed) request s w = ok (record s { request = request }, w, [])
  on_read clock none request s w =
      serve clock (record s { request = request; request_started = clock.entered })
        (record w { metrics = record_request w.metrics })

  -- `failure` tells whether the write failed.
  unfoldable pub on_write : Bool → Bool → HttpSession Fields → Shared Fields → Result
  on_write close_after_write failure s w =
      if failure then ok (s, w, []) else if close_after_write then close s w else do_read s w
