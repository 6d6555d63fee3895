-- ===== src/Session/Traces.antt =====
-- The requests for which a proxy cannot be made: a TRACE request with a body.
use eventedge.Base.{
  ℕ, ◌≡◌, ◌≢◌, refl, get_elem?, Text-discrete, true, false, Option, none, some, Text, ite, codes,
  throw, invalid_argument,
}
use eventedge.Http.{Beast, HttpRequest, Verb, trace_with, has_trace_body}
use eventedge.Handler.{is_get, text_eq, is_health_request}
use eventedge.Upstream.{UpstreamEndpoint, Backend, IsValid}
use eventedge.Upstream.Rotation.{select-picks}
use eventedge.Proxy
use eventedge.Proxy.{forwarded, rewritten}
use eventedge.Metrics.{record_request}
use eventedge.Metrics.Render.{Printer}
use eventedge.Session.Objects.{Shared, HttpSession, Clock}
use eventedge.Session.Routing.{on_read, serve, serve_uncacheable, start_proxy, cacheable_request}

text_eq_ne : (s t : Text) → s ≢ t → text_eq s t ≡ false
text_eq_ne s t other = elim (Text-discrete s t) as (λ d. ite d true false ≡ false) [
  | yes same ↦ absurd (other same)
  | no _ ↦ refl
]

module _ (b : Beast) (print : Printer) where
  open b use {Fields}

  start_proxy-throws :
      (key : Option Text) (endpoint : UpstreamEndpoint) (s : HttpSession Fields) (w : Shared Fields)
      → has_trace_body s.request ≡ true
      → start_proxy b print key endpoint s w ≡ throw invalid_argument
  unfolding start_proxy Proxy.run Proxy.create forwarded rewritten
  start_proxy-throws key endpoint s w h = rw (b.refuses (rewritten b endpoint s.request) h) refl

  trace-get : (m : Verb) (body : Text) → trace_with m body ≡ true → is_get m ≡ false
  trace-get Verb.get body h = cc
  trace-get Verb.trace body h = refl
  trace-get (Verb.other name) body h = refl

  -- When a TRACE request with a body has been read, whose target is neither /health nor /metrics, and
  -- some backend of a valid pool is healthy, the handler throws `std::invalid_argument`, whatever the
  -- session, the cache, the coalescer and the metrics hold.
  pub on_read-throws :
      (clock : Clock) (request : HttpRequest Fields) (s : HttpSession Fields) (w : Shared Fields)
      (i : ℕ) (backend : Backend)
      → has_trace_body request ≡ true
      → request.target ≢ codes "/health"
      → request.target ≢ codes "/metrics"
      → IsValid w.upstream_pool
      → get_elem? w.upstream_pool.backends i ≡ some backend
      → backend.healthy ≡ true
      → on_read b print clock none request s w ≡ throw invalid_argument
  unfolding on_read serve serve_uncacheable is_health_request cacheable_request
  on_read-throws clock request s w i backend h health metrics valid there healthy =
      let (pool, endpoint, found) = select-picks w.upstream_pool i backend valid there healthy in
      rw
        (
          text_eq_ne request.target (codes "/health") health,
          text_eq_ne request.target (codes "/metrics") metrics,
          trace-get request.method request.body h,
          found,
        )
        (start_proxy-throws none endpoint
          (record s { request = request; request_started = clock.entered })
          (record w { upstream_pool = pool; metrics = record_request w.metrics }) h)
