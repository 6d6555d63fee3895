-- ===== src/Proxy/Machine.antt =====
-- `UpstreamProxy`: the chain of asynchronous operations. A handler returns the new state and what it
-- does to the world; `outstanding` is the operation that it has started, whose handler the I/O
-- library calls once.
use eventedge.Base.{
  ℕ, Bool, true, false, List, [], ◌∷◌, ◌++◌, Option, none, some, Text, codes, Outcome, ok, ◌>>=◌,
  if◌then◌else◌,
}
use eventedge.Decimal.{to_string}
use eventedge.Upstream.{UpstreamEndpoint}
use eventedge.Http.{Beast, HttpRequest, HttpResponse, Field}
use eventedge.Handler.{make_gateway_timeout_response, make_bad_gateway_response}
use eventedge.Proxy.Host.{upstream_host_header}
use eventedge.Proxy.Headers.{remove_hop_by_hop_headers}

pub record ProxyTimeouts : Type 0 where
  pub connect : ℕ
  pub write : ℕ
  pub read : ℕ

-- In milliseconds.
abbrev pub default_timeouts : ProxyTimeouts
default_timeouts = record { connect = 2000; write = 2000; read = 5000 }

-- An error is the library's `timeout`, or another.
pub data ErrorCode : Type 0 where
  timeout failure : ErrorCode

pub data Operation : Type 0 where
  resolves connects writes reads : Operation

pub data Action (F : Type 0) : Type 0 where
  start_resolve : Text → Text → Action F
  start_connect : ℕ → Action F
  start_write : ℕ → HttpRequest F → Action F
  start_read : ℕ → Action F
  shutdown cancel close : Action F
  respond : HttpResponse F → Action F

-- `completion_handler` tells whether the handler is still there: it is moved from when it is called.
pub record UpstreamProxy (F : Type 0) : Type 0 where
  pub upstream : UpstreamEndpoint
  pub request : HttpRequest F
  pub completion_handler : Bool
  pub timeouts : ProxyTimeouts
  pub client_version : ℕ
  pub client_keep_alive : Bool
  pub completed : Bool
  pub outstanding : Option Operation

-- What the I/O library hands to the handler of the outstanding operation; `none` is success.
pub data Event (F : Type 0) : Type 0 where
  resolved connected written : Option ErrorCode → Event F
  received : Option ErrorCode → HttpResponse F → Event F

module _ (b : Beast) where
  open b use {Fields, name_of, set}

  abbrev pub Step : Type 0
  Step = UpstreamProxy Fields × List (Action Fields)

  -- The constructor, with a handler.
  unfoldable pub create :
      UpstreamEndpoint → HttpRequest Fields → ProxyTimeouts → UpstreamProxy Fields
  create upstream request timeouts = record {
    upstream = upstream;
    request = request;
    completion_handler = true;
    timeouts = timeouts;
    client_version = request.version;
    client_keep_alive = b.keep_alive request.version request.fields;
    completed = false;
    outstanding = none;
  }

  -- The request before `prepare_payload`.
  unfoldable pub rewritten : UpstreamEndpoint → HttpRequest Fields → HttpRequest Fields
  rewritten upstream request =
      let f0 = remove_hop_by_hop_headers b request.fields in
      let f1 = set (name_of Field.host) (upstream_host_header upstream) f0 in
      let f2 = b.set_keep_alive 11 false f1 in
      let f3 = set (name_of Field.connection) (codes "close") f2 in
      record request { version = 11; fields = f3 }

  -- The request as it is sent; `prepare_payload` may throw.
  unfoldable pub forwarded : UpstreamEndpoint → HttpRequest Fields → Outcome (HttpRequest Fields)
  forwarded upstream request = do
    fields ← b.prepare_request (rewritten upstream request)
    ok (record (rewritten upstream request) { fields = fields })

  unfoldable pub run : UpstreamProxy Fields → Outcome Step
  run p = do
    request ← forwarded p.upstream p.request
    ok (
      record p { request = request; outstanding = some resolves },
      start_resolve p.upstream.host (to_string p.upstream.port) ∷ [],
    )

  unfoldable pub complete : HttpResponse Fields → UpstreamProxy Fields → Step
  complete response p = if p.completed then (p, []) else (
    record p { completed = true; completion_handler = false },
    cancel ∷ close ∷ (if p.completion_handler then respond response ∷ [] else []),
  )

  unfoldable pub fail : ErrorCode → UpstreamProxy Fields → Step
  fail timeout p =
      if p.completed then (p, []) else complete (make_gateway_timeout_response b p.request) p
  fail failure p =
      if p.completed then (p, []) else complete (make_bad_gateway_response b p.request) p

  unfoldable pub on_resolve : Option ErrorCode → UpstreamProxy Fields → Step
  on_resolve (some error) p = fail error p
  on_resolve none p =
      (record p { outstanding = some connects }, start_connect p.timeouts.connect ∷ [])

  unfoldable pub on_connect : Option ErrorCode → UpstreamProxy Fields → Step
  on_connect (some error) p = fail error p
  on_connect none p =
      (record p { outstanding = some writes }, start_write p.timeouts.write p.request ∷ [])

  unfoldable pub on_write : Option ErrorCode → UpstreamProxy Fields → Step
  on_write (some error) p = fail error p
  on_write none p = (record p { outstanding = some reads }, start_read p.timeouts.read ∷ [])

  -- The response as it is relayed.
  unfoldable pub relayed : ℕ → Bool → HttpResponse Fields → HttpResponse Fields
  relayed version keep response =
      let f0 = remove_hop_by_hop_headers b response.fields in
      let f1 = b.set_keep_alive version keep f0 in
      let r : HttpResponse Fields = record response { version = version; fields = f1 } in
      record r { fields = b.prepare_response r }

  -- `response` is what has been read when the handler is called.
  unfoldable pub on_read : Option ErrorCode → HttpResponse Fields → UpstreamProxy Fields → Step
  on_read (some error) response p = fail error p
  on_read none response p =
      let (p', actions) = complete (relayed p.client_version p.client_keep_alive response) p in
      (p', shutdown ∷ actions)

  -- The library calls the handler of the outstanding operation, which is then over; an event that
  -- belongs to no outstanding operation does not happen.
  unfoldable pub dispatch : Option Operation → Event Fields → UpstreamProxy Fields → Step
  dispatch (some resolves) (resolved e) p = on_resolve e (record p { outstanding = none })
  dispatch (some connects) (connected e) p = on_connect e (record p { outstanding = none })
  dispatch (some writes) (written e) p = on_write e (record p { outstanding = none })
  dispatch (some reads) (received e r) p = on_read e r (record p { outstanding = none })
  dispatch _ event p = (p, [])

  unfoldable pub step : UpstreamProxy Fields → Event Fields → Step
  step p event = dispatch p.outstanding event p

  unfoldable pub steps : UpstreamProxy Fields → List (Event Fields) → Step
  steps p [] = (p, [])
  steps p (event ∷ events) =
      let (p', actions) = step p event in let (q, more) = steps p' events in (q, actions ++ more)
