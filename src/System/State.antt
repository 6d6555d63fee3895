-- ===== src/System/State.antt =====
-- What the program holds while it serves, and the handlers that the I/O library may call next.
use eventedge.Base.{
  ℕ, zero, suc, Bool, true, false, List, [], ◌∷◌, ◌++◌, Option, none, some, Text, Outcome, throw,
  undefined, ok, ◌>>=◌, length, get_elem?, set, if◌then◌else◌,
}
use eventedge.Http.{Beast, HttpRequest, HttpResponse}
use eventedge.Upstream.{UpstreamEndpoint}
use eventedge.Proxy
use eventedge.Proxy.{UpstreamProxy, Event, default_timeouts}
use eventedge.Proxy.Once.{responses}
use eventedge.Metrics.Render.{Printer}
use eventedge.Monitor
use eventedge.Monitor.{HealthCheck, CheckEvent, Monitoring, MonitorEvent, fires, checks_event}
use eventedge.Server
use eventedge.Session
use eventedge.Session.{
  Shared, HttpSession, Work, read_request, shutdown_send, write, post, proxy, Clock, Result,
  on_proxied,
}
use eventedge.Main.{Program, watched_of, on_signal}
use eventedge.Service.World.{Input, remove_at, assigned, is_fatal, metrics_or, handler}

-- Outstanding work of a session: an operation of its own, or a proxy that it has started, with what
-- the proxy was made from.
pub data Task (F : Type 0) : Type 0 where
  awaits : Work F → Task F
  relays : UpstreamEndpoint → HttpRequest F → Option Text → UpstreamProxy F → Task F

-- The objects of `main`, the checks and the sessions that they have started, the work of each
-- session, and the sessions that an error has ended.
pub record System (Address F : Type 0) : Type 0 where
  pub program : Program Address F
  pub checks : List HealthCheck
  pub sessions : List (HttpSession F)
  pub tasks : List (ℕ × Task F)
  pub ended : List ℕ

-- The handler of an accept is called; that of a session's own operation; that of the operation of a
-- proxy; the timer's; a check's; the signal's.
pub data SystemEvent (F : Type 0) : Type 0 where
  accepted : Bool → SystemEvent F
  handled : ℕ → Clock → Input F → SystemEvent F
  relayed : ℕ → Clock → Event F → SystemEvent F
  timed : Bool → SystemEvent F
  checked : ℕ → CheckEvent → SystemEvent F
  signalled : Bool → SystemEvent F

module _ {Address F : Type 0} where
  abbrev pub shared_of : System Address F → Shared F
  shared_of s = s.program.server.shared

  abbrev pub with_shared : Shared F → System Address F → System Address F
  with_shared w s = record s {
    program = record s.program { server = record s.program.server { shared = w } };
  }

  -- What the monitor sees.
  abbrev pub monitoring : System Address F → Monitoring
  monitoring s = record {
    monitor = s.program.health_monitor;
    checks = s.checks;
    watched = watched_of s.program;
  }

  -- A program that serves, before any handler has been called.
  abbrev pub begin : Program Address F → System Address F
  begin p = record { program = p; checks = []; sessions = []; tasks = []; ended = [] }

  -- A turn of the monitor, which writes to the objects that sessions share.
  unfoldable pub observe : MonitorEvent → System Address F → Outcome (System Address F)
  observe event s = do
    m ← Monitor.react event (monitoring s)
    ok
        (record (with_shared
          (record (shared_of s) {
            upstream_pool = m.watched.upstream_pool;
            metrics = metrics_or s.program.server.shared.metrics m.watched.metrics;
          })
          (record s { program = record s.program { health_monitor = m.monitor } })) {
            checks = m.checks;
          })

module _ (b : Beast) where
  open b use {Fields}

  -- The proxy that `run` has left; one that throws ends the handler before it comes to this.
  abbrev pub run_proxy :
      UpstreamEndpoint → HttpRequest Fields → Option Text → Outcome (Proxy.Step b) → Task Fields
  run_proxy upstream request key (ok (p, actions)) = relays upstream request key p
  run_proxy upstream request key (throw e) = awaits (proxy upstream request key)
  run_proxy upstream request key undefined = awaits (proxy upstream request key)

  -- `make_shared<UpstreamProxy>(…)->run()`
  abbrev pub launch : Work Fields → Task Fields
  launch (proxy upstream request key) =
      run_proxy upstream request key
        (Proxy.run b (Proxy.create b upstream request default_timeouts))
  launch read_request = awaits read_request
  launch shutdown_send = awaits shutdown_send
  launch (write response eof) = awaits (write response eof)
  launch (post id response) = awaits (post id response)

  unfoldable pub launch_all : List (ℕ × Work Fields) → List (ℕ × Task Fields)
  launch_all [] = []
  launch_all ((i, x) ∷ xs) = (i, launch x) ∷ launch_all xs

module _ (b : Beast) (print : Printer) {Address : Type 0} where
  open b use {Fields}

  -- What a handler of the session `i` leaves, which is called for the task in the place `k`.
  unfoldable pub resume :
      ℕ
      → ℕ
      → Bool
      → Option (Result b print)
      → System Address Fields
      → Outcome (System Address Fields)
  resume k i fatal none s = ok s
  resume k i fatal (some result) s = do
    (x, w, new) ← result
    ok (record (with_shared w s) {
      sessions = set s.sessions i x;
      tasks = remove_at k s.tasks ++ launch_all b (assigned i new);
      ended = if fatal then i ∷ s.ended else s.ended;
    })

  -- A socket that was accepted gets a session, which reads.
  unfoldable pub open_session : Bool → System Address Fields → Outcome (System Address Fields)
  open_session true s = ok s
  open_session false s = do
    (x, w, new) ← Session.run b print (Session.create b print (length s.sessions)) (shared_of s)
    ok (record (with_shared w s) {
      sessions = s.sessions ++ (x ∷ []);
      tasks = s.tasks ++ launch_all b (assigned (length s.sessions) new);
    })

  -- The handler of an accept, if one is under way.
  unfoldable pub accept : ℕ → Bool → System Address Fields → Outcome (System Address Fields)
  accept zero error s = ok s
  accept (suc left) error s = do
    s' ← open_session error s
    ok (record s' {
      program = record s'.program {
        server = Server.react (Server.accepts error) s'.program.server;
      };
    })

  unfoldable pub handle :
      ℕ
      → Clock
      → Input Fields
      → Option (ℕ × Task Fields)
      → System Address Fields
      → Outcome (System Address Fields)
  handle k clock input none s = ok s
  handle k clock input (some (i, relays upstream request key p)) s = ok s
  handle k clock input (some (i, awaits x)) s = elim (get_elem? s.sessions i) [
    | none ↦ ok s
    | some y ↦ resume k i (is_fatal input) (handler b print clock x input y (shared_of s)) s
  ]

  -- The completion handler, if the proxy has called it.
  unfoldable pub answer :
      ℕ
      → ℕ
      → Clock
      → Option Text
      → List (HttpResponse Fields)
      → System Address Fields
      → Outcome (System Address Fields)
  answer k i clock key [] s = ok s
  answer k i clock key (response ∷ more) s = elim (get_elem? s.sessions i) [
    | none ↦ ok s
    | some y ↦ resume k i false (some (on_proxied b print clock key response y (shared_of s))) s
  ]

  unfoldable pub relay :
      ℕ
      → Clock
      → Event Fields
      → Option (ℕ × Task Fields)
      → System Address Fields
      → Outcome (System Address Fields)
  relay k clock event none s = ok s
  relay k clock event (some (i, awaits x)) s = ok s
  relay k clock event (some (i, relays upstream request key p)) s =
      answer k i clock key (responses (Proxy.step b p event).1) (record s {
        tasks = set s.tasks k (i, relays upstream request key (Proxy.step b p event).0);
      })

  unfoldable pub call : SystemEvent Fields → System Address Fields → Outcome (System Address Fields)
  call (accepted error) s = accept s.program.server.accepting error s
  call (handled k clock input) s = handle k clock input (get_elem? s.tasks k) s
  call (relayed k clock event) s = relay k clock event (get_elem? s.tasks k) s
  call (timed error) s = observe (fires error) s
  call (checked k event) s = observe (checks_event k event) s
  call (signalled error) s = ok (record s { program = on_signal error s.program })

  -- A context that was stopped calls no handler any more.
  unfoldable pub step : SystemEvent Fields → System Address Fields → Outcome (System Address Fields)
  step event s = if s.program.context_stopped then ok s else call event s

  unfoldable pub steps :
      List (SystemEvent Fields) → System Address Fields → Outcome (System Address Fields)
  steps [] s = ok s
  steps (event ∷ events) s = do s' ← step event s; steps events s'
