-- ===== src/Server/Acceptor.antt =====
-- `HttpServer`. The acceptor's calls either fail or not, which is an argument; `accepting` is the
-- number of accept handlers that the I/O library still has to call.
use eventedge.Base.{
  ℕ, zero, suc, ◌+◌, Bool, true, false, List, [], ◌∷◌, Option, none, some, Outcome, ok, throw,
  system_error, ◌>>=◌, if◌then◌else◌,
}
use eventedge.Http.{HttpResponse}
use eventedge.Upstream.{UpstreamPool}
use eventedge.Cache.{ResponseCache}
use eventedge.Coalescer.{RequestCoalescer}
use eventedge.Metrics.{MetricsRegistry, create}
use eventedge.Session.{Shared}

-- Which of the calls that set the acceptor up fails.
pub record AcceptorErrors : Type 0 where
  pub opening : Bool
  pub setting_reuse : Bool
  pub binding : Bool
  pub listening : Bool

abbrev pub no_errors : AcceptorErrors
no_errors = record { opening = false; setting_reuse = false; binding = false; listening = false }

-- `sessions` counts the sessions that were made and run; each has the shared objects.
pub record HttpServer (F : Type 0) : Type 0 where
  pub shared : Shared F
  pub port : ℕ
  pub is_open : Bool
  pub accepting : ℕ
  pub sessions : ℕ

unfoldable pub throw_if_error : Bool → Outcome (Unit {0})
throw_if_error true = throw system_error
throw_if_error false = ok tt

-- `if (!metrics_)`
unfoldable pub metrics_or_new : UpstreamPool → Option MetricsRegistry → Outcome MetricsRegistry
metrics_or_new pool none = create pool
metrics_or_new pool (some m) = ok m

module _ {F : Type 0} where
  unfoldable pub create_server :
      AcceptorErrors
      → ℕ
      → UpstreamPool
      → ResponseCache (HttpResponse F)
      → RequestCoalescer ℕ
      → Option MetricsRegistry
      → Outcome (HttpServer F)
  create_server errors port pool cache coalescer metrics = do
    m ← metrics_or_new pool metrics
    opened ← throw_if_error errors.opening
    reused ← throw_if_error errors.setting_reuse
    bound ← throw_if_error errors.binding
    heard ← throw_if_error errors.listening
    ok (record {
      shared = record {
        upstream_pool = pool;
        response_cache = cache;
        request_coalescer = some coalescer;
        metrics = m;
      };
      port = port;
      is_open = true;
      accepting = 0;
      sessions = 0;
    })

  unfoldable pub do_accept : HttpServer F → HttpServer F
  do_accept s = record s { accepting = s.accepting + 1 }

  unfoldable pub run : HttpServer F → HttpServer F
  run s = do_accept s

  unfoldable pub stop : HttpServer F → HttpServer F
  stop s = record s { is_open = false }

  -- The handler of an accept, with an error or with a socket.
  unfoldable pub on_accept : Bool → HttpServer F → HttpServer F
  on_accept error s =
      let s' = if error then s else record s { sessions = s.sessions + 1 } in
      if s'.is_open then do_accept s' else s'

-- An accept handler is called, with an error or not; `stop` runs.
pub data ServerEvent : Type 0 where
  accepts : Bool → ServerEvent
  stops : ServerEvent

module _ {F : Type 0} where
  -- A handler is called only if there is one.
  unfoldable pub accept : ℕ → Bool → HttpServer F → HttpServer F
  accept zero error s = s
  accept (suc left) error s = on_accept error (record s { accepting = left })

  unfoldable pub react : ServerEvent → HttpServer F → HttpServer F
  react (accepts error) s = accept s.accepting error s
  react stops s = stop s

  unfoldable pub react_all : List ServerEvent → HttpServer F → HttpServer F
  react_all [] s = s
  react_all (event ∷ events) s = react_all events (react event s)
