-- ===== src/Monitor/Check.antt =====
-- `HealthCheck`: an attempt to resolve one upstream and to connect to it, against a timer. A handler
-- gives the check, what it shares with the rest of the program, and what it does to the world.
use eventedge.Base.{
  ℕ, Bool, true, false, not, List, [], ◌∷◌, ◌++◌, Option, none, some, Text, Outcome, ok, ◌>>=◌,
  if◌then◌else◌,
}
use eventedge.Decimal.{to_string}
use eventedge.Upstream.{UpstreamPool, endpoint, set_healthy}
use eventedge.Metrics.{MetricsRegistry, record_health_transition}

-- The pool, and the metrics if the pointer to them is not null.
pub record Watched : Type 0 where
  pub upstream_pool : UpstreamPool
  pub metrics : Option MetricsRegistry

pub data Attempt : Type 0 where
  resolving connecting : Attempt

pub data CheckAction : Type 0 where
  wait : ℕ → CheckAction
  resolve : Text → Text → CheckAction
  connect cancel_timer cancel_resolver close_socket finished : CheckAction

-- `waiting` and `attempt` tell which handlers the I/O library still has to call. `finished` is the
-- call of the completion handler, which every handler makes last.
pub record HealthCheck : Type 0 where
  pub index : ℕ
  pub timeout : ℕ
  pub completed : Bool
  pub waiting : Bool
  pub attempt : Option Attempt

-- A handler is called, with an error or without: of the timer, of the resolver, of the socket. An
-- operation that was cancelled may still be reported as done, so either may come at any time.
pub data CheckEvent : Type 0 where
  waited resolved connected : Bool → CheckEvent

abbrev pub CheckStep : Type 0
CheckStep = Outcome (HealthCheck × Watched × List CheckAction)

abbrev pub create : ℕ → ℕ → HealthCheck
create index timeout = record {
  index = index;
  timeout = timeout;
  completed = false;
  waiting = false;
  attempt = none;
}

unfoldable pub run : HealthCheck → Watched → CheckStep
run c w = do
  e ← endpoint w.upstream_pool c.index
  ok (
    record c { waiting = true; attempt = some resolving },
    w,
    wait c.timeout ∷ resolve e.host (to_string e.port) ∷ [],
  )

unfoldable pub count_transition : Option MetricsRegistry → Option MetricsRegistry
count_transition none = none
count_transition (some m) = some (record_health_transition m)

-- `if (upstream_pool_->set_healthy(…))`; the endpoint is read for the log.
unfoldable pub mark : ℕ → Bool → Watched → Outcome Watched
mark index healthy w = do
  (pool, changed) ← set_healthy w.upstream_pool index healthy
  if changed
      then (do
        e ← endpoint pool index
        ok (record { upstream_pool = pool; metrics = count_transition w.metrics }))
      else ok (record w { upstream_pool = pool })

unfoldable pub complete : Bool → HealthCheck → Watched → CheckStep
complete healthy c w = if c.completed then ok (c, w, []) else (do
  w' ← mark c.index healthy w
  ok (record c { completed = true }, w', cancel_timer ∷ close_socket ∷ finished ∷ []))

-- The handler of the timer.
unfoldable pub on_timer : Bool → HealthCheck → Watched → CheckStep
on_timer true c w = ok (c, w, [])
on_timer false c w = do
  (c', w', actions) ← complete false c w
  ok (c', w', cancel_resolver ∷ close_socket ∷ actions)

unfoldable pub on_resolve : Bool → HealthCheck → Watched → CheckStep
on_resolve error c w =
    if c.completed
    then ok (c, w, [])
    else if error
    then complete false c w
    else ok (record c { attempt = some connecting }, w, connect ∷ [])

unfoldable pub on_connect : Bool → HealthCheck → Watched → CheckStep
on_connect error c w = complete (not error) c w

-- The library calls a handler that it has, once; another event does not happen.
unfoldable pub dispatch : Bool → Option Attempt → CheckEvent → HealthCheck → Watched → CheckStep
dispatch true attempt (waited error) c w = on_timer error (record c { waiting = false }) w
dispatch waiting (some resolving) (resolved error) c w =
    on_resolve error (record c { attempt = none }) w
dispatch waiting (some connecting) (connected error) c w =
    on_connect error (record c { attempt = none }) w
dispatch waiting attempt event c w = ok (c, w, [])

unfoldable pub step : CheckEvent → HealthCheck → Watched → CheckStep
step event c w = dispatch c.waiting c.attempt event c w

unfoldable pub steps : List CheckEvent → HealthCheck → Watched → CheckStep
steps [] c w = ok (c, w, [])
steps (event ∷ events) c w = do
  (c', w', actions) ← step event c w
  (c'', w'', more) ← steps events c' w'
  ok (c'', w'', actions ++ more)
