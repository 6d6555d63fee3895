-- ===== src/Monitor/Rounds.antt =====
-- `UpstreamHealthMonitor`: its handlers, and the checks that it has started. All of them run on one
-- strand, one after the other.
use eventedge.Base.{
  ℕ, zero, suc, ◌+◌, ◌-◌, Bool, true, false, not, ◌&&◌, List, [], ◌∷◌, ◌++◌, map, Option, none,
  some, Outcome, ok, ◌>>=◌, ltb, ◌==◌, if◌then◌else◌, get_elem?, set,
}
use eventedge.Upstream.{size, select}
use eventedge.Monitor.Check.{
  Watched, CheckAction, finished, HealthCheck, CheckEvent, step, run, create,
}

-- In milliseconds.
pub record HealthCheckOptions : Type 0 where
  pub interval : ℕ
  pub timeout : ℕ

abbrev pub default_options : HealthCheckOptions
default_options = record { interval = 2000; timeout = 1000 }

-- A handler that the timer still has to call.
pub record Wait : Type 0 where
  pub delay : ℕ
  pub cancelled : Bool

-- `timer` has the waits in the order in which they were started.
pub record UpstreamHealthMonitor : Type 0 where
  pub options : HealthCheckOptions
  pub timer : List Wait
  pub checks_remaining : ℕ
  pub stopped : Bool

abbrev pub create_monitor : HealthCheckOptions → UpstreamHealthMonitor
create_monitor options = record {
  options = options;
  timer = [];
  checks_remaining = 0;
  stopped = false;
}

-- The monitor with every check that it has started, and what they share.
pub record Monitoring : Type 0 where
  pub monitor : UpstreamHealthMonitor
  pub checks : List HealthCheck
  pub watched : Watched

abbrev pub cancel_all : List Wait → List Wait
cancel_all ws = map (λ w. record { delay = w.delay; cancelled = true }) ws

-- `expires_after` cancels the waits that are there.
unfoldable pub schedule_next_check : ℕ → UpstreamHealthMonitor → UpstreamHealthMonitor
schedule_next_check delay m = if m.stopped then m else record m {
  timer = cancel_all m.timer ++ (record { delay = delay; cancelled = false } ∷ []);
}

unfoldable pub start : UpstreamHealthMonitor → UpstreamHealthMonitor
start m = schedule_next_check 0 m

unfoldable pub stop : UpstreamHealthMonitor → UpstreamHealthMonitor
stop m = record m { stopped = true; timer = cancel_all m.timer }

unfoldable pub on_check_complete : UpstreamHealthMonitor → UpstreamHealthMonitor
on_check_complete m =
    let left = if ltb 0 m.checks_remaining then m.checks_remaining - 1 else m.checks_remaining in
    let m' = record m { checks_remaining = left } in
    if (left == 0) && not m.stopped then schedule_next_check m.options.interval m' else m'

-- The loop of `run_checks`, with `left` of the upstreams to come.
unfoldable pub run_from : ℕ → ℕ → ℕ → Watched → Outcome (List HealthCheck)
run_from zero index timeout w = ok []
run_from (suc left) index timeout w = do
  (c, w', actions) ← run (create index timeout) w
  rest ← run_from left (index + 1) timeout w'
  ok (c ∷ rest)

unfoldable pub run_checks : Monitoring → Outcome Monitoring
run_checks s = if s.monitor.stopped then ok s else (do
  started ← run_from (size s.watched.upstream_pool) 0 s.monitor.options.timeout s.watched
  ok (record s {
    monitor = record s.monitor { checks_remaining = size s.watched.upstream_pool };
    checks = s.checks ++ started;
  }))

-- The completion handler of a check, as often as the check calls it.
unfoldable pub report : List CheckAction → UpstreamHealthMonitor → UpstreamHealthMonitor
report [] m = m
report (finished ∷ actions) m = report actions (on_check_complete m)
report (_ ∷ actions) m = report actions m

-- The timer calls a handler, with an error or not; a check's handler is called; `stop` runs; and
-- elsewhere a session takes an upstream from the pool.
pub data MonitorEvent : Type 0 where
  fires : Bool → MonitorEvent
  checks_event : ℕ → CheckEvent → MonitorEvent
  stops selects : MonitorEvent

-- The timer's handler of a wait that is over. A wait ends with an error only if it was cancelled.
unfoldable pub on_fire : Bool → List Wait → Monitoring → Outcome Monitoring
on_fire error [] s = ok s
on_fire true (w ∷ ws) s =
    if w.cancelled then ok (record s { monitor = record s.monitor { timer = ws } }) else ok s
on_fire false (w ∷ ws) s = run_checks (record s { monitor = record s.monitor { timer = ws } })

unfoldable pub on_check : ℕ → CheckEvent → Option HealthCheck → Monitoring → Outcome Monitoring
on_check k event none s = ok s
on_check k event (some c) s = do
  (c', w', actions) ← step event c s.watched
  ok (record { monitor = report actions s.monitor; checks = set s.checks k c'; watched = w' })

unfoldable pub react : MonitorEvent → Monitoring → Outcome Monitoring
react (fires error) s = on_fire error s.monitor.timer s
react (checks_event k event) s = on_check k event (get_elem? s.checks k) s
react stops s = ok (record s { monitor = stop s.monitor })
react selects s = do
  (pool, e) ← select s.watched.upstream_pool
  ok (record s { watched = record s.watched { upstream_pool = pool } })

unfoldable pub react_all : List MonitorEvent → Monitoring → Outcome Monitoring
react_all [] s = ok s
react_all (event ∷ events) s = do s' ← react event s; react_all events s'

-- A monitor that has been made and started.
abbrev pub begin : HealthCheckOptions → Watched → Monitoring
begin options w = record { monitor = start (create_monitor options); checks = []; watched = w }
