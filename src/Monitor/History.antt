-- ===== src/Monitor/History.antt =====
-- Any history of events: no event throws, and the rounds go on.
use eventedge.Base.{ℕ, zero, suc, ◌+◌, ◌<◌, refl, false, List, [], ◌∷◌}
use eventedge.Upstream.{size}
use eventedge.Monitor.Check.{Watched}
use eventedge.Monitor.Rounds.{
  HealthCheckOptions, Monitoring, MonitorEvent, begin, schedule_next_check, start, react_all,
}
use eventedge.Monitor.Going.{rests, IsGoing}
use eventedge.Monitor.Reacting.{Goes, react-Goes}

pub begin-IsGoing :
    (options : HealthCheckOptions) (w : Watched)
    → 0 < size w.upstream_pool
    → IsGoing (begin options w)
unfolding start schedule_next_check
begin-IsGoing options w h = record {
  populated = h;
  sound = tt;
  counted = refl;
  turn = rests (record { delay = 0; cancelled = false }) refl refl refl;
}

pub react_all-Goes :
    (events : List MonitorEvent) (s : Monitoring) → IsGoing s → Goes (react_all events s)
unfolding react_all
react_all-Goes [] s g = (s, refl, g)
react_all-Goes (event ∷ events) s g =
    let (s', done, g') = react-Goes s g event in
    let (s'', rest, g'') = react_all-Goes events s' g' in (s'', rw (done, rest) refl, g'')

-- A monitor that is started over a pool that is not empty, and then given any events in any order,
-- has defined behaviour and does not throw. Afterwards every check is of a backend of the pool and
-- is over or has an attempt under way; the counter is the number of checks that are not over, so it
-- never falls below zero; and it is the turn of the timer alone, with one wait that is cancelled
-- exactly if the monitor was stopped, or of the open checks alone, or the monitor was stopped.
pub begin-Goes :
    (options : HealthCheckOptions) (w : Watched) (events : List MonitorEvent)
    → 0 < size w.upstream_pool
    → Goes (react_all events (begin options w))
begin-Goes options w events h = react_all-Goes events (begin options w) (begin-IsGoing options w h)

-- The places from `index` on.
abbrev pub places : ℕ → ℕ → List ℕ
places zero index = []
places (suc left) index = index ∷ places left (index + 1)
