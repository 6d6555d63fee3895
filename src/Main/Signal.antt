-- ===== src/Main/Signal.antt =====
-- What a signal does to the program.
use mathlib.Core.Path.{subst}
use eventedge.Base.{◌+◌, ◌≤◌, ◌≡◌, refl, true, false, List, ok, arith}
use eventedge.Args.{Configuration}
use eventedge.Monitor.{Monitoring, MonitorEvent, UpstreamHealthMonitor}
use eventedge.Monitor
use eventedge.Monitor.Going.{IsGoing}
use eventedge.Monitor.Reacting.{react-Goes}
use eventedge.Monitor.History.{react_all-Goes}
use eventedge.Monitor.Stopped.{StaysBy, react_all-StaysBy}
use eventedge.Server.{HttpServer, ServerEvent}
use eventedge.Server
use eventedge.Server.Closing.{react_all-accepting, react_all-IsClosing}
use eventedge.Main.Launch.{Program, monitoring_of, on_signal}
use eventedge.Main.Ready.{IsReady}

module _ {Address F : Type 0} where
  -- The program when the monitor and the accept loop have come this far, and then a signal comes.
  abbrev pub signalled :
      Program Address F → UpstreamHealthMonitor → HttpServer F → Program Address F
  signalled p monitor server =
      on_signal false (record p { health_monitor = monitor; server = server })

  -- A program that was ready, after any events of its monitor and of its accept loop, and then a
  -- signal: the context is stopped; whatever handlers of the monitor are still called, they throw
  -- nothing and start no check and no wait; and whatever accept handlers are still called, the server
  -- is closed and gets one session more at most.
  pub on_signal-StaysBy :
      (c : Configuration Address) (p : Program Address F) (events late : List MonitorEvent)
      (accepted late_accepted : List ServerEvent)
      → IsReady c p
      → (s : Monitoring) × (Monitor.react_all events (monitoring_of p) ≡ ok s)
        × ((signalled p s.monitor (Server.react_all accepted p.server)).context_stopped ≡ true)
        × StaysBy
            (record s {
              monitor = (signalled p s.monitor (Server.react_all accepted p.server)).health_monitor;
            })
            (Monitor.react_all late (record s {
              monitor = (signalled p s.monitor (Server.react_all accepted p.server)).health_monitor;
            }))
        × ((Server.react_all late_accepted
              (signalled p s.monitor (Server.react_all accepted p.server)).server).is_open
            ≡ false)
        × ((Server.react_all late_accepted
              (signalled p s.monitor (Server.react_all accepted p.server)).server).sessions
            ≤ (Server.react_all accepted p.server).sessions + 1)
  unfolding on_signal Monitor.react Monitor.stop Server.stop
  on_signal-StaysBy c p events late accepted late_accepted ready =
      let (s, runs, going) = react_all-Goes events (monitoring_of p) ready.monitor_goes in
      let (stopped, done, stopped_going) = react-Goes s going Monitor.stops in
      let same : stopped ≡ record s { monitor = Monitor.stop s.monitor } = cc in
      let few = react_all-accepting accepted p.server in
      let (closed, at_most) =
        react_all-IsClosing late_accepted (Server.stop (Server.react_all accepted p.server)) refl in
      (
        s,
        runs,
        refl,
        react_all-StaysBy late (record s { monitor = Monitor.stop s.monitor })
            (subst IsGoing same stopped_going) refl,
        closed,
        omega (arith, at_most, few, ready.accepts_one),
      )
