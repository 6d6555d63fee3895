-- ===== src/System/Turns.antt =====
-- The other handlers of the program: of an accept, of the monitor, of a signal.
use mathlib.Core.Path.{subst}
use eventedge.Base.{
  ℕ, ◌≡◌, refl, sym, ap, inl, inr, Bool, true, false, List, [], ◌∷◌, ok, All, arith,
}
use eventedge.Http.{Beast}
use eventedge.Metrics.Render.{Printer}
use eventedge.Monitor
use eventedge.Monitor.{Monitoring, MonitorEvent, fires, checks_event}
use eventedge.Monitor.Going.{IsGoing, seen-IsGoing}
use eventedge.Monitor.Reacting.{react-Goes}
use eventedge.Monitor.Writes.{WritesOne, fires-same, checks_event-WritesOne}
use eventedge.Server
use eventedge.Server.{HttpServer}
use eventedge.Main.{on_signal}
use eventedge.Service.World
use eventedge.Service.World.{World, WorldEvent, connects, marks, assigned, metrics_or}
use eventedge.Service.History.{IsInside, ends-IsBalanced}
use eventedge.System.State.{System, shared_of, with_shared, monitoring, observe}
use eventedge.System.View.{view}
use eventedge.System.Sound.{IsSound}
use eventedge.System.Refines.{Refines, idle-Refines}

module _ (b : Beast) (print : Printer) (n : ℕ) {Address : Type 0} where
  open b use {Fields}

  -- The system with what the monitor has come to.
  abbrev watching : Monitoring → System Address Fields → System Address Fields
  watching m s =
      record (with_shared
        (record (shared_of s) {
          upstream_pool = m.watched.upstream_pool;
          metrics = metrics_or s.program.server.shared.metrics m.watched.metrics;
        })
        (record s { program = record s.program { health_monitor = m.monitor } })) {
          checks = m.checks;
        }

  -- A monitor's turn that is a history of the sessions.
  watching-Refines :
      (event : MonitorEvent) (s : System Address Fields) (m : Monitoring)
      (events : List (WorldEvent Fields))
      → IsSound b print n s
      → IsGoing m
      → Monitor.react event (monitoring s) ≡ ok m
      → All (IsInside n) events
      → World.steps b print events (view s) ≡ ok (view (watching m s))
      → Refines b print n s (observe event s)
  unfolding observe
  watching-Refines event s m events h going reacts inside ran = (
    watching m s,
    rw reacts refl,
    record {
      going = seen-IsGoing m (monitoring (watching m s)).watched refl going;
      balanced =
          ends-IsBalanced b print n events (view s) (view (watching m s)) inside h.balanced ran;
      under_way = h.under_way;
      counted = h.counted;
      accepting = record { at_most_one = h.accepting.at_most_one; goes_on = h.accepting.goes_on };
    },
    (events, inside, ran),
  )

  marks_once :
      (s : System Address Fields) (m : Monitoring) (i : ℕ) (healthy : Bool)
      → Monitor.mark i healthy (monitoring s).watched ≡ ok m.watched
      → World.steps b print (marks i healthy ∷ []) (view s) ≡ ok (view (watching m s))
  unfolding World.steps World.step
  marks_once s m i healthy marked = rw marked refl

  -- A monitor's turn that writes nothing, or one mark.
  observed-Refines :
      (event : MonitorEvent) (s : System Address Fields)
      → IsSound b print n s
      → ((m : Monitoring)
          → Monitor.react event (monitoring s) ≡ ok m
          → WritesOne (monitoring s).watched m.watched)
      → Refines b print n s (observe event s)
  unfolding World.steps
  observed-Refines event s h writes =
      let (m, reacts, going) = react-Goes (monitoring s) h.going event in
      elim (writes m reacts) [
        | inl same ↦
            let look : view s ≡ view (watching m s) = λ j. record (view s) {
              shared = record (shared_of s) {
                upstream_pool = (sym same j).upstream_pool;
                metrics = metrics_or s.program.server.shared.metrics (sym same j).metrics;
              };
            } in
            watching-Refines event s m [] h going reacts tt (ap ok look)
        | inr (i, healthy, inside, marked) ↦
            watching-Refines event s m (marks i healthy ∷ []) h going reacts
              (omega (arith, inside, h.balanced.healthy.backends), tt)
              (marks_once s m i healthy marked)
      ]

  pub timed-Refines :
      (error : Bool) (s : System Address Fields)
      → IsSound b print n s
      → Refines b print n s (observe (fires error) s)
  timed-Refines error s h =
      observed-Refines (fires error) s h
        (λ m reacts. inl (fires-same error (monitoring s) m reacts))

  pub checked-Refines :
      (k : ℕ) (event : Monitor.CheckEvent) (s : System Address Fields)
      → IsSound b print n s
      → Refines b print n s (observe (checks_event k event) s)
  checked-Refines k event s h =
      observed-Refines (checks_event k event) s h
        (λ m reacts. checks_event-WritesOne k event (monitoring s) m h.going reacts)

  -- A signal stops the monitor and the server, and the sessions do not see it.
  pub signalled-Refines :
      (error : Bool) (s : System Address Fields)
      → IsSound b print n s
      → Refines b print n s (ok (record s { program = on_signal error s.program }))
  unfolding on_signal Monitor.react Monitor.stop Server.stop World.steps
  signalled-Refines true s h = idle-Refines b print n s h
  signalled-Refines false s h =
      let (m, reacts, going) = react-Goes (monitoring s) h.going Monitor.stops in
      let same : m ≡ record (monitoring s) { monitor = Monitor.stop s.program.health_monitor } =
        cc in
      (
        record s { program = on_signal false s.program },
        refl,
        record {
          going = subst IsGoing same going;
          balanced = h.balanced;
          under_way = h.under_way;
          counted = h.counted;
          accepting = record { at_most_one = h.accepting.at_most_one; goes_on = λ open_still. cc };
        },
        ([], tt, refl),
      )
