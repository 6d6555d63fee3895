-- ===== src/Monitor/Stopped.antt =====
-- A monitor that was stopped.
use eventedge.Base.{
  ℕ, suc, ◌≤◌, ◌≡◌, refl, ap, ◌∙◌, inl, inr, Bool, true, false, List, [], ◌∷◌, some, Outcome, ok,
  length, length-set, get_elem?, Option-cases, Bool-cases, arith, All-get_elem?,
}
use mathlib.Core.Path.{subst}
use eventedge.Upstream.{size}
use eventedge.Upstream.Select.{select-Selects}
use eventedge.Monitor.Check.{CheckAction, finished, HealthCheck, CheckEvent}
use eventedge.Monitor.Rounds.{
  Wait, UpstreamHealthMonitor, Monitoring, MonitorEvent, fires, checks_event, stops, selects,
  cancel_all, schedule_next_check, stop, on_check_complete, run_checks, report, on_fire, on_check,
  react, react_all,
}
use eventedge.Monitor.Advance.{step-Advances}
use eventedge.Monitor.Going.{IsGoing, CheckIsSound}
use eventedge.Monitor.Reacting.{react-Goes}

-- Still stopped, with no check and no wait more than before.
pub record Stays (s s' : Monitoring) : Type 0 where
  pub stopped : s'.monitor.stopped ≡ true
  pub no_check : length s'.checks ≡ length s.checks
  pub no_wait : length s'.monitor.timer ≤ length s.monitor.timer

complete_stopped :
    (m : UpstreamHealthMonitor)
    → m.stopped ≡ true
    → ((on_check_complete m).stopped ≡ true) × ((on_check_complete m).timer ≡ m.timer)
unfolding on_check_complete schedule_next_check
complete_stopped m h = ground (arith, h)

-- A report to a monitor that was stopped only counts.
report_stopped :
    (actions : List CheckAction) (m : UpstreamHealthMonitor)
    → m.stopped ≡ true
    → ((report actions m).stopped ≡ true) × ((report actions m).timer ≡ m.timer)
unfolding report
report_stopped [] m h = (h, refl)
report_stopped (finished ∷ actions) m h =
    let (still, same) = complete_stopped m h in
    let (still', same') = report_stopped actions (on_check_complete m) still in
    (still', same' ∙ same)
report_stopped (_ ∷ actions) m h = report_stopped actions m h

length-cancel_all : (ws : List Wait) → length (cancel_all ws) ≡ length ws
length-cancel_all [] = refl
length-cancel_all (w ∷ ws) = ap suc (length-cancel_all ws)

-- What an event leads to, once the monitor was stopped.
abbrev pub StaysBy : Monitoring → Outcome Monitoring → Type 0
StaysBy s o = (s' : Monitoring) × (o ≡ ok s') × Stays s s'

module _ (s : Monitoring) (g : IsGoing s) (h : s.monitor.stopped ≡ true) where
  fire-StaysBy :
      (error : Bool) (ws : List Wait) → s.monitor.timer ≡ ws → StaysBy s (on_fire error ws s)
  unfolding on_fire run_checks
  fire-StaysBy error [] e =
      (s, refl, record { stopped = h; no_check = refl; no_wait = omega arith })
  fire-StaysBy false (w ∷ ws) e = (
    record s { monitor = record s.monitor { timer = ws } },
    ground (arith, h),
    record { stopped = h; no_check = refl; no_wait = omega (arith, ap length e) },
  )
  fire-StaysBy true (w ∷ ws) e = elim (Bool-cases w.cancelled) [
    | inl gone ↦ (
      record s { monitor = record s.monitor { timer = ws } },
      ground (arith, gone),
      record { stopped = h; no_check = refl; no_wait = omega (arith, ap length e) },
    )
    | inr kept ↦
        (s, ground (arith, kept), record { stopped = h; no_check = refl; no_wait = omega arith })
  ]

  check-StaysBy :
      (k : ℕ) (event : CheckEvent) (c : HealthCheck)
      → get_elem? s.checks k ≡ some c
      → StaysBy s (on_check k event (some c) s)
  unfolding on_check
  check-StaysBy k event c there =
      let (bound, alive) =
        All-get_elem? (CheckIsSound (size s.watched.upstream_pool)) s.checks k c g.sound there in
      let (c', w', actions, done, place, same_size, alive', turns) =
        step-Advances event c s.watched bound alive in
      let (still, same) = report_stopped actions s.monitor h in
      rw done (
        _,
        refl,
        record {
          stopped = still;
          no_check = length-set s.checks k c';
          no_wait = omega (arith, ap length same);
        },
      )

  react-StaysBy : (event : MonitorEvent) → StaysBy s (react event s)
  unfolding react stop on_check
  react-StaysBy (fires error) = fire-StaysBy error s.monitor.timer refl
  react-StaysBy (checks_event k event) = elim (Option-cases (get_elem? s.checks k)) [
    | inl missing ↦
        rw missing (s, refl, record { stopped = h; no_check = refl; no_wait = omega arith })
    | inr (c, there) ↦ rw there (check-StaysBy k event c there)
  ]
  react-StaysBy stops = (
    _,
    refl,
    record {
      stopped = refl;
      no_check = refl;
      no_wait = omega (arith, length-cancel_all s.monitor.timer);
    },
  )
  react-StaysBy selects =
      let (r, runs, result) = select-Selects s.watched.upstream_pool in
      rw runs (_, refl, record { stopped = h; no_check = refl; no_wait = omega arith })

-- After `stop`, whatever events come, and in whatever order, no check and no wait is started any
-- more: there are as many checks as before and at most as many waits, and the monitor stays stopped.
pub react_all-StaysBy :
    (events : List MonitorEvent) (s : Monitoring)
    → IsGoing s
    → s.monitor.stopped ≡ true
    → StaysBy s (react_all events s)
unfolding react_all
react_all-StaysBy [] s g h =
    (s, refl, record { stopped = h; no_check = refl; no_wait = omega arith })
react_all-StaysBy (event ∷ events) s g h =
    let (s', done, stays) = react-StaysBy s g h event in
    let (x, done', g') = react-Goes s g event in
    let same : x ≡ s' = cc in
    let (s'', rest, stays') = react_all-StaysBy events s' (subst IsGoing same g') stays.stopped in
    (
      s'',
      rw (done, rest) refl,
      record {
        stopped = stays'.stopped;
        no_check = stays'.no_check ∙ stays.no_check;
        no_wait = omega (arith, stays'.no_wait, stays.no_wait);
      },
    )
