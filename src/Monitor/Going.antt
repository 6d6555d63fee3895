-- ===== src/Monitor/Going.antt =====
-- The rounds go on: what holds of a monitor after any history of events.
use eventedge.Base.{
  ℕ, zero, suc, ◌+◌, ◌<◌, ◌≡◌, refl, sym, ap, inr, Bool, true, false, List, [], ◌∷◌, ◌++◌, some, ok,
  if◌then◌else◌, All, get_elem?, set, arith,
}
use mathlib.Core.Path.{subst}
use eventedge.Upstream.{size}
use eventedge.Monitor.Check.{Watched, resolving, CheckAction, finished, HealthCheck}
use eventedge.Monitor.Rounds.{
  HealthCheckOptions, Wait, UpstreamHealthMonitor, Monitoring, schedule_next_check,
  on_check_complete, run_from, report,
}
use eventedge.Monitor.Verdict.{finishes, live}
use eventedge.Monitor.Conclusion.{run-live}
use eventedge.Monitor.Advance.{IsAlive}

-- The checks that are not over.
abbrev pub open_count : List HealthCheck → ℕ
open_count [] = 0
open_count (c ∷ cs) = (if c.completed then 0 else 1) + open_count cs

abbrev pub CheckIsSound : ℕ → HealthCheck → Type 0
CheckIsSound n c = (c.index < n) × IsAlive c

-- Whose turn it is: the timer's, with one wait, cancelled exactly if the monitor was stopped; the
-- checks', some of which are not over; or, after `stop`, nobody's.
pub data Turn (m : UpstreamHealthMonitor) : Type 0 where
  rests : (w : Wait) → m.timer ≡ w ∷ [] → m.checks_remaining ≡ 0 → w.cancelled ≡ m.stopped → Turn m
  checks_go : m.timer ≡ [] → 0 < m.checks_remaining → Turn m
  ended : m.timer ≡ [] → m.stopped ≡ true → Turn m

pub record IsGoing (s : Monitoring) : Type 0 where
  pub populated : 0 < size s.watched.upstream_pool
  pub sound : All (CheckIsSound (size s.watched.upstream_pool)) s.checks
  pub counted : open_count s.checks ≡ s.monitor.checks_remaining
  pub turn : Turn s.monitor

-- The rounds go on whatever else the backends are seen to do, as long as they are as many.
pub seen-IsGoing :
    (s : Monitoring) (w : Watched)
    → size w.upstream_pool ≡ size s.watched.upstream_pool
    → IsGoing s
    → IsGoing (record s { watched = w })
seen-IsGoing s w same g = record {
  populated = omega (arith, same, g.populated);
  sound = subst (λ n. All (CheckIsSound n) s.checks) (sym same) g.sound;
  counted = g.counted;
  turn = g.turn;
}

-- Reports, by how many there are.
abbrev pub reports : ℕ → UpstreamHealthMonitor → UpstreamHealthMonitor
reports zero m = m
reports (suc n) m = reports n (on_check_complete m)

pub report-reports :
    (actions : List CheckAction) (m : UpstreamHealthMonitor)
    → report actions m ≡ reports (finishes actions) m
unfolding report finishes
report-reports [] m = refl
report-reports (finished ∷ actions) m = report-reports actions (on_check_complete m)
report-reports (_ ∷ actions) m = report-reports actions m

-- A monitor whose timer has no wait.
abbrev quiet_monitor : HealthCheckOptions → ℕ → Bool → UpstreamHealthMonitor
quiet_monitor options left stopped = record {
  options = options;
  timer = [];
  checks_remaining = left;
  stopped = stopped;
}

abbrev pub Counts : UpstreamHealthMonitor → Type 0
Counts m =
    Turn (on_check_complete m) × ((on_check_complete m).checks_remaining + 1 ≡ m.checks_remaining)

-- A report that is not the last.
report_more :
    (options : HealthCheckOptions) (k : ℕ) (stopped : Bool)
    → on_check_complete (quiet_monitor options (suc (suc k)) stopped)
      ≡ quiet_monitor options (suc k) stopped
unfolding on_check_complete
report_more options k stopped = ground arith

quiet_monitor-Counts :
    (options : HealthCheckOptions) (left : ℕ) (stopped : Bool)
    → 0 < left
    → Counts (quiet_monitor options left stopped)
unfolding on_check_complete schedule_next_check
quiet_monitor-Counts options zero stopped h = elim h [ ]
quiet_monitor-Counts options (suc zero) false h = (rests _ refl refl refl, refl)
quiet_monitor-Counts options (suc zero) true h = (ended refl refl, refl)
quiet_monitor-Counts options (suc (suc k)) stopped h =
    let e = report_more options k stopped in
    subst (λ x. Turn x × (x.checks_remaining + 1 ≡ suc (suc k))) (sym e)
      (checks_go refl (omega arith), omega arith)

-- The last report schedules the next round, unless the monitor was stopped.
pub on_check_complete-Counts :
    (m : UpstreamHealthMonitor) → m.timer ≡ [] → 0 < m.checks_remaining → Counts m
on_check_complete-Counts m quiet more =
    subst Counts (λ i. record m { timer = sym quiet i })
      (quiet_monitor-Counts m.options m.checks_remaining m.stopped more)

-- A wait cannot be there while checks are open.
pub checks-Turn : (m : UpstreamHealthMonitor) → Turn m → 0 < m.checks_remaining → m.timer ≡ []
checks-Turn m (rests w one left marked) more = absurd (omega (arith, left, more))
checks-Turn m (checks_go quiet more') more = quiet
checks-Turn m (ended quiet over) more = quiet

pub open_count-set :
    (cs : List HealthCheck) (k : ℕ) (c c' : HealthCheck)
    → get_elem? cs k ≡ some c
    → open_count (set cs k c') + (if c.completed then 0 else 1)
      ≡ open_count cs + (if c'.completed then 0 else 1)
open_count-set [] k c c' e = cc
open_count-set (d ∷ cs) zero c c' e =
    let same : d ≡ c = cc in
    let flag = ap {B = ℕ} (λ x. if x.completed then 0 else 1) same in omega (arith, flag)
open_count-set (d ∷ cs) (suc k) c c' e = omega (arith, open_count-set cs k c c' e)

pub open_count-append :
    (cs ds : List HealthCheck) → open_count (cs ++ ds) ≡ open_count cs + open_count ds
open_count-append [] ds = omega arith
open_count-append (c ∷ cs) ds = omega (arith, open_count-append cs ds)

-- The loop starts a sound check for each upstream, and all of them are open.
pub run_from-IsSound :
    (left index timeout : ℕ) (w : Watched)
    → index + left ≡ size w.upstream_pool
    → (cs : List HealthCheck) × (run_from left index timeout w ≡ ok cs)
      × All (CheckIsSound (size w.upstream_pool)) cs
      × (open_count cs ≡ left)
unfolding run_from
run_from-IsSound zero index timeout w h = ([], refl, tt, refl)
run_from-IsSound (suc left) index timeout w h =
    let (e, there, runs) = run-live index timeout w (omega (arith, h)) in
    let (cs, rest, sound, counted) =
      run_from-IsSound left (index + 1) timeout w (omega (arith, h)) in
    (
      live index timeout true resolving ∷ cs,
      rw (runs, rest) refl,
      ((omega (arith, h), inr (refl, resolving, refl)), sound),
      omega (arith, counted),
    )
