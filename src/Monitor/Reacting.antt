-- ===== src/Monitor/Reacting.antt =====
-- What one event does to a monitor: nothing is thrown, and the rounds go on.
use eventedge.Base.{
  ℕ, ◌<◌, ◌≡◌, refl, sym, ap, ◌∙◌, inl, inr, Bool, true, false, List, [], ◌∷◌, some, Outcome, ok,
  if◌then◌else◌, All, All-get_elem?, All-set, All-append, get_elem?, set, Option-cases, Bool-cases,
  arith,
}
use mathlib.Core.Path.{subst}
use eventedge.Upstream.{size}
use eventedge.Upstream.Select.{select-Selects, Selects-size}
use eventedge.Monitor.Check.{Watched, CheckAction, HealthCheck, CheckEvent}
use eventedge.Monitor.Rounds.{
  Wait, UpstreamHealthMonitor, Monitoring, MonitorEvent, fires, checks_event, stops, selects,
  cancel_all, stop, run_checks, on_fire, on_check, react,
}
use eventedge.Monitor.Verdict.{finishes}
use eventedge.Monitor.Advance.{Turns, step-Advances}
use eventedge.Monitor.Going.{
  seen-IsGoing, CheckIsSound, Turn, rests, checks_go, ended, IsGoing, reports, report-reports,
  on_check_complete-Counts, checks-Turn, open_count-set, open_count-append, run_from-IsSound,
}

abbrev pub Goes : Outcome Monitoring → Type 0
Goes o = (s : Monitoring) × (o ≡ ok s) × IsGoing s

stop-Turn : (m : UpstreamHealthMonitor) → Turn m → Turn (stop m)
unfolding stop
stop-Turn m (rests w one left marked) =
    rests (record { delay = w.delay; cancelled = true }) (ap cancel_all one) left refl
stop-Turn m (checks_go quiet more) = ended (ap cancel_all quiet) refl
stop-Turn m (ended quiet over) = ended (ap cancel_all quiet) refl

-- What a check counts as.
flag : (x y : Bool) → x ≡ y → ◌≡◌ {A = ℕ} (if x then 0 else 1) (if y then 0 else 1)
flag x y h = ap (λ b. if b then 0 else 1) h

module _ (s : Monitoring) (g : IsGoing s) where
  -- The state when the only wait is over.
  abbrev fired : Monitoring
  fired = record s { monitor = record s.monitor { timer = [] } }

  run_checks-Goes : s.monitor.checks_remaining ≡ 0 → Goes (run_checks fired)
  unfolding run_checks
  run_checks-Goes none_left = elim (Bool-cases s.monitor.stopped) [
    | inl over ↦ (
      fired,
      ground (arith, over),
      record {
        populated = g.populated;
        sound = g.sound;
        counted = g.counted;
        turn = ended refl over;
      },
    )
    | inr on ↦
        let n = size s.watched.upstream_pool in
        let (cs, started, sound, counted) =
          run_from-IsSound n 0 s.monitor.options.timeout s.watched (omega arith) in
        simp (on, started)
          (
            _,
            refl,
            record {
              populated = g.populated;
              sound = All-append (CheckIsSound n) s.checks cs g.sound sound;
              counted = omega (arith, open_count-append s.checks cs, g.counted, none_left, counted);
              turn = checks_go refl g.populated;
            },
          )
  ]

  rested-Goes :
      (error : Bool) (w : Wait)
      → s.monitor.checks_remaining ≡ 0
      → w.cancelled ≡ s.monitor.stopped
      → Goes (on_fire error (w ∷ []) s)
  unfolding on_fire
  rested-Goes false w none_left marked = run_checks-Goes none_left
  rested-Goes true w none_left marked = elim (Bool-cases w.cancelled) [
    | inl gone ↦ rw gone (
      fired,
      refl,
      record {
        populated = g.populated;
        sound = g.sound;
        counted = g.counted;
        turn = ended refl (sym marked ∙ gone);
      },
    )
    | inr kept ↦ rw kept (s, refl, g)
  ]

  fires-Goes : (error : Bool) → Goes (react (fires error) s)
  unfolding react on_fire
  fires-Goes error = go g.turn
    where
      quiet_goes : s.monitor.timer ≡ [] → Goes (on_fire error s.monitor.timer s)
      quiet_goes quiet = subst (λ ws. Goes (on_fire error ws s)) (sym quiet) (s, refl, g)

      go : Turn s.monitor → Goes (on_fire error s.monitor.timer s)
      go (rests w one left marked) =
          subst (λ ws. Goes (on_fire error ws s)) (sym one) (rested-Goes error w left marked)
      go (checks_go quiet more) = quiet_goes quiet
      go (ended quiet over) = quiet_goes quiet

  -- What a handler call of the check in the place `k` leaves.
  abbrev after_call : ℕ → HealthCheck → Watched → UpstreamHealthMonitor → Monitoring
  after_call k c' w' m = record { monitor = m; checks = set s.checks k c'; watched = w' }

  advanced-IsGoing :
      (k : ℕ) (c c' : HealthCheck) (w' : Watched) (actions : List CheckAction)
      → get_elem? s.checks k ≡ some c
      → size w'.upstream_pool ≡ size s.watched.upstream_pool
      → CheckIsSound (size s.watched.upstream_pool) c'
      → Turns c c' actions
      → IsGoing (after_call k c' w' (reports (finishes actions) s.monitor))
  advanced-IsGoing k c c' w' actions there same sound turns =
      let counts = open_count-set s.checks k c c' there in
      let all_sound =
        subst (λ n. All (CheckIsSound n) (set s.checks k c')) (sym same)
          (All-set (CheckIsSound (size s.watched.upstream_pool)) s.checks k c' g.sound sound) in
      let after : (n : ℕ)
          → finishes actions ≡ n
          → after_call k c' w' (reports (finishes actions) s.monitor)
            ≡ after_call k c' w' (reports n s.monitor) =
        λ n h. ap (λ x. after_call k c' w' (reports x s.monitor)) h in
      elim turns [
        | inl (kept, quiet) ↦ subst IsGoing (sym (after 0 quiet)) (record {
          populated = omega (arith, same, g.populated);
          sound = all_sound;
          counted = omega (arith, counts, flag c'.completed c.completed kept, g.counted);
          turn = g.turn;
        })
        | inr (was_open, over, once) ↦
            let more : 0 < s.monitor.checks_remaining = omega (
              arith,
              counts,
              flag c.completed false was_open,
              flag c'.completed true over,
              g.counted,
            ) in
            let (turn, left) =
              on_check_complete-Counts s.monitor (checks-Turn s.monitor g.turn more) more in
            subst IsGoing (sym (after 1 once)) (record {
              populated = omega (arith, same, g.populated);
              sound = all_sound;
              counted = omega (
                arith,
                counts,
                flag c.completed false was_open,
                flag c'.completed true over,
                g.counted,
                left,
              );
              turn = turn;
            })
      ]

  check-Goes :
      (k : ℕ) (event : CheckEvent) (c : HealthCheck)
      → get_elem? s.checks k ≡ some c
      → Goes (on_check k event (some c) s)
  unfolding on_check
  check-Goes k event c there =
      let n = size s.watched.upstream_pool in
      let (bound, alive) = All-get_elem? (CheckIsSound n) s.checks k c g.sound there in
      let (c', w', actions, done, place, same, alive', turns) =
        step-Advances event c s.watched bound alive in
      rw (done, report-reports actions s.monitor)
        (
          _,
          refl,
          advanced-IsGoing k c c' w' actions there same (omega (arith, place, bound), alive') turns,
        )

  checks_event-Goes : (k : ℕ) (event : CheckEvent) → Goes (react (checks_event k event) s)
  unfolding react on_check
  checks_event-Goes k event = elim (Option-cases (get_elem? s.checks k)) [
    | inl missing ↦ rw missing (s, refl, g)
    | inr (c, there) ↦ rw there (check-Goes k event c there)
  ]

  selects-Goes : Goes (react selects s)
  unfolding react
  selects-Goes =
      let (r, runs, result) = select-Selects s.watched.upstream_pool in
      let same = Selects-size s.watched.upstream_pool r result in
      rw runs (_, refl, seen-IsGoing s (record s.watched { upstream_pool = r.0 }) same g)

  pub react-Goes : (event : MonitorEvent) → Goes (react event s)
  unfolding react stop
  react-Goes (fires error) = fires-Goes error
  react-Goes (checks_event k event) = checks_event-Goes k event
  react-Goes selects = selects-Goes
  react-Goes stops = (
    _,
    refl,
    record {
      populated = g.populated;
      sound = g.sound;
      counted = g.counted;
      turn = stop-Turn s.monitor g.turn;
    },
  )
