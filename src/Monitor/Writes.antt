-- ===== src/Monitor/Writes.antt =====
-- What a monitor writes to the objects that it shares: one mark at a time, or nothing.
use mathlib.Core.Path.{subst}
use eventedge.Base.{
  ℕ, ◌<◌, ◌≡◌, ◌⊎◌, inl, inr, Bool, true, false, not, List, [], ◌∷◌, Option, none, some, ok,
  get_elem?, All-get_elem?, Option-cases, ok_of_bind, if-branch,
}
use eventedge.Upstream.{size}
use eventedge.Monitor.Check.{
  Watched, Attempt, resolving, connecting, CheckAction, HealthCheck, CheckEvent, waited, resolved,
  connected, mark, complete, on_timer, on_resolve, on_connect, dispatch, step,
}
use eventedge.Monitor.Rounds.{
  Wait, Monitoring, fires, checks_event, run_checks, run_from, on_fire, on_check, react,
}
use eventedge.Monitor.Going.{CheckIsSound, IsGoing}

-- Nothing, or one mark of the backend `i`.
abbrev pub Writes : ℕ → Watched → Watched → Type 0
Writes i w w' = (w' ≡ w) ⊎ ((healthy : Bool) × (mark i healthy w ≡ ok w'))

complete-Writes :
    (healthy : Bool) (c c' : HealthCheck) (w w' : Watched) (actions : List CheckAction)
    → complete healthy c w ≡ ok (c', w', actions)
    → Writes c.index w w'
unfolding complete
complete-Writes healthy c c' w w' actions h = elim (if-branch c.completed _ _ _ h) [
  | inl ended ↦ inl (cc)
  | inr going ↦
      let (v, marked, done) = ok_of_bind (mark c.index healthy w) _ (c', w', actions) going in
      let same : v ≡ w' = cc in inr (healthy, cc)
]

resolve-Writes :
    (error : Bool) (c c' : HealthCheck) (w w' : Watched) (actions : List CheckAction)
    → on_resolve error c w ≡ ok (c', w', actions)
    → Writes c.index w w'
unfolding on_resolve
resolve-Writes error c c' w w' actions h = elim (if-branch c.completed _ _ _ h) [
  | inl ended ↦ inl (cc)
  | inr going ↦ elim (if-branch error _ _ _ going) [
    | inl failed ↦ complete-Writes false c c' w w' actions failed
    | inr next ↦ inl (cc)
  ]
]

timer-Writes :
    (error : Bool) (c c' : HealthCheck) (w w' : Watched) (actions : List CheckAction)
    → on_timer error c w ≡ ok (c', w', actions)
    → Writes c.index w w'
unfolding on_timer
timer-Writes true c c' w w' actions h = inl (cc)
timer-Writes false c c' w w' actions h =
    let ((d, v, more), completed, done) = ok_of_bind (complete false c w) _ (c', w', actions) h in
    let same : v ≡ w' = cc in
    subst (Writes c.index w) same (complete-Writes false c d w v more completed)

dispatch-Writes :
    (waiting : Bool) (attempt : Option Attempt) (event : CheckEvent) (c c' : HealthCheck)
    (w w' : Watched) (actions : List CheckAction)
    → dispatch waiting attempt event c w ≡ ok (c', w', actions)
    → Writes c.index w w'
unfolding dispatch on_connect
dispatch-Writes true attempt (waited error) c c' w w' actions h =
    timer-Writes error (record c { waiting = false }) c' w w' actions h
dispatch-Writes true (some resolving) (resolved error) c c' w w' actions h =
    resolve-Writes error (record c { attempt = none }) c' w w' actions h
dispatch-Writes false (some resolving) (resolved error) c c' w w' actions h =
    resolve-Writes error (record c { attempt = none }) c' w w' actions h
dispatch-Writes true (some connecting) (connected error) c c' w w' actions h =
    complete-Writes (not error) (record c { attempt = none }) c' w w' actions h
dispatch-Writes false (some connecting) (connected error) c c' w w' actions h =
    complete-Writes (not error) (record c { attempt = none }) c' w w' actions h
dispatch-Writes waiting attempt event c c' w w' actions h = inl (cc)

step-Writes :
    (event : CheckEvent) (c c' : HealthCheck) (w w' : Watched) (actions : List CheckAction)
    → step event c w ≡ ok (c', w', actions)
    → Writes c.index w w'
unfolding step
step-Writes event c c' w w' actions h =
    dispatch-Writes c.waiting c.attempt event c c' w w' actions h

run_checks-same : (s s' : Monitoring) → run_checks s ≡ ok s' → s'.watched ≡ s.watched
unfolding run_checks
run_checks-same s s' h = elim (if-branch s.monitor.stopped _ _ _ h) [
  | inl over ↦ cc
  | inr on ↦
      let (started, _, done) =
        ok_of_bind (run_from (size s.watched.upstream_pool) 0 s.monitor.options.timeout s.watched) _
          s' on in
      cc
]

fire-same :
    (error : Bool) (waits : List Wait) (s s' : Monitoring)
    → on_fire error waits s ≡ ok s'
    → s'.watched ≡ s.watched
unfolding on_fire
fire-same error [] s s' h = cc
fire-same true (w ∷ ws) s s' h = elim (if-branch w.cancelled _ _ _ h) [
  | inl gone ↦ cc
  | inr kept ↦ cc
]
fire-same false (w ∷ ws) s s' h =
    run_checks-same (record s { monitor = record s.monitor { timer = ws } }) s' h

-- A turn of the timer or of a check writes at most the mark of one backend of the pool.
abbrev pub WritesOne : Watched → Watched → Type 0
WritesOne w w' =
    (w' ≡ w)
    ⊎ ((i : ℕ) × (healthy : Bool) × (i < size w.upstream_pool) × (mark i healthy w ≡ ok w'))

pub fires-same :
    (error : Bool) (s s' : Monitoring) → react (fires error) s ≡ ok s' → s'.watched ≡ s.watched
unfolding react
fires-same error s s' h = fire-same error s.monitor.timer s s' h

pub checks_event-WritesOne :
    (k : ℕ) (event : CheckEvent) (s s' : Monitoring)
    → IsGoing s
    → react (checks_event k event) s ≡ ok s'
    → WritesOne s.watched s'.watched
unfolding react on_check
checks_event-WritesOne k event s s' g h = elim (Option-cases (get_elem? s.checks k)) [
  | inl missing ↦ let idle : on_check k event none s ≡ ok s' = rw missing at h in inl (cc)
  | inr (c, there) ↦
      let called : on_check k event (some c) s ≡ ok s' = rw there at h in
      let ((c', w', actions), stepped, done) = ok_of_bind (step event c s.watched) _ s' called in
      let (bound, alive) =
        All-get_elem? (CheckIsSound (size s.watched.upstream_pool)) s.checks k c g.sound there in
      let same : w' ≡ s'.watched = cc in
      subst (WritesOne s.watched) same (elim (step-Writes event c c' s.watched w' actions stepped) [
        | inl kept ↦ inl kept
        | inr (healthy, marked) ↦ inr (c.index, healthy, bound, marked)
      ])
]
