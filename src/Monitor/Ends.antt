-- ===== src/Monitor/Ends.antt =====
-- A check comes to an end: its handlers are few, and each of them may be called.
use mathlib.Core.Path.{subst}
use eventedge.Base.{
  ℕ, suc, ◌+◌, ◌≤◌, ◌<◌, ◌≡◌, refl, ap, ◌⊎◌, inl, inr, Bool, true, false, not, List, Option, none,
  some, ok, if◌then◌else◌, ok_of_bind, if-branch, arith,
}
use eventedge.Upstream.{size}
use eventedge.Monitor.Check.{
  Watched, Attempt, resolving, connecting, CheckAction, HealthCheck, CheckEvent, waited, resolved,
  connected, create, run, mark, complete, on_timer, on_resolve, on_connect, dispatch, step,
}
use eventedge.Monitor.Verdict.{live}
use eventedge.Monitor.Conclusion.{run-live}
use eventedge.Monitor.Advance.{IsAlive, step-Advances}

-- The I/O library still has the handler that the event calls.
abbrev pub is_held : Bool → Option Attempt → CheckEvent → Bool
is_held waiting attempt (waited error) = waiting
is_held waiting (some resolving) (resolved error) = true
is_held waiting (some connecting) (connected error) = true
is_held waiting attempt event = false

-- A number of handlers called, one after the other, each of them one that the library has.
pub data Calls (c : HealthCheck) (w : Watched) : ℕ → HealthCheck → Watched → Type 0 where
  none_yet : Calls c w 0 c w
  and_then :
      {n : ℕ} {d d' : HealthCheck} {v v' : Watched} {actions : List CheckAction}
      (event : CheckEvent)
      → Calls c w n d v
      → is_held d.waiting d.attempt event ≡ true
      → step event d v ≡ ok (d', v', actions)
      → Calls c w (suc n) d' v'

-- How many handlers may still be called: an attempt that resolves is followed by one that connects.
abbrev left_of : Option Attempt → ℕ
left_of none = 0
left_of (some resolving) = 2
left_of (some connecting) = 1

abbrev bit : Bool → ℕ
bit b = if b then 1 else 0

abbrev pub handlers_left : HealthCheck → ℕ
handlers_left c = bit c.waiting + left_of c.attempt

-- `complete` leaves the handlers as they are.
complete-left :
    (healthy : Bool) (c c' : HealthCheck) (w w' : Watched) (actions : List CheckAction)
    → complete healthy c w ≡ ok (c', w', actions)
    → (c'.waiting ≡ c.waiting) × (c'.attempt ≡ c.attempt)
unfolding complete
complete-left healthy c c' w w' actions h = elim (if-branch c.completed _ _ _ h) [
  | inl ended ↦ (cc, cc)
  | inr going ↦
      let (v, _, done) = ok_of_bind (mark c.index healthy w) _ (c', w', actions) going in (cc, cc)
]

resolved-left :
    (error : Bool) (c c' : HealthCheck) (w w' : Watched) (actions : List CheckAction)
    → c.attempt ≡ some resolving
    → on_resolve error (record c { attempt = none }) w ≡ ok (c', w', actions)
    → handlers_left c' < handlers_left c
unfolding on_resolve
resolved-left error c c' w w' actions a h = elim (if-branch c.completed _ _ _ h) [
  | inl ended ↦
      let x : c'.waiting ≡ c.waiting = cc in
      let y : c'.attempt ≡ none = cc in omega (arith, ap bit x, ap left_of y, ap left_of a)
  | inr going ↦ elim (if-branch error _ _ _ going) [
    | inl failed ↦
        let (x, y) = complete-left false (record c { attempt = none }) c' w w' actions failed in
        omega (arith, ap bit x, ap left_of y, ap left_of a)
    | inr next ↦
        let x : c'.waiting ≡ c.waiting = cc in
        let y : c'.attempt ≡ some connecting = cc in
        omega (arith, ap bit x, ap left_of y, ap left_of a)
  ]
]

connected-left :
    (error : Bool) (c c' : HealthCheck) (w w' : Watched) (actions : List CheckAction)
    → c.attempt ≡ some connecting
    → on_connect error (record c { attempt = none }) w ≡ ok (c', w', actions)
    → handlers_left c' < handlers_left c
unfolding on_connect
connected-left error c c' w w' actions a h =
    let (x, y) = complete-left (not error) (record c { attempt = none }) c' w w' actions h in
    omega (arith, ap bit x, ap left_of y, ap left_of a)

dispatch-left :
    (event : CheckEvent) (waiting : Bool) (attempt : Option Attempt) (c c' : HealthCheck)
    (w w' : Watched) (actions : List CheckAction)
    → c.waiting ≡ waiting
    → c.attempt ≡ attempt
    → is_held waiting attempt event ≡ true
    → dispatch waiting attempt event c w ≡ ok (c', w', actions)
    → handlers_left c' < handlers_left c
unfolding dispatch on_timer on_resolve on_connect
dispatch-left (waited true) true attempt c c' w w' actions t a held h =
    let x : c'.waiting ≡ false = cc in
    let y : c'.attempt ≡ c.attempt = cc in omega (arith, ap bit x, ap left_of y, ap bit t)
dispatch-left (waited false) true attempt c c' w w' actions t a held h =
    let ((d, v, more), completed, done) =
      ok_of_bind (complete false (record c { waiting = false }) w) _ (c', w', actions) h in
    let (x, y) = complete-left false (record c { waiting = false }) d w v more completed in
    let x' : c'.waiting ≡ false = cc in
    let y' : c'.attempt ≡ c.attempt = cc in omega (arith, ap bit x', ap left_of y', ap bit t)
dispatch-left (waited error) false attempt c c' w w' actions t a held h = cc
dispatch-left (resolved error) true (some resolving) c c' w w' actions t a held h =
    resolved-left error c c' w w' actions a h
dispatch-left (resolved error) false (some resolving) c c' w w' actions t a held h =
    resolved-left error c c' w w' actions a h
dispatch-left (connected error) true (some connecting) c c' w w' actions t a held h =
    connected-left error c c' w w' actions a h
dispatch-left (connected error) false (some connecting) c c' w w' actions t a held h =
    connected-left error c c' w w' actions a h
dispatch-left (resolved error) waiting (some connecting) c c' w w' actions t a held h = cc
dispatch-left (resolved error) waiting none c c' w w' actions t a held h = cc
dispatch-left (connected error) waiting (some resolving) c c' w w' actions t a held h = cc
dispatch-left (connected error) waiting none c c' w w' actions t a held h = cc

-- A call of a handler that the library has leaves fewer to call.
step-left :
    (event : CheckEvent) (c c' : HealthCheck) (w w' : Watched) (actions : List CheckAction)
    → is_held c.waiting c.attempt event ≡ true
    → step event c w ≡ ok (c', w', actions)
    → handlers_left c' < handlers_left c
unfolding step
step-left event c c' w w' actions held h =
    dispatch-left event c.waiting c.attempt c c' w w' actions refl refl held h

-- The call of a handler that the library has.
Calls-left :
    {c : HealthCheck} {w : Watched} {n : ℕ} {c' : HealthCheck} {w' : Watched}
    → Calls c w n c' w'
    → n + handlers_left c' ≤ handlers_left c
Calls-left none_yet = omega arith
Calls-left {n = suc n} {c' = c'} {w' = w'}
      (and_then {d = d} {v = v} {actions = actions} event calls held stepped) =
    omega (arith, Calls-left calls, step-left event d c' v w' actions held stepped)

Calls-IsAlive :
    {c : HealthCheck} {w : Watched} {n : ℕ} {c' : HealthCheck} {w' : Watched}
    → c.index < size w.upstream_pool
    → IsAlive c
    → Calls c w n c' w'
    → (c'.index < size w'.upstream_pool) × IsAlive c'
Calls-IsAlive inside alive none_yet = (inside, alive)
Calls-IsAlive inside alive (and_then {d = d} {d' = d'} {v = v} {v' = v'} event calls held stepped) =
    let (inside', alive') = Calls-IsAlive inside alive calls in
    let (e, u, more, done, place, same_size, alive'', _) = step-Advances event d v inside' alive' in
    let same : e ≡ d' = cc in
    let same_w : u ≡ v' = cc in
    (
      omega (
        arith,
        place,
        ap (λ x. x.index) same,
        ap (λ x. size x.upstream_pool) same_w,
        same_size,
        inside',
      ),
      subst IsAlive same alive'',
    )

-- A check that is alive and not over has a handler to come.
held-or-over :
    (c : HealthCheck)
    → IsAlive c
    → ((event : CheckEvent) × (is_held c.waiting c.attempt event ≡ true)) ⊎ (c.completed ≡ true)
held-or-over c (inl ended) = inr ended
held-or-over c (inr (pending, resolving, there)) = inl (resolved true, rw there refl)
held-or-over c (inr (pending, connecting, there)) = inl (connected true, rw there refl)

-- A check of a backend of the pool can be run. However the handlers that the library has for it are
-- then called, one after the other, they are three at most; any handler may be called at any time,
-- and returns; and as long as the check is not over, there is one that the library has.
pub run-Ends :
    (i t : ℕ) (w : Watched)
    → i < size w.upstream_pool
    → (c : HealthCheck) × (started : List CheckAction) × (run (create i t) w ≡ ok (c, w, started))
      × ((n : ℕ) (c' : HealthCheck) (w' : Watched)
          → Calls c w n c' w'
          → (n ≤ 3)
            × ((event : CheckEvent)
                → (r : HealthCheck × Watched × List CheckAction) × (step event c' w' ≡ ok r))
            × (((event : CheckEvent) × (is_held c'.waiting c'.attempt event ≡ true))
                ⊎ (c'.completed ≡ true)))
run-Ends i t w h =
    let (e, _, runs) = run-live i t w h in
    (
      live i t true resolving,
      _,
      runs,
      (λ n c' w' calls.
          let (inside, alive) = Calls-IsAlive h (inr (refl, resolving, refl)) calls in
          (
            omega (arith, Calls-left calls),
            (λ event.
                let (d, v, actions, done, _, _, _, _) = step-Advances event c' w' inside alive in
                ((d, v, actions), done)),
            held-or-over c' alive,
          )),
    )
