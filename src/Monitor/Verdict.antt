-- ===== src/Monitor/Verdict.antt =====
-- What one check comes to, whatever the order in which its handlers are called.
use eventedge.Base.{
  ℕ, suc, ◌+◌, ◌≡◌, ◌≢◌, refl, Bool, true, false, not, List, [], ◌∷◌, ◌++◌, Option, none, some, ok,
  arith,
}
use eventedge.Monitor.Check.{
  Watched, Attempt, resolving, connecting, CheckAction, wait, resolve, connect, cancel_timer,
  cancel_resolver, close_socket, finished, HealthCheck, CheckEvent, waited, resolved, connected,
  mark, complete, on_timer, on_resolve, on_connect, dispatch, step, steps,
}

-- How often the completion handler is called.
unfoldable pub finishes : List CheckAction → ℕ
finishes [] = 0
finishes (finished ∷ actions) = suc (finishes actions)
finishes (wait t ∷ actions) = finishes actions
finishes (resolve h p ∷ actions) = finishes actions
finishes (connect ∷ actions) = finishes actions
finishes (cancel_timer ∷ actions) = finishes actions
finishes (cancel_resolver ∷ actions) = finishes actions
finishes (close_socket ∷ actions) = finishes actions

pub finishes-append : (xs ys : List CheckAction) → finishes (xs ++ ys) ≡ finishes xs + finishes ys
unfolding finishes
finishes-append [] ys = omega arith
finishes-append (finished ∷ xs) ys = omega (arith, finishes-append xs ys)
finishes-append (_ ∷ xs) ys = finishes-append xs ys

-- The verdict of the handlers called, where a timer may be waiting and an attempt is under way: the
-- upstream is down if the timer runs out or an attempt fails, and up when it has been resolved and
-- connected to before that.
unfoldable pub verdict : List CheckEvent → Bool → Attempt → Option Bool
verdict [] waiting a = none
verdict (waited false ∷ events) true a = some false
verdict (waited true ∷ events) true a = verdict events false a
verdict (waited error ∷ events) false a = verdict events false a
verdict (resolved true ∷ events) waiting resolving = some false
verdict (resolved false ∷ events) waiting resolving = verdict events waiting connecting
verdict (resolved error ∷ events) waiting connecting = verdict events waiting connecting
verdict (connected error ∷ events) waiting resolving = verdict events waiting resolving
verdict (connected error ∷ events) waiting connecting = some (not error)

-- A check under way, and one that is over.
abbrev pub live : ℕ → ℕ → Bool → Attempt → HealthCheck
live i t waiting a = record {
  index = i;
  timeout = t;
  completed = false;
  waiting = waiting;
  attempt = some a;
}

abbrev pub over : ℕ → ℕ → Bool → Option Attempt → HealthCheck
over i t waiting attempt = record {
  index = i;
  timeout = t;
  completed = true;
  waiting = waiting;
  attempt = attempt;
}

-- A check that is over changes nothing any more.
abbrev pub Rests : ℕ → ℕ → Bool → Option Attempt → List CheckEvent → Watched → Type 0
Rests i t waiting attempt events w =
    (waiting' : Bool) × (attempt' : Option Attempt) × (actions : List CheckAction) × (steps events
        (over i t waiting attempt) w
      ≡ ok (over i t waiting' attempt', w, actions))
    × (finishes actions ≡ 0)

-- One more event in front.
Rests-cons :
    (i t : ℕ) (waiting waiting' : Bool) (attempt attempt' : Option Attempt) (event : CheckEvent)
    (events : List CheckEvent) (w : Watched) (now : List CheckAction)
    → step event (over i t waiting attempt) w ≡ ok (over i t waiting' attempt', w, now)
    → finishes now ≡ 0
    → Rests i t waiting' attempt' events w
    → Rests i t waiting attempt (event ∷ events) w
unfolding steps
Rests-cons i t waiting waiting' attempt attempt' event events w now done quiet
      (x, y, more, later, none_more) =
    (x, y, now ++ more, rw (done, later), omega (arith, finishes-append now more, quiet, none_more))

pub over-Rests :
    (events : List CheckEvent) (i t : ℕ) (waiting : Bool) (attempt : Option Attempt) (w : Watched)
    → Rests i t waiting attempt events w
unfolding steps step dispatch on_timer on_resolve on_connect complete finishes
over-Rests [] i t waiting attempt w = (waiting, attempt, [], refl, refl)
over-Rests (waited true ∷ events) i t true attempt w =
    Rests-cons i t true false attempt attempt (waited true) events w _ refl refl
      (over-Rests events i t false attempt w)
over-Rests (waited false ∷ events) i t true attempt w =
    Rests-cons i t true false attempt attempt (waited false) events w _ refl refl
      (over-Rests events i t false attempt w)
over-Rests (resolved e ∷ events) i t waiting (some resolving) w =
    Rests-cons i t waiting waiting (some resolving) none (resolved e) events w [] (ground arith)
      refl (over-Rests events i t waiting none w)
over-Rests (connected e ∷ events) i t waiting (some connecting) w =
    Rests-cons i t waiting waiting (some connecting) none (connected e) events w [] (ground arith)
      refl (over-Rests events i t waiting none w)
over-Rests (event ∷ events) i t waiting attempt w =
    Rests-cons i t waiting waiting attempt attempt event events w [] (ground arith) refl
      (over-Rests events i t waiting attempt w)

-- What a verdict, or none yet, says of the check, of what it shares and of the completion handler.
abbrev pub Settles : Option Bool → ℕ → HealthCheck → Watched → Watched → List CheckAction → Type 0
Settles none i c w w' actions =
    (c.completed ≡ false) × (c.attempt ≢ none) × (w' ≡ w) × (finishes actions ≡ 0)
Settles (some healthy) i c w w' actions =
    (c.completed ≡ true) × (mark i healthy w ≡ ok w') × (finishes actions ≡ 1)

abbrev pub Settled : Option Bool → List CheckEvent → ℕ → HealthCheck → Watched → Type 0
Settled v events i c w =
    (c' : HealthCheck) × (w' : Watched) × (actions : List CheckAction) × (steps events c w
      ≡ ok (c', w', actions))
    × (c'.index ≡ i)
    × Settles v i c' w w' actions

-- An event that starts something, or does nothing, in front.
goes_on :
    (v : Option Bool) (event : CheckEvent) (events : List CheckEvent) (i : ℕ) (c c' : HealthCheck)
    (w : Watched) (now : List CheckAction)
    → step event c w ≡ ok (c', w, now)
    → finishes now ≡ 0
    → Settled v events i c' w
    → Settled v (event ∷ events) i c w
unfolding steps
goes_on none event events i c c' w now done quiet
      (d, w', more, later, place, (pending, busy, same, none_more)) =
    (
      d,
      w',
      now ++ more,
      rw (done, later),
      place,
      (pending, busy, same, omega (arith, finishes-append now more, quiet, none_more)),
    )
goes_on (some h) event events i c c' w now done quiet
      (d, w', more, later, place, (over', marked, once)) =
    (
      d,
      w',
      now ++ more,
      rw (done, later),
      place,
      (over', marked, omega (arith, finishes-append now more, quiet, once)),
    )

-- An event that decides, in front: what follows is at rest.
decides :
    (healthy : Bool) (event : CheckEvent) (events : List CheckEvent) (i t : ℕ) (waiting : Bool)
    (attempt : Option Attempt) (c : HealthCheck) (w w' : Watched) (now : List CheckAction)
    → step event c w ≡ ok (over i t waiting attempt, w', now)
    → finishes now ≡ 1
    → mark i healthy w ≡ ok w'
    → Settled (some healthy) (event ∷ events) i c w
unfolding steps
decides healthy event events i t waiting attempt c w w' now done once marked =
    let (x, y, more, later, none_more) = over-Rests events i t waiting attempt w' in
    (
      over i t x y,
      w',
      now ++ more,
      rw (done, later),
      refl,
      (refl, marked, omega (arith, finishes-append now more, once, none_more)),
    )

module _ (i t : ℕ) (w wd wu : Watched) (down : mark i false w ≡ ok wd)
    (up : mark i true w ≡ ok wu) where
  connected_step :
      (error waiting : Bool)
      → (w' : Watched) × (step (connected error) (live i t waiting connecting) w
          ≡ ok (over i t waiting none, w', cancel_timer ∷ close_socket ∷ finished ∷ []))
        × (mark i (not error) w ≡ ok w')
  unfolding step dispatch on_connect complete
  connected_step true true = (wd, rw down, down)
  connected_step true false = (wd, rw down, down)
  connected_step false true = (wu, rw up, up)
  connected_step false false = (wu, rw up, up)

  pub live-Settled :
      (events : List CheckEvent) (waiting : Bool) (a : Attempt)
      → Settled (verdict events waiting a) events i (live i t waiting a) w
  unfolding steps step dispatch on_timer on_resolve complete finishes verdict
  live-Settled [] waiting a = (live i t waiting a, w, [], refl, refl, (refl, (λ e. cc), refl, refl))
  live-Settled (waited false ∷ events) true a =
      decides false (waited false) events i t false (some a) (live i t true a) w wd
        (cancel_resolver ∷ close_socket ∷ cancel_timer ∷ close_socket ∷ finished ∷ []) (rw down)
        refl down
  live-Settled (waited true ∷ events) true a =
      goes_on (verdict events false a) (waited true) events i (live i t true a) (live i t false a) w
        [] refl refl (live-Settled events false a)
  live-Settled (resolved true ∷ events) waiting resolving =
      decides false (resolved true) events i t waiting none (live i t waiting resolving) w wd
        (cancel_timer ∷ close_socket ∷ finished ∷ []) (ground (arith, down)) refl down
  live-Settled (resolved false ∷ events) waiting resolving =
      goes_on (verdict events waiting connecting) (resolved false) events i
        (live i t waiting resolving) (live i t waiting connecting) w (connect ∷ []) (ground arith)
        refl (live-Settled events waiting connecting)
  live-Settled (connected error ∷ events) waiting connecting =
      let (w', done, marked) = connected_step error waiting in
      decides (not error) (connected error) events i t waiting none (live i t waiting connecting) w
        w' (cancel_timer ∷ close_socket ∷ finished ∷ []) done refl marked
  live-Settled (event ∷ events) waiting a =
      goes_on (verdict events waiting a) event events i (live i t waiting a) (live i t waiting a) w
        [] (ground arith) refl (live-Settled events waiting a)
