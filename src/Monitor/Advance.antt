-- ===== src/Monitor/Advance.antt =====
-- One handler call of a check that the monitor has started.
use eventedge.Base.{
  ℕ, ◌<◌, ◌≡◌, ◌≢◌, refl, sym, ap, ◌∙◌, ◌⊎◌, inl, inr, Bool, true, false, List, [], ◌∷◌, ◌++◌,
  Option, none, some, ok, throw, undefined, ◌>>=◌, Option-cases, arith,
}
use mathlib.Core.Path.{subst}
use eventedge.Upstream.{size}
use eventedge.Monitor.Check.{
  Watched, Attempt, CheckAction, HealthCheck, CheckEvent, CheckStep, step, steps,
}
use eventedge.Monitor.Verdict.{
  finishes, finishes-append, verdict, live, over, over-Rests, live-Settled,
}
use eventedge.Monitor.Marks.{mark-Marked}
use eventedge.Monitor.Conclusion.{Concludes, Settled-Concludes}

-- A check is over, or an attempt is under way.
abbrev pub IsAlive : HealthCheck → Type 0
IsAlive c = (c.completed ≡ true) ⊎ ((c.completed ≡ false) × (a : Attempt) × (c.attempt ≡ some a))

-- What one call does: the check stays as it was, over or not, with no report; or it ends, with one.
abbrev pub Turns : HealthCheck → HealthCheck → List CheckAction → Type 0
Turns c c' actions =
    ((c'.completed ≡ c.completed) × (finishes actions ≡ 0))
    ⊎ ((c.completed ≡ false) × (c'.completed ≡ true) × (finishes actions ≡ 1))

abbrev pub Advances : CheckEvent → HealthCheck → Watched → Type 0
Advances event c w =
    (c' : HealthCheck) × (w' : Watched) × (actions : List CheckAction) × (step event c w
      ≡ ok (c', w', actions))
    × (c'.index ≡ c.index)
    × (size w'.upstream_pool ≡ size w.upstream_pool)
    × IsAlive c'
    × Turns c c' actions

-- A run of one event is a step.
one_step :
    (o : CheckStep) (c : HealthCheck) (w : Watched) (actions : List CheckAction)
    → ◌>>=◌ {B = HealthCheck × Watched × List CheckAction} o (λ r. ok (r.0, r.1, r.2 ++ []))
      ≡ ok (c, w, actions)
    → (now : List CheckAction) × (o ≡ ok (c, w, now)) × (finishes actions ≡ finishes now)
unfolding finishes
one_step (ok (c', w', now)) c w actions h =
    let same : actions ≡ now ++ [] = cc in
    (now, cc, ap finishes same ∙ finishes-append now [] ∙ omega arith)
one_step (throw e) c w actions h = cc
one_step undefined c w actions h = cc

over-Advances :
    (event : CheckEvent) (i t : ℕ) (waiting : Bool) (attempt : Option Attempt) (w : Watched)
    → Advances event (over i t waiting attempt) w
unfolding steps
over-Advances event i t waiting attempt w =
    let (x, y, actions, done, quiet) = over-Rests (event ∷ []) i t waiting attempt w in
    let (now, stepped, same) =
      one_step (step event (over i t waiting attempt) w) (over i t x y) w actions done in
    (over i t x y, w, now, stepped, refl, refl, inl refl, inl (refl, omega (arith, same, quiet)))

IsAlive-attempt : (c : HealthCheck) → c.completed ≡ false → c.attempt ≢ none → IsAlive c
IsAlive-attempt c pending busy = elim (Option-cases c.attempt) [
  | inl idle ↦ absurd (busy idle)
  | inr (a, there) ↦ inr (pending, a, there)
]

Concludes-Advances :
    (v : Option Bool) (event : CheckEvent) (i t : ℕ) (waiting : Bool) (a : Attempt)
    (c : HealthCheck) (w w' : Watched) (actions now : List CheckAction)
    → step event (live i t waiting a) w ≡ ok (c, w', now)
    → finishes actions ≡ finishes now
    → c.index ≡ i
    → Concludes v i c w w' actions
    → Advances event (live i t waiting a) w
Concludes-Advances none event i t waiting a c w w' actions now done same place
      (pending, busy, kept, quiet) =
    (
      c,
      w',
      now,
      done,
      place,
      ap (λ x. size x.upstream_pool) kept,
      IsAlive-attempt c pending busy,
      inl (pending, omega (arith, same, quiet)),
    )
Concludes-Advances (some healthy) event i t waiting a c w w' actions now done same place
      (ended, marked, once) =
    (
      c,
      w',
      now,
      done,
      place,
      marked.same_size,
      inl ended,
      inr (refl, ended, omega (arith, same, once)),
    )

live-Advances :
    (event : CheckEvent) (i t : ℕ) (waiting : Bool) (a : Attempt) (w : Watched)
    → i < size w.upstream_pool
    → Advances event (live i t waiting a) w
unfolding steps
live-Advances event i t waiting a w h =
    let (wd, down, md) = mark-Marked i false w h in
    let (wu, up, mu) = mark-Marked i true w h in
    let v = verdict (event ∷ []) waiting a in
    let (c', w', actions, done, place, settled) =
      Settled-Concludes v (event ∷ []) i (live i t waiting a) w wd wu down up md mu
        (live-Settled i t w wd wu down up (event ∷ []) waiting a) in
    let (now, stepped, same) = one_step (step event (live i t waiting a) w) c' w' actions done in
    Concludes-Advances v event i t waiting a c' w w' actions now stepped same place settled

-- One handler call of a check that is alive, of a backend of the pool, has defined behaviour.
pub step-Advances :
    (event : CheckEvent) (c : HealthCheck) (w : Watched)
    → c.index < size w.upstream_pool
    → IsAlive c
    → Advances event c w
step-Advances event c w h (inl ended) =
    subst (λ x. Advances event x w) (λ i. record c { completed = sym ended i })
      (over-Advances event c.index c.timeout c.waiting c.attempt w)
step-Advances event c w h (inr (pending, a, there)) =
    subst (λ x. Advances event x w)
      (λ i. record c { completed = sym pending i; attempt = sym there i })
      (live-Advances event c.index c.timeout c.waiting a w h)
