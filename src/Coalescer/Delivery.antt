-- ===== src/Coalescer/Delivery.antt =====
-- Over any history, a flight has one leader and each waiter is called once, in order.
use eventedge.Base.{
  ◌+◌, ◌≡◌, ◌≢◌, refl, inl, inr, List, [], ◌∷◌, ◌++◌, map, none, some, Text, Text-discrete, lookup,
  arith, Option-cases, lookup-erase_self,
}
use eventedge.Coalescer.Flights.{
  leader, RequestCoalescer, create, flight, join_or_start, complete, IsValid, pending, under_way,
}
use eventedge.Coalescer.History.{
  Call, joins, completes, Event, step, run, waited, called, leads, ends,
}
use eventedge.Coalescer.Steps.{
  called-append, ends-append, ends-deliveries, called-deliveries, step-lead, step-wait, step-idle,
  step-end, complete-end,
}
use eventedge.Coalescer.Balance.{run-Balances}

join-leader :
    {W : Type 0} (w : W) (c : RequestCoalescer W) (k : Text)
    → flight k c ≡ none
    → (join_or_start k w c).1 ≡ leader
unfolding join_or_start
join-leader w c k out = rw (out, join_or_start)

module _ {W R : Type 0} where
  -- From the start, and for every key: the waiters called, and those still in the flight, are those
  -- that were told to wait, each once and in their order; and as many callers led a flight of the
  -- key as flights of it have ended, with one more while one is under way.
  pub run-called :
      (k : Text) (cs : List (Call W R))
      → let (d, es) = run create cs in
        (waited k es ≡ called k es ++ pending k d) × (leads k es ≡ ends k es + under_way k d)
  unfolding lookup
  run-called k cs =
      let (b, v) = run-Balances k create cs (record { distinct = tt }) in
      (b.queue, omega (arith, b.flow))

  -- No call of the list ends a flight of the key.
  abbrev pub IsOpen : Text → List (Call W R) → Type 0
  IsOpen k [] = Unit
  IsOpen k (joins key w ∷ cs) = IsOpen k cs
  IsOpen k (completes key r ∷ cs) = (key ≢ k) × IsOpen k cs

  -- Such calls call none of its waiters.
  IsQuiet : Text → List (Event W R) → Type 0
  IsQuiet k es = (called k es ≡ []) × (ends k es ≡ 0)

  step-IsQuiet :
      (k : Text) (c : RequestCoalescer W) (call : Call W R)
      → IsOpen k (call ∷ [])
      → IsQuiet k (step c call).1
  unfolding IsQuiet called ends
  step-IsQuiet k c (joins key w) h = elim (Option-cases (flight key c)) [
    | inl out ↦ rw (step-lead c key w out) (refl, refl)
    | inr (ws, found) ↦ rw (step-wait c key w ws found) (refl, refl)
  ]
  step-IsQuiet k c (completes key r) h = elim (Option-cases (flight key c)) [
    | inl out ↦ rw (step-idle c key r out) (refl, refl)
    | inr (ws, found) ↦ rw (step-end c key r ws found) (
      ground (arith, called-deliveries k key r ws, h.0),
      ground (arith, ends-deliveries k key r ws, h.0),
    )
  ]

  run-IsQuiet :
      (k : Text) (c : RequestCoalescer W) (cs : List (Call W R))
      → IsOpen k cs
      → IsQuiet k (run c cs).1
  unfolding run IsQuiet called ends
  run-IsQuiet k c [] h = (refl, refl)
  run-IsQuiet k c (joins key w ∷ cs) h =
      let (c', es) = step {R = R} c (joins key w) in
      let (a, b) = run-IsQuiet k c' cs h in
      let (p, q) = step-IsQuiet k c (joins key w) tt in
      (
        rw (called-append k es (run c' cs).1, p, a),
        omega (arith, ends-append k es (run c' cs).1, q, b),
      )
  run-IsQuiet k c (completes key r ∷ cs) h =
      let (c', es) = step c (completes key r) in
      let (a, b) = run-IsQuiet k c' cs h.1 in
      let (p, q) = step-IsQuiet k c (completes key r) (h.0, tt) in
      (
        rw (called-append k es (run c' cs).1, p, a),
        omega (arith, ends-append k es (run c' cs).1, q, b),
      )

  -- The call that ends a flight calls every waiter that joined it, those that were in it before
  -- the calls `cs` and those that came with them, in order and each with the flight's response;
  -- then the key has no flight, so the next caller leads.
  pub complete-called :
      (k : Text) (c : RequestCoalescer W) (ws : List W) (cs : List (Call W R)) (r : R)
      → IsValid c
      → flight k c ≡ some ws
      → IsOpen k cs
      → let (d, es) = run c cs in
        ((complete k r d).1 ≡ map (λ w. (w, r)) (ws ++ waited k es))
        × (flight k (complete k r d).0 ≡ none)
        × ((w : W) → (join_or_start k w (complete k r d).0).1 ≡ leader)
  unfolding IsQuiet
  complete-called k c ws cs r v found open_ =
      let (d, es) = run c cs in
      let (b, valid) = run-Balances k c cs v in
      let (none_called, none_ended) = run-IsQuiet k c cs open_ in
      elim (Option-cases (flight k d)) [
        | inl out ↦ let flow = b.flow in absurd (ground (arith, found, out, none_ended, flow))
        | inr (qs, under) ↦
            let queue = b.queue in
            let all : ws ++ waited k es ≡ qs = ground (arith, found, under, none_called, queue) in
            let gone = lookup-erase_self Text-discrete k d.flights valid.distinct in
            rw (complete-end d k r qs under, all) (refl, gone, λ w. join-leader w _ k gone)
      ]
