-- ===== src/Coalescer/Steps.antt =====
-- The events of one call on each branch, and the counts over a list of events.
use eventedge.Base.{
  ◌+◌, ◌≡◌, refl, ite, List, [], ◌∷◌, ◌++◌, map, none, some, Text, Text-discrete, erase, assign,
  arith,
}
use eventedge.Coalescer.Flights.{RequestCoalescer, flight, join_or_start, complete}
use eventedge.Coalescer.History.{
  joins, completes, Event, led, ended, waits, calls, deliveries, step, waited, called, leads, ends,
}

module _ {W R : Type 0} where
  pub waited-append :
      (k : Text) (es fs : List (Event W R)) → waited k (es ++ fs) ≡ waited k es ++ waited k fs
  unfolding waited
  waited-append k [] fs = refl
  waited-append k (led key ∷ es) fs = waited-append k es fs
  waited-append k (ended key ∷ es) fs = waited-append k es fs
  waited-append k (waits key w ∷ es) fs = ground (arith, waited-append k es fs)
  waited-append k (calls key w r ∷ es) fs = waited-append k es fs

  pub called-append :
      (k : Text) (es fs : List (Event W R)) → called k (es ++ fs) ≡ called k es ++ called k fs
  unfolding called
  called-append k [] fs = refl
  called-append k (led key ∷ es) fs = called-append k es fs
  called-append k (ended key ∷ es) fs = called-append k es fs
  called-append k (waits key w ∷ es) fs = called-append k es fs
  called-append k (calls key w r ∷ es) fs = ground (arith, called-append k es fs)

  pub leads-append :
      (k : Text) (es fs : List (Event W R)) → leads k (es ++ fs) ≡ leads k es + leads k fs
  unfolding leads
  leads-append k [] fs = omega arith
  leads-append k (led key ∷ es) fs = ground (arith, leads-append k es fs)
  leads-append k (ended key ∷ es) fs = leads-append k es fs
  leads-append k (waits key w ∷ es) fs = leads-append k es fs
  leads-append k (calls key w r ∷ es) fs = leads-append k es fs

  pub ends-append :
      (k : Text) (es fs : List (Event W R)) → ends k (es ++ fs) ≡ ends k es + ends k fs
  unfolding ends
  ends-append k [] fs = omega arith
  ends-append k (led key ∷ es) fs = ends-append k es fs
  ends-append k (ended key ∷ es) fs = ground (arith, ends-append k es fs)
  ends-append k (waits key w ∷ es) fs = ends-append k es fs
  ends-append k (calls key w r ∷ es) fs = ends-append k es fs

  -- The calls of one flight's waiters.
  module _ (k key : Text) (r : R) where
    pub waited-deliveries : (ws : List W) → waited k (deliveries key (map (λ w. (w, r)) ws)) ≡ []
    unfolding waited
    waited-deliveries [] = refl
    waited-deliveries (w ∷ ws) = waited-deliveries ws

    pub leads-deliveries : (ws : List W) → leads k (deliveries key (map (λ w. (w, r)) ws)) ≡ 0
    unfolding leads
    leads-deliveries [] = refl
    leads-deliveries (w ∷ ws) = leads-deliveries ws

    pub ends-deliveries : (ws : List W) → ends k (deliveries key (map (λ w. (w, r)) ws)) ≡ 0
    unfolding ends
    ends-deliveries [] = refl
    ends-deliveries (w ∷ ws) = ends-deliveries ws

    pub called-deliveries :
        (ws : List W)
        → called k (deliveries key (map (λ w. (w, r)) ws)) ≡ ite (Text-discrete key k) ws []
    unfolding called
    called-deliveries [] = ground arith
    called-deliveries (w ∷ ws) = ground (arith, called-deliveries ws)

  module _ (c : RequestCoalescer W) (key : Text) where
    pub step-lead :
        (w : W)
        → flight key c ≡ none
        → step {R = R} c (joins key w) ≡ (record { flights = (key, []) ∷ c.flights }, led key ∷ [])
    unfolding step join_or_start
    step-lead w out = rw (out, step, join_or_start)

    pub step-wait :
        (w : W) (ws : List W)
        → flight key c ≡ some ws
        → step {R = R} c (joins key w) ≡ (
          record { flights = assign Text-discrete key (ws ++ w ∷ []) c.flights },
          waits key w ∷ [],
        )
    unfolding step join_or_start
    step-wait w ws found = rw (found, step, join_or_start)

    pub complete-idle : (r : R) → flight key c ≡ none → complete key r c ≡ (c, [])
    unfolding complete
    complete-idle r out = rw (out, complete)

    pub complete-end :
        (r : R) (ws : List W)
        → flight key c ≡ some ws
        → complete key r c
          ≡ (record { flights = erase Text-discrete key c.flights }, map (λ w. (w, r)) ws)
    unfolding complete
    complete-end r ws found = rw (found, complete)

    pub step-idle : (r : R) → flight key c ≡ none → step c (completes key r) ≡ (c, [])
    unfolding step
    step-idle r out = rw (out, step) (rw (complete-idle r out))

    pub step-end :
        (r : R) (ws : List W)
        → flight key c ≡ some ws
        → step c (completes key r) ≡ (
          record { flights = erase Text-discrete key c.flights },
          ended key ∷ deliveries key (map (λ w. (w, r)) ws),
        )
    unfolding step
    step-end r ws found = rw (found, step) (rw (complete-end r ws found))
