-- ===== src/Coalescer/History.antt =====
-- Histories of `join_or_start` and `complete`, in the order in which the mutex lets them in.
use eventedge.Base.{ℕ, suc, ite, List, [], ◌∷◌, ◌++◌, none, some, Text, Text-discrete}
use eventedge.Coalescer.Flights.{Role, leader, RequestCoalescer, flight, join_or_start, complete}

pub data Call (W R : Type 0) : Type 0 where
  joins : Text → W → Call W R
  completes : Text → R → Call W R

-- What a call does that others see: a caller leads or waits, a flight ends, a waiter is called.
pub data Event (W R : Type 0) : Type 0 where
  led ended : Text → Event W R
  waits : Text → W → Event W R
  calls : Text → W → R → Event W R

module _ {W R : Type 0} where
  abbrev pub joined : Text → W → Role → List (Event W R)
  joined key w leader = led key ∷ []
  joined key w Role.waiter = waits key w ∷ []

  abbrev pub deliveries : Text → List (W × R) → List (Event W R)
  deliveries key [] = []
  deliveries key ((w, r) ∷ ds) = calls key w r ∷ deliveries key ds

  unfoldable pub step : RequestCoalescer W → Call W R → RequestCoalescer W × List (Event W R)
  step c (joins key w) = let (c', role) = join_or_start key w c in (c', joined key w role)
  step c (completes key r) =
      let (c', ds) = complete key r c in
      elim (flight key c) [ none ↦ (c', []) | some ws ↦ (c', ended key ∷ deliveries key ds) ]

  unfoldable pub run : RequestCoalescer W → List (Call W R) → RequestCoalescer W × List (Event W R)
  run c [] = (c, [])
  run c (call ∷ cs) =
      let (c', events) = step c call in let (d, rest) = run c' cs in (d, events ++ rest)

  -- The waiters of a key that were told to wait, and those that were called, in order.
  unfoldable pub waited : Text → List (Event W R) → List W
  waited k [] = []
  waited k (led key ∷ es) = waited k es
  waited k (ended key ∷ es) = waited k es
  waited k (waits key w ∷ es) = ite (Text-discrete key k) (w ∷ waited k es) (waited k es)
  waited k (calls key w r ∷ es) = waited k es

  unfoldable pub called : Text → List (Event W R) → List W
  called k [] = []
  called k (led key ∷ es) = called k es
  called k (ended key ∷ es) = called k es
  called k (waits key w ∷ es) = called k es
  called k (calls key w r ∷ es) = ite (Text-discrete key k) (w ∷ called k es) (called k es)

  -- How often a caller led a flight of a key, and how often one ended.
  unfoldable pub leads : Text → List (Event W R) → ℕ
  leads k [] = 0
  leads k (led key ∷ es) = ite (Text-discrete key k) (suc (leads k es)) (leads k es)
  leads k (ended key ∷ es) = leads k es
  leads k (waits key w ∷ es) = leads k es
  leads k (calls key w r ∷ es) = leads k es

  unfoldable pub ends : Text → List (Event W R) → ℕ
  ends k [] = 0
  ends k (led key ∷ es) = ends k es
  ends k (ended key ∷ es) = ite (Text-discrete key k) (suc (ends k es)) (ends k es)
  ends k (waits key w ∷ es) = ends k es
  ends k (calls key w r ∷ es) = ends k es
