-- ===== src/Coalescer/Flights.antt =====
-- `RequestCoalescer`. The mutex makes each call one step. A waiter is a callback that the code only
-- stores and calls, so it is a type `W`; a response is a type `R`. `complete` calls the waiters after
-- it has let go of the mutex, with the flight already gone: what it returns are those calls, in order.
use eventedge.Base.{
  ℕ, List, [], ◌∷◌, ◌++◌, map, Option, none, some, Text, Text-discrete, length, lookup, erase,
  assign, IsDistinct,
}

pub data Role : Type 0 where
  leader waiter : Role

pub record RequestCoalescer (W : Type 0) : Type 0 where
  pub flights : List (Text × List W)

module _ {W : Type 0} where
  abbrev pub create : RequestCoalescer W
  create = record { flights = [] }

  -- The flight of a key.
  abbrev pub flight : Text → RequestCoalescer W → Option (List W)
  flight key c = lookup Text-discrete key c.flights

  unfoldable pub join_or_start : Text → W → RequestCoalescer W → RequestCoalescer W × Role
  join_or_start key w c = elim (flight key c) [
    | none ↦ (record { flights = (key, []) ∷ c.flights }, leader)
    | some ws ↦
        (record { flights = assign Text-discrete key (ws ++ w ∷ []) c.flights }, Role.waiter)
  ]

  unfoldable pub complete :
      {R : Type 0} → Text → R → RequestCoalescer W → RequestCoalescer W × List (W × R)
  complete key response c = elim (flight key c) [
    | none ↦ (c, [])
    | some ws ↦
        (record { flights = erase Text-discrete key c.flights }, map (λ w. (w, response)) ws)
  ]

  abbrev pub size : RequestCoalescer W → ℕ
  size c = length c.flights

  unfoldable pub waiter_count : Text → RequestCoalescer W → ℕ
  waiter_count key c = elim (flight key c) [ none ↦ 0 | some ws ↦ length ws ]

  -- The waiters in the flight of a key, and whether it is under way.
  abbrev pub pending : Text → RequestCoalescer W → List W
  pending k c = elim (flight k c) [ none ↦ [] | some ws ↦ ws ]

  abbrev pub under_way : Text → RequestCoalescer W → ℕ
  under_way k c = elim (flight k c) [ none ↦ 0 | some ws ↦ 1 ]

  -- A key has one flight at most.
  pub record IsValid (c : RequestCoalescer W) : Type 0 where
    pub distinct : IsDistinct Text-discrete c.flights
