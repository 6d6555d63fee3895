-- ===== src/Session/Joins.antt =====
-- A call of `join_or_start`, without a flight of the key and with one.
use eventedge.Base.{ℕ, ◌≡◌, List, [], ◌∷◌, ◌++◌, none, some, Text, Text-discrete, assign}
use eventedge.Coalescer.{RequestCoalescer, Role, leader, flight, join_or_start}

pub join_first :
    (key : Text) (id : ℕ) (c : RequestCoalescer ℕ)
    → flight key c ≡ none
    → join_or_start key id c ≡ (record { flights = (key, []) ∷ c.flights }, leader)
unfolding join_or_start
join_first key id c h = rw (h, join_or_start)

pub join_later :
    (key : Text) (id : ℕ) (c : RequestCoalescer ℕ) (ws : List ℕ)
    → flight key c ≡ some ws
    → join_or_start key id c
      ≡ (record { flights = assign Text-discrete key (ws ++ (id ∷ [])) c.flights }, Role.waiter)
unfolding join_or_start
join_later key id c ws h = rw (h, join_or_start)
