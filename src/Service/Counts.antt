-- ===== src/Service/Counts.antt =====
-- How often a session has work, waits in a flight, or has ended; how many proxies fly for a key.
use eventedge.Base.{
  ℕ, zero, suc, ◌+◌, ◌≡◌, refl, ap, ite, Bool, List, [], ◌∷◌, ◌++◌, map, Option, none, some, Text,
  Text-discrete, ◌==◌, if◌then◌else◌, get_elem?, arith,
}
use eventedge.Http.{HttpResponse}
use eventedge.Coalescer.{RequestCoalescer, under_way}
use eventedge.Session.{Work, read_request, shutdown_send, write, post, proxy}
use eventedge.Service.World.{remove_at, holder, assigned}

abbrev pub one_if_same : ℕ → ℕ → ℕ
one_if_same i j = if i == j then 1 else 0

abbrev pub times : ℕ → List ℕ → ℕ
times a [] = 0
times a (x ∷ xs) = one_if_same x a + times a xs

-- The work that goes on with the session `id`.
abbrev pub owned : {F : Type 0} → ℕ → List (ℕ × Work F) → ℕ
owned id [] = 0
owned id ((i, x) ∷ xs) = one_if_same i id + owned id xs

-- How often the session `id` waits in a flight.
abbrev pub waiting_in : ℕ → List (Text × List ℕ) → ℕ
waiting_in id [] = 0
waiting_in id ((k, ws) ∷ fs) = times id ws + waiting_in id fs

abbrev pub waiting : ℕ → Option (RequestCoalescer ℕ) → ℕ
waiting id none = 0
waiting id (some c) = waiting_in id c.flights

abbrev pub one_if_key : Text → Text → ℕ
one_if_key j k = ite (Text-discrete j k) 1 0

abbrev pub flies_for : {F : Type 0} → Text → Work F → ℕ
flies_for k (proxy endpoint request (some key)) = one_if_key key k
flies_for k (proxy endpoint request none) = 0
flies_for k read_request = 0
flies_for k shutdown_send = 0
flies_for k (write response eof) = 0
flies_for k (post id response) = 0

-- The proxies that will end the flight of the key `k`.
abbrev pub flying : {F : Type 0} → Text → List (ℕ × Work F) → ℕ
flying k [] = 0
flying k ((i, x) ∷ xs) = flies_for k x + flying k xs

abbrev pub under : Text → Option (RequestCoalescer ℕ) → ℕ
under k none = 0
under k (some c) = under_way k c

module _ {F : Type 0} where
  pub owned-append :
      (id : ℕ) (xs ys : List (ℕ × Work F)) → owned id (xs ++ ys) ≡ owned id xs + owned id ys
  owned-append id [] ys = omega arith
  owned-append id ((i, x) ∷ xs) ys = omega (arith, owned-append id xs ys)

  pub flying-append :
      (k : Text) (xs ys : List (ℕ × Work F)) → flying k (xs ++ ys) ≡ flying k xs + flying k ys
  flying-append k [] ys = omega arith
  flying-append k ((i, x) ∷ xs) ys = omega (arith, flying-append k xs ys)

  pub owned-remove_at :
      (id k i : ℕ) (x : Work F) (xs : List (ℕ × Work F))
      → get_elem? xs k ≡ some (i, x)
      → owned id (remove_at k xs) + one_if_same i id ≡ owned id xs
  unfolding remove_at
  owned-remove_at id k i x [] h = cc
  owned-remove_at id zero i x ((j, y) ∷ xs) h =
      let same : j ≡ i = cc in omega (arith, ap (λ n. one_if_same n id) same)
  owned-remove_at id (suc k) i x ((j, y) ∷ xs) h = omega (arith, owned-remove_at id k i x xs h)

  pub flying-remove_at :
      (key : Text) (k i : ℕ) (x : Work F) (xs : List (ℕ × Work F))
      → get_elem? xs k ≡ some (i, x)
      → flying key (remove_at k xs) + flies_for key x ≡ flying key xs
  unfolding remove_at
  flying-remove_at key k i x [] h = cc
  flying-remove_at key zero i x ((j, y) ∷ xs) h =
      let same : y ≡ x = cc in omega (arith, ap (flies_for key) same)
  flying-remove_at key (suc k) i x ((j, y) ∷ xs) h = omega (arith, flying-remove_at key k i x xs h)

  -- The tasks of the waiters of a flight, and the answer behind them.
  pub owned-posts :
      (id i : ℕ) (r : HttpResponse F) (ws : List ℕ) (answer : HttpResponse F) (eof : Bool)
      → owned id (assigned i (map (λ w. post w r) ws ++ (write answer eof ∷ [])))
        ≡ times id ws + one_if_same i id
  unfolding assigned holder
  owned-posts id i r [] answer eof = omega arith
  owned-posts id i r (w ∷ ws) answer eof = omega (arith, owned-posts id i r ws answer eof)

  pub flying-posts :
      (k : Text) (i : ℕ) (r : HttpResponse F) (ws : List ℕ) (answer : HttpResponse F) (eof : Bool)
      → flying k (assigned i (map (λ w. post w r) ws ++ (write answer eof ∷ []))) ≡ 0
  unfolding assigned holder
  flying-posts k i r [] answer eof = refl
  flying-posts k i r (w ∷ ws) answer eof = omega (arith, flying-posts k i r ws answer eof)
