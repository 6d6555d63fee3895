-- ===== src/Service/Waiters.antt =====
-- A session that waits is answered with the answer to the proxy of its flight.
use eventedge.Base.{
  ℕ, suc, ◌<◌, ◌≡◌, refl, sym, ap, ◌∙◌, List, [], ◌∷◌, ◌++◌, map, none, some, Text, Text-discrete,
  get_elem?, lookup, IsDistinct, lookup-cons_self, lookup-cons_ne, ne_of_lookup, dec_lt, ℕ_discrete,
  arith,
}
use eventedge.Http.{HttpRequest, HttpResponse}
use eventedge.Upstream.{UpstreamEndpoint}
use eventedge.Session.{Work, read_request, shutdown_send, write, post, proxy}
use eventedge.Service.World.{assigned, holder}
use eventedge.Service.Counts.{times, waiting_in, flies_for, flying}

-- A session that waits once waits in one flight.
pub waiting_in-lookup :
    (id : ℕ) (fs : List (Text × List ℕ))
    → IsDistinct Text-discrete fs
    → 0 < waiting_in id fs
    → (k : Text) × (ws : List ℕ) × (lookup Text-discrete k fs ≡ some ws) × (0 < times id ws)
waiting_in-lookup id [] distinct h = absurd (omega (arith, h))
waiting_in-lookup id ((j, v) ∷ fs) (fresh, distinct) h = elim (dec_lt 0 (times id v)) [
  | yes here ↦ (j, v, lookup-cons_self Text-discrete j v fs, here)
  | no elsewhere ↦
      let (k, ws, there, waits) = waiting_in-lookup id fs distinct (omega (arith, h, elsewhere)) in
      (
        k,
        ws,
        lookup-cons_ne Text-discrete j k v fs
              (λ e. ne_of_lookup Text-discrete j k fs fresh there (sym e))
            ∙ there,
        waits,
      )
]

module _ {F : Type 0} where
  flies_for-proxy :
      (k : Text) (x : Work F)
      → 0 < flies_for k x
      → (endpoint : UpstreamEndpoint) × (request : HttpRequest F) × (x
          ≡ proxy endpoint request (some k))
  flies_for-proxy k (proxy endpoint request (some key)) h = elim (Text-discrete key k) [
    | yes same ↦ (endpoint, request, ap (λ t. proxy endpoint request (some t)) same)
    | no other ↦ absurd (ground (arith, h, other))
  ]
  flies_for-proxy k (proxy endpoint request none) h = absurd (omega (arith, h))
  flies_for-proxy k read_request h = absurd (omega (arith, h))
  flies_for-proxy k shutdown_send h = absurd (omega (arith, h))
  flies_for-proxy k (write response eof) h = absurd (omega (arith, h))
  flies_for-proxy k (post id response) h = absurd (omega (arith, h))

  -- A proxy for a key has a place among the work.
  pub flying-get_elem? :
      (k : Text) (xs : List (ℕ × Work F))
      → 0 < flying k xs
      → (p : ℕ) × (i : ℕ) × (endpoint : UpstreamEndpoint) × (request : HttpRequest F) × (get_elem?
            xs p
          ≡ some (i, proxy endpoint request (some k)))
  flying-get_elem? k [] h = absurd (omega (arith, h))
  flying-get_elem? k ((i, x) ∷ xs) h = elim (dec_lt 0 (flies_for k x)) [
    | yes here ↦
        let (endpoint, request, is) = flies_for-proxy k x here in
        (0, i, endpoint, request, ap (λ y. some (i, y)) is)
    | no elsewhere ↦
        let (p, j, endpoint, request, is) = flying-get_elem? k xs (omega (arith, h, elsewhere)) in
        (suc p, j, endpoint, request, is)
  ]

  -- Each waiter of a flight gets a task.
  pub times-posts :
      (id i : ℕ) (r : HttpResponse F) (ws : List ℕ) (rest : List (Work F))
      → 0 < times id ws
      → (p : ℕ) × (get_elem? (assigned i (map (λ w. post w r) ws ++ rest)) p ≡ some (id, post id r))
  unfolding assigned holder
  times-posts id i r [] rest h = absurd (omega (arith, h))
  times-posts id i r (w ∷ ws) rest h = elim (ℕ_discrete w id) [
    | yes same ↦ (0, ap (λ v. some (v, post v r)) same)
    | no other ↦
        let (p, there) = times-posts id i r ws rest (ground (arith, h, other)) in (suc p, there)
  ]

  pub get_elem?-append_right :
      (xs ys : List (ℕ × Work F)) (p : ℕ) → (q : ℕ) × (get_elem? (xs ++ ys) q ≡ get_elem? ys p)
  get_elem?-append_right [] ys p = (p, refl)
  get_elem?-append_right (x ∷ xs) ys p =
      let (q, same) = get_elem?-append_right xs ys p in (suc q, same)
