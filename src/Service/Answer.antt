-- ===== src/Service/Answer.antt =====
-- A session that waits is answered when the proxy of its flight is.
use eventedge.Base.{
  ℕ, true, false, ◌<◌, ◌≡◌, refl, ap, ◌∙◌, List, ◌++◌, map, some, Text, ok, length, get_elem?, set,
  get_elem?_total, arith,
}
use eventedge.Http.{Beast, HttpRequest, HttpResponse}
use eventedge.Upstream.{UpstreamEndpoint}
use eventedge.Coalescer.{RequestCoalescer, flight}
use eventedge.Metrics.{proxy_completed}
use eventedge.Metrics.Render.{Printer}
use eventedge.Session.{Shared, HttpSession, Work, proxy, post, Clock, Result, on_proxied}
use eventedge.Session.Flight.{complete_flight-runs}
use eventedge.Service.World.{
  World, answered, delivers, remove_at, assigned, is_fatal, handler, finish, deliver, step,
}
use eventedge.Service.Counts.{times, owned, waiting, under, owned-remove_at}
use eventedge.Service.Ledger.{IsHealthy}
use eventedge.Service.Balance.{IsBalanced}
use eventedge.Service.Waiters.{
  waiting_in-lookup, flying-get_elem?, times-posts, get_elem?-append_right,
}

-- The work has a task that answers the session `id`.
abbrev pub Answers : {F : Type 0} → ℕ → HttpResponse F → World F → Type 0
Answers id response world' = (q : ℕ) × (get_elem? world'.work q ≡ some (id, post id response))

module _ (b : Beast) (print : Printer) (n : ℕ) where
  open b use {Fields}

  -- Work of a balanced world is that of a session.
  pub holder-session :
      (world : World Fields) (p i : ℕ) (x : Work Fields)
      → IsBalanced b print n world
      → get_elem? world.work p ≡ some (i, x)
      → (s : HttpSession Fields) × (get_elem? world.sessions i ≡ some s)
  holder-session world p i x h there =
      get_elem?_total world.sessions i
        (ground (arith, h.once i, owned-remove_at i p i x world.work there))

  module _ (world : World Fields) (p i : ℕ) (s : HttpSession Fields) where
    finish-Answers :
        (id : ℕ) (response : HttpResponse Fields) (ws : List ℕ) (rest : List (Work Fields))
        (w : Shared Fields) (result : Result b print)
        → result ≡ ok (s, w, map (λ j. post j response) ws ++ rest)
        → 0 < times id ws
        → (world' : World Fields) × (finish b print p i false (some result) world ≡ ok world')
          × Answers id response world'
    unfolding finish
    finish-Answers id response ws rest w result done waits =
        let new = assigned i (map (λ j. post j response) ws ++ rest) in
        let (q, task) = times-posts id i response ws rest waits in
        let (q', there) = get_elem?-append_right (remove_at p world.work) new q in
        (
          record world {
            shared = w;
            sessions = set world.sessions i s;
            work = remove_at p world.work ++ new;
          },
          rw done refl,
          (q', there ∙ task),
        )

    -- The proxy of a flight is answered.
    proxy-Answers :
        (id : ℕ) (clock : Clock) (response : HttpResponse Fields) (k : Text) (ws : List ℕ)
        (endpoint : UpstreamEndpoint) (request : HttpRequest Fields) (c : RequestCoalescer ℕ)
        → IsHealthy b print n world.shared
        → world.shared.request_coalescer ≡ some c
        → get_elem? world.work p ≡ some (i, proxy endpoint request (some k))
        → get_elem? world.sessions i ≡ some s
        → flight k c ≡ some ws
        → 0 < times id ws
        → (world' : World Fields) × (step b print (delivers p clock (answered response)) world
            ≡ ok world')
          × Answers id response world'
    unfolding step deliver handler is_fatal on_proxied proxy_completed
    proxy-Answers id clock response k ws endpoint request c healthy held there is_s flies waits =
        let w = record world.shared { metrics = proxy_completed world.shared.metrics } in
        let (w', done, _, _, _, _) =
          complete_flight-runs b print clock k response true s w healthy.items c ws
            healthy.represented held flies in
        let (world', finished, task) = finish-Answers id response ws _ w' _ done waits in
        (world', rw (there, deliver, is_s) finished, task)

  -- In a balanced world, a session that has connected, has not ended and has no work is one whose
  -- answer is on its way: among the work is a proxy of a flight, and whatever it answers, and at
  -- whatever time, its handler posts the session a task with that answer.
  pub waiting-Answered :
      (world : World Fields) (id : ℕ)
      → IsBalanced b print n world
      → id < length world.sessions
      → owned id world.work ≡ 0
      → times id world.ended ≡ 0
      → (p : ℕ) × (i : ℕ) × (endpoint : UpstreamEndpoint) × (request : HttpRequest Fields)
        × (k : Text) × (get_elem? world.work p ≡ some (i, proxy endpoint request (some k)))
        × ((clock : Clock) (response : HttpResponse Fields)
            → (world' : World Fields) × (step b print (delivers p clock (answered response)) world
                ≡ ok world')
              × Answers id response world')
  waiting-Answered world id h connected idle going =
      let (c, held, distinct) = h.healthy.held in
      let (k, ws, flies, waits) =
        waiting_in-lookup id c.flights distinct
          (ground (arith, h.once id, connected, idle, going, ap (waiting id) held)) in
      let (p, i, endpoint, request, there) =
        flying-get_elem? k world.work (ground (arith, h.flown k, ap (under k) held, flies)) in
      let (s, is_s) = holder-session world p i (proxy endpoint request (some k)) h there in
      (
        p,
        i,
        endpoint,
        request,
        k,
        there,
        (λ clock response.
            proxy-Answers world p i s id clock response k ws endpoint request c h.healthy held there
              is_s flies waits),
      )
