-- ===== src/Service/History.antt =====
-- Any history of the service: nothing is thrown, and the sessions stay in balance.
use mathlib.Core.Path.{subst}
use eventedge.Base.{
  ok_of_bind, ap, ◌++◌, ℕ, ◌≤◌, ◌<◌, ◌≡◌, refl, ◌∙◌, inl, inr, Bool, List, [], ◌∷◌, Option, none,
  some, ok, length, get_elem?, All, Option-cases, arith,
}
use eventedge.Http.{Beast}
use eventedge.Metrics.{record_health_transition}
use eventedge.Metrics.Render.{Printer}
use eventedge.Monitor.{Watched, count_transition}
use eventedge.Monitor.Marks.{mark-Marked}
use eventedge.Session.{Work, Clock}
use eventedge.Service.World
use eventedge.Service.World.{
  World, Input, WorldEvent, connects, delivers, marks, metrics_or, handler, deliver, step, steps,
}
use eventedge.Service.Handlers.{Carries}
use eventedge.Service.Balance.{IsBalanced, connect-IsBalanced, handled-IsBalanced}

-- The backends that the monitor marks are in the pool, and no TRACE request with a body is read.
abbrev pub IsInside : {F : Type 0} → ℕ → WorldEvent F → Type 0
IsInside n connects = Unit
IsInside n (delivers k clock input) = Carries input
IsInside n (marks i healthy) = i < n

module _ (b : Beast) (print : Printer) (n : ℕ) where
  open b use {Fields}

  pub deliver-IsBalanced :
      (world : World Fields) (k : ℕ) (clock : Clock) (input : Input Fields)
      (next : Option (ℕ × Work Fields))
      → IsBalanced b print n world
      → Carries input
      → get_elem? world.work k ≡ next
      → (world' : World Fields) × (deliver b print k clock input next world ≡ ok world')
        × IsBalanced b print n world'
  unfolding deliver
  deliver-IsBalanced world k clock input none h carries there = (world, refl, h)
  deliver-IsBalanced world k clock input (some (i, x)) h carries there =
      elim (Option-cases (get_elem? world.sessions i)) [
        | inl out ↦ (world, rw (deliver, out) refl, h)
        | inr (s, is_s) ↦
            let (world', done, balanced) =
              handled-IsBalanced b print n world k i x h there clock input s
                (handler b print clock x input s world.shared) is_s carries refl in
            (world', rw (deliver, is_s) done, balanced)
      ]

  pub marks-IsBalanced :
      (world : World Fields) (i : ℕ) (healthy : Bool)
      → i < n
      → IsBalanced b print n world
      → (world' : World Fields) × (step b print (marks i healthy) world ≡ ok world')
        × IsBalanced b print n world'
  unfolding step count_transition record_health_transition
  marks-IsBalanced world i healthy inside h =
      let watched : Watched = record {
        upstream_pool = world.shared.upstream_pool;
        metrics = some world.shared.metrics;
      } in
      let (watched', done, marked) =
        mark-Marked i healthy watched (omega (arith, inside, h.healthy.backends)) in
      let labels : length (metrics_or world.shared.metrics watched'.metrics).upstreams ≤ n =
        elim marked.counted [
          | inl (_, same) ↦ rw same h.healthy.labels
          | inr (_, counted) ↦ rw counted h.healthy.labels
        ] in
      (
        record world {
          shared = record world.shared {
            upstream_pool = watched'.upstream_pool;
            metrics = metrics_or world.shared.metrics watched'.metrics;
          };
        },
        rw done refl,
        record {
          healthy = record {
            items = h.healthy.items;
            represented = h.healthy.represented;
            backends = marked.same_size ∙ h.healthy.backends;
            labels = labels;
            held = h.healthy.held;
          };
          named = h.named;
          started = h.started;
          once = h.once;
          flown = h.flown;
        },
      )

  step-IsBalanced :
      (event : WorldEvent Fields) (world : World Fields)
      → IsInside n event
      → IsBalanced b print n world
      → (world' : World Fields) × (step b print event world ≡ ok world')
        × IsBalanced b print n world'
  unfolding step
  step-IsBalanced connects world inside h = connect-IsBalanced b print n world h
  step-IsBalanced (delivers k clock input) world inside h =
      deliver-IsBalanced world k clock input (get_elem? world.work k) h inside refl
  step-IsBalanced (marks i healthy) world inside h = marks-IsBalanced world i healthy inside h

  -- Any history of the service, with connections, handlers called in any order and marks by the
  -- monitor on backends of the pool, in which no TRACE request with a body is read, runs without an
  -- exception, and leaves the sessions in balance when they were in balance before: each session
  -- that has connected has one thing to come (a piece of work, the closing of its connection
  -- included, or its place in a flight) or has ended, never two of these and never none; for each
  -- key, one proxy is on its way if the flight of the key is under way, and none if it is not; and
  -- the shared objects stay in order (the cache stands for a bounded map of items, the pool keeps
  -- its backends, the coalescer has one flight for a key at most).
  pub steps-IsBalanced :
      (events : List (WorldEvent Fields)) (world : World Fields)
      → All (IsInside n) events
      → IsBalanced b print n world
      → (world' : World Fields) × (steps b print events world ≡ ok world')
        × IsBalanced b print n world'
  unfolding steps
  steps-IsBalanced [] world inside h = (world, refl, h)
  steps-IsBalanced (event ∷ events) world (inside, rest) h =
      let (next, done, balanced) = step-IsBalanced event world inside h in
      let (world', done', balanced') = steps-IsBalanced events next rest balanced in
      (world', rw done done', balanced')

  -- A history of the sessions that ends in balance is one that leaves them in balance.
  pub ends-IsBalanced :
      (events : List (WorldEvent Fields)) (w w' : World Fields)
      → All (IsInside n) events
      → IsBalanced b print n w
      → World.steps b print events w ≡ ok w'
      → IsBalanced b print n w'
  ends-IsBalanced events w w' inside balanced ran =
      let (v, ran', balanced') = steps-IsBalanced events w inside balanced in
      let same : v ≡ w' = cc in subst (IsBalanced b print n) same balanced'

module _ (b : Beast) (print : Printer) where
  open b use {Fields}

  -- One history after another.
  pub steps-append :
      (first more : List (WorldEvent Fields)) (w w' : World Fields)
      → steps b print first w ≡ ok w'
      → steps b print (first ++ more) w ≡ steps b print more w'
  unfolding steps
  steps-append [] more w w' h = let same : w ≡ w' = cc in ap (steps b print more) same
  steps-append (event ∷ first) more w w' h =
      let (v, stepped, rest) = ok_of_bind (step b print event w) (steps b print first) w' h in
      rw stepped (steps-append first more v w' rest)
