-- ===== src/Service/World.antt =====
-- Every session, what they share, and every handler that the I/O library still has to call.
use eventedge.Base.{
  ℕ, zero, suc, Bool, true, false, List, [], ◌∷◌, ◌++◌, Option, none, some, Outcome, ok, ◌>>=◌,
  length, get_elem?, set, if◌then◌else◌,
}
use eventedge.Http.{Beast, HttpRequest, HttpResponse}
use eventedge.Metrics.{MetricsRegistry}
use eventedge.Monitor.{mark}
use eventedge.Metrics.Render.{Printer}
use eventedge.Session
use eventedge.Session.{
  Shared, HttpSession, Work, read_request, shutdown_send, write, post, proxy, Clock, ReadError,
  failed, Result, on_read, on_write, on_proxied, write_response_for_current_request,
}

-- `work` has each piece of outstanding work with the session that will go on with it, the number of
-- which is its place in `sessions`. A session lives as long as some work or some flight holds it:
-- `ended` are those whose last handler met an error and started nothing.
pub record World (F : Type 0) : Type 0 where
  pub shared : Shared F
  pub sessions : List (HttpSession F)
  pub work : List (ℕ × Work F)
  pub ended : List ℕ

-- What a handler is called with.
pub data Input (F : Type 0) : Type 0 where
  read : Option ReadError → HttpRequest F → Input F
  wrote : Bool → Input F
  posted : Input F
  answered : HttpResponse F → Input F

-- A client connects; the work in a place is done and its handler called; the monitor marks a
-- backend.
pub data WorldEvent (F : Type 0) : Type 0 where
  connects : WorldEvent F
  delivers : ℕ → Clock → Input F → WorldEvent F
  marks : ℕ → Bool → WorldEvent F

unfoldable pub remove_at {ℓ} : {A : Type ℓ} → ℕ → List A → List A
remove_at i [] = []
remove_at zero (x ∷ xs) = xs
remove_at (suc i) (x ∷ xs) = x ∷ remove_at i xs

-- A posted task goes on with the session that it names, other work with the session that started it.
unfoldable pub holder : {F : Type 0} → ℕ → Work F → ℕ
holder i (post id response) = id
holder i read_request = i
holder i shutdown_send = i
holder i (write response eof) = i
holder i (proxy endpoint request key) = i

unfoldable pub assigned : {F : Type 0} → ℕ → List (Work F) → List (ℕ × Work F)
assigned i [] = []
assigned i (x ∷ xs) = (holder i x, x) ∷ assigned i xs

-- Whether a handler's input is the end of its session.
unfoldable pub is_fatal : {F : Type 0} → Input F → Bool
is_fatal (read (some failed) request) = true
is_fatal (read (some ReadError.end_of_stream) request) = false
is_fatal (read none request) = false
is_fatal (wrote failure) = failure
is_fatal posted = false
is_fatal (answered response) = false

abbrev pub metrics_or : MetricsRegistry → Option MetricsRegistry → MetricsRegistry
metrics_or m none = m
metrics_or m (some m') = m'

module _ (b : Beast) (print : Printer) where
  open b use {Fields}

  -- The handler of a piece of work; an input of another kind does not happen.
  unfoldable pub handler :
      Clock
      → Work Fields
      → Input Fields
      → HttpSession Fields
      → Shared Fields
      → Option (Result b print)
  handler clock read_request (read error request) s w =
      some (on_read b print clock error request s w)
  handler clock (write response eof) (wrote failure) s w = some (on_write b print eof failure s w)
  handler clock (post id response) posted s w =
      some (write_response_for_current_request b print clock response s w)
  handler clock (proxy endpoint request key) (answered response) s w =
      some (on_proxied b print clock key response s w)
  handler clock _ input s w = none

  -- A new session reads.
  unfoldable pub connect : World Fields → Outcome (World Fields)
  connect world = do
    (s, w, new) ← Session.run b print (Session.create b print (length world.sessions)) world.shared
    ok (record world {
      shared = w;
      sessions = world.sessions ++ (s ∷ []);
      work = world.work ++ assigned (length world.sessions) new;
    })

  -- What the handler of the work in the place `k` leaves.
  unfoldable pub finish :
      ℕ → ℕ → Bool → Option (Result b print) → World Fields → Outcome (World Fields)
  finish k i fatal none world = ok world
  finish k i fatal (some result) world = do
    (s, w, new) ← result
    ok (record {
      shared = w;
      sessions = set world.sessions i s;
      work = remove_at k world.work ++ assigned i new;
      ended = if fatal then i ∷ world.ended else world.ended;
    })

  unfoldable pub deliver :
      ℕ → Clock → Input Fields → Option (ℕ × Work Fields) → World Fields → Outcome (World Fields)
  deliver k clock input none world = ok world
  deliver k clock input (some (i, x)) world = elim (get_elem? world.sessions i) [
    | none ↦ ok world
    | some s ↦ finish k i (is_fatal input) (handler clock x input s world.shared) world
  ]

  unfoldable pub step : WorldEvent Fields → World Fields → Outcome (World Fields)
  step connects world = connect world
  step (delivers k clock input) world = deliver k clock input (get_elem? world.work k) world
  step (marks i healthy) world = do
    watched ←
        mark i healthy (record {
          upstream_pool = world.shared.upstream_pool;
          metrics = some world.shared.metrics;
        })
    ok (record world {
      shared = record world.shared {
        upstream_pool = watched.upstream_pool;
        metrics = metrics_or world.shared.metrics watched.metrics;
      };
    })

  unfoldable pub steps : List (WorldEvent Fields) → World Fields → Outcome (World Fields)
  steps [] world = ok world
  steps (event ∷ events) world = do world' ← step event world; steps events world'
