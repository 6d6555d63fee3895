-- ===== src/System/History.antt =====
-- Any history of the program.
use mathlib.Core.Path.{subst}
use eventedge.Base.{
  ℕ, ◌≡◌, refl, ◌∙◌, inl, inr, Bool, true, false, List, [], ◌∷◌, ◌++◌, All, Text, Outcome, ok,
  lookup, if◌then◌else◌, All-append, arith,
}
use eventedge.Service.Handlers.{Carries}
use eventedge.Http.{Beast}
use eventedge.Upstream.{size}
use eventedge.Coalescer
use eventedge.Metrics.Render.{Printer}
use eventedge.Server.{AcceptorErrors}
use eventedge.Args.{Configuration}
use eventedge.Main.{Program, serves, main}
use eventedge.Main.Ready.{Ends, IsReady}
use eventedge.Main.Ending.{main_lem}
use eventedge.Service.History.{IsInside, steps-append}
use eventedge.System.State.{
  System, SystemEvent, accepted, handled, relayed, timed, checked, signalled, begin, call, step,
  steps,
}
use eventedge.System.View.{view}
use eventedge.System.Sound.{IsSound}
use eventedge.System.Refines.{Refines, idle-Refines, handle-Refines, relay-Refines}
use eventedge.System.Turns.{timed-Refines, checked-Refines, signalled-Refines}
use eventedge.System.Arrivals.{accept-Refines}

-- No handler of a read is called with a TRACE request that has a body.
abbrev pub CarriesNone : {F : Type 0} → SystemEvent F → Type 0
CarriesNone (handled k clock input) = Carries input
CarriesNone _ = Unit

module _ (b : Beast) (print : Printer) (n : ℕ) {Address : Type 0} where
  open b use {Fields}

  call-Refines :
      (event : SystemEvent Fields) (s : System Address Fields)
      → CarriesNone event
      → IsSound b print n s
      → Refines b print n s (call b print event s)
  unfolding call
  call-Refines (accepted error) s carries h =
      accept-Refines b print n s.program.server.accepting error s refl h
  call-Refines (handled k clock input) s carries h =
      handle-Refines b print n s k clock input carries h
  call-Refines (relayed k clock event) s carries h = relay-Refines b print n s k clock event h
  call-Refines (timed error) s carries h = timed-Refines b print n error s h
  call-Refines (checked k event) s carries h = checked-Refines b print n k event s h
  call-Refines (signalled error) s carries h = signalled-Refines b print n error s h

  either-Refines :
      (stopped : Bool) (s : System Address Fields) (o o' : Outcome (System Address Fields))
      → Refines b print n s o
      → Refines b print n s o'
      → Refines b print n s (if stopped then o else o')
  either-Refines true s o o' r r' = r
  either-Refines false s o o' r r' = r'

  pub step-Refines :
      (event : SystemEvent Fields) (s : System Address Fields)
      → CarriesNone event
      → IsSound b print n s
      → Refines b print n s (step b print event s)
  unfolding step
  step-Refines event s carries h =
      either-Refines s.program.context_stopped s (ok s) (call b print event s)
        (idle-Refines b print n s h) (call-Refines event s carries h)

  steps-Refines :
      (events : List (SystemEvent Fields)) (s : System Address Fields)
      → All CarriesNone events
      → IsSound b print n s
      → Refines b print n s (steps b print events s)
  unfolding steps
  steps-Refines [] s carries h = idle-Refines b print n s h
  steps-Refines (event ∷ events) s (carries, carry) h =
      let (t, stepped, h', (first, inside, ran)) = step-Refines event s carries h in
      let (u, done, h'', (more, inside', ran')) = steps-Refines events t carry h' in
      (
        u,
        rw stepped done,
        h'',
        (
          first ++ more,
          All-append (IsInside n) first more inside inside',
          steps-append b print first more (view s) (view t) ran ∙ ran',
        ),
      )

module _ (b : Beast) (print : Printer) {Address : Type 0} where
  open b use {Fields}

  abbrev pub backends_of : Program Address Fields → ℕ
  backends_of p = size p.server.shared.upstream_pool

  begin-IsSound :
      (c : Configuration Address) (p : Program Address Fields)
      → IsReady c p
      → IsSound b print (backends_of p) (begin p)
  unfolding lookup
  begin-IsSound c p ready = record {
    going = ready.monitor_goes;
    balanced = record {
      healthy = record {
        items = [];
        represented = ready.empty_cache;
        backends = refl;
        labels = ready.labels;
        held = (Coalescer.create, ready.no_flight, tt);
      };
      named = λ i s found. cc;
      started = tt;
      once = λ id. ground (arith, ready.no_flight);
      flown = λ k. ground (arith, ready.no_flight);
    };
    under_way = tt;
    counted = ready.no_session;
    accepting = record {
      at_most_one = omega (arith, ready.accepts_one);
      goes_on = λ h. ready.accepts_one;
    };
  }

  -- When `main` serves, for arguments that it has read, and then any handlers are called, in any
  -- order and with any results but the reading of a TRACE request with a body, until a signal stops
  -- the context: no handler throws and none is undefined; what has become of the sessions is a
  -- history of the service, with marks on backends of the pool; and all is in order: the rounds of
  -- checks go on, the sessions are in balance, every proxy has an operation under way, every socket
  -- accepted has its session, and one accept is under way as long as the server is open. The parser
  -- of addresses returns or throws.
  pub main-Refines :
      (make_address : Text → Outcome Address) (hardware : ℕ) (errors : AcceptorErrors)
      (arguments : List Text) (p : Program Address Fields) (events : List (SystemEvent Fields))
      → ((text : Text) → Ends (make_address text))
      → All CarriesNone events
      → main make_address hardware errors arguments ≡ serves p
      → Refines b print (backends_of p) (begin p) (steps b print events (begin p))
  main-Refines make_address hardware errors arguments p events ends carries runs =
      elim (main_lem make_address hardware ends Fields errors arguments) [
        | inl (exited, why) ↦ cc
        | inr (c, q, read, fine, serving, ready) ↦
            let same : q ≡ p = cc in
            steps-Refines b print (backends_of p) events (begin p) carries
              (begin-IsSound c p (subst (IsReady c) same ready))
      ]
