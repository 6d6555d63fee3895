-- ===== src/System/Examples.antt =====
-- The program without arguments, and one in which a second client waits for the first one's answer.
use eventedge.Base.{
  ℕ, ◌≡◌, refl, inl, true, false, List, [], ◌∷◌, ◌++◌, none, some, Text, codes, Outcome, ok,
  get_elem?, arith,
}
use eventedge.Http.{HttpRequest, HttpResponse}
use eventedge.Http.ListBeast.{Headers, list_beast}
use eventedge.Upstream.{UpstreamEndpoint}
use eventedge.Cache.Refines.{empty_cache}
use eventedge.Proxy
use eventedge.Proxy.{UpstreamProxy, Event, resolved, resolves, failure, timeout, default_timeouts}
use eventedge.Proxy.Once.{responses, IsRunning}
use eventedge.Monitor.{default_options}
use eventedge.Monitor.History.{begin-IsGoing}
use eventedge.Server.{no_errors}
use eventedge.Session.{Clock}
use eventedge.Args.{Configuration}
use eventedge.Main.{Program, serves, main, default_cache}
use eventedge.Main.Ready.{built}
use eventedge.Service.Examples.{
  printer, page_request, shared_request, shared_request-IsBalanced, clock,
}
use eventedge.Service.World.{read}
use eventedge.System.State.{
  relays, System, SystemEvent, accepted, handled, relayed, timed, signalled, begin, steps,
}
use eventedge.System.Sound.{IsSound}
use eventedge.System.Refines.{Refines}
use eventedge.System.History.{main-Refines}
use eventedge.System.Waiting.{IsServed}
use eventedge.System.Served.{relays_all, events_of, waiting-IsServed}

abbrev as_written : Text → Outcome Text
as_written t = ok t

abbrev first_run : Configuration Text
first_run = record {
  address = codes "127.0.0.1";
  port = 8080;
  worker_count = 8;
  upstreams = record { host = codes "127.0.0.1"; port = 9000 } ∷ [];
}

abbrev program : Program Text Headers
program =
    built Headers first_run
      (record {
        backends =
            record { endpoint = record { host = codes "127.0.0.1"; port = 9000 }; healthy = true }
            ∷ [];
        next_index = 0;
      })
      (empty_cache default_cache)

program_serves : main as_written 8 no_errors [] ≡ serves program
unfolding main eventedge.Main.launch eventedge.Args.read_arguments eventedge.Main.catch_all
    eventedge.Main.assemble eventedge.Upstream.create eventedge.Cache.create
    eventedge.Metrics.Registry.create eventedge.Metrics.Registry.label_from
    eventedge.Upstream.endpoint eventedge.Server.create_server eventedge.Server.metrics_or_new
    eventedge.Server.throw_if_error eventedge.Args.default_worker_count
program_serves = refl

abbrev history : List (SystemEvent Headers)
history =
    accepted false
    ∷ handled 0 clock (read none page_request)
    ∷ timed false
    ∷ relayed 0 clock (resolved (some timeout))
    ∷ signalled false
    ∷ []

main-Refines_example :
    Refines list_beast printer 1 (begin program) (steps list_beast printer history (begin program))
unfolding eventedge.Server.run eventedge.Server.do_accept
main-Refines_example =
    main-Refines list_beast printer as_written 8 no_errors [] program history (λ t. inl (t, refl))
      (tt, (refl, (tt, (tt, (tt, tt))))) program_serves

-- The proxy of the first client's request, which resolves its upstream.
abbrev started : UpstreamProxy Headers
started =
    record (Proxy.create list_beast (record { host = codes "a"; port = 1 }) page_request
      default_timeouts) { outstanding = some resolves }

abbrev sharing : System Text Headers
sharing = record {
  program = record program {
    server = record program.server { shared = shared_request.shared; sessions = 2 };
  };
  checks = [];
  sessions = shared_request.sessions;
  tasks =
      (
        0,
        relays (record { host = codes "a"; port = 1 }) page_request (some (codes "/page")) started,
      )
      ∷ [];
  ended = [];
}

sharing-IsSound : IsSound list_beast printer 1 sharing
unfolding Proxy.run Proxy.create eventedge.Server.run eventedge.Server.do_accept
sharing-IsSound = record {
  going =
      begin-IsGoing default_options
        (record {
          upstream_pool = shared_request.shared.upstream_pool;
          metrics = some shared_request.shared.metrics;
        })
        (omega arith);
  balanced = shared_request-IsBalanced;
  under_way = (record { operation = resolves; awaited = refl; held = refl; open_still = refl }, tt);
  counted = refl;
  accepting = record { at_most_one = omega arith; goes_on = λ h. refl };
}

waiting-IsServed_example :
    (k : ℕ) × (i : ℕ) × (upstream : UpstreamEndpoint) × (request : HttpRequest Headers)
    × (key : Text) × (p : UpstreamProxy Headers) × (get_elem? sharing.tasks k
        ≡ some (i, relays upstream request (some key) p))
    × IsRunning list_beast p
    × ((es : List (Clock × Event Headers)) (clock' : Clock) (event : Event Headers)
          (response : HttpResponse Headers)
        → responses (Proxy.steps list_beast p (events_of es)).1 ≡ []
        → responses (Proxy.step list_beast (Proxy.steps list_beast p (events_of es)).0 event).1
          ≡ response ∷ []
        → (s' : System Text Headers) × (steps list_beast printer
              (relays_all k es ++ (relayed k clock' event ∷ []))
              sharing
            ≡ ok s')
          × IsServed 1 response s')
waiting-IsServed_example =
    waiting-IsServed list_beast printer 1 sharing 1 sharing-IsSound refl (omega arith) refl refl
