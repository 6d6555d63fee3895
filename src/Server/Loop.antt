-- ===== src/Server/Loop.antt =====
-- The constructor on every outcome of the acceptor's calls, and the accept loop.
use eventedge.Base.{
  ℕ, ◌+◌, ◌≤◌, ◌≡◌, refl, sym, ap, ◌∙◌, Bool, true, false, ◌||◌, List, [], ◌∷◌, Option, none, some,
  ok, throw, system_error, ◌>>=◌, if◌then◌else◌, arith,
}
use mathlib.Core.Path.{subst}
use eventedge.Http.{HttpResponse}
use eventedge.Upstream.{UpstreamPool}
use eventedge.Cache.{ResponseCache}
use eventedge.Coalescer.{RequestCoalescer}
use eventedge.Metrics.{MetricsRegistry, start}
use eventedge.Metrics.Labels.{labelled, create-start}
use eventedge.Server.Acceptor.{
  AcceptorErrors, HttpServer, throw_if_error, metrics_or_new, create_server, do_accept, run, stop,
  on_accept, ServerEvent, accepts, stops, accept, react, react_all,
}

abbrev pub any_error : AcceptorErrors → Bool
any_error e = e.opening || (e.setting_reuse || (e.binding || e.listening))

abbrev pub metrics_given : UpstreamPool → Option MetricsRegistry → MetricsRegistry
metrics_given pool none = start (labelled pool.backends)
metrics_given pool (some m) = m

metrics_or_new_lem :
    (pool : UpstreamPool) (metrics : Option MetricsRegistry)
    → metrics_or_new pool metrics ≡ ok (metrics_given pool metrics)
unfolding metrics_or_new
metrics_or_new_lem pool none = create-start pool
metrics_or_new_lem pool (some m) = refl

set_up :
    {A : Type 0} (o s b l : Bool) (a : A)
    → ◌>>=◌ {B = A} (throw_if_error o) (λ _.
      ◌>>=◌ {B = A}
        (throw_if_error s)
        (λ _. ◌>>=◌ {B = A} (throw_if_error b) (λ _. ◌>>=◌ {B = A} (throw_if_error l) (λ _. ok a))))
      ≡ (if o || (s || (b || l)) then throw system_error else ok a)
unfolding throw_if_error
set_up true s b l a = refl
set_up false true b l a = refl
set_up false false true l a = refl
set_up false false false true a = refl
set_up false false false false a = refl

-- How many sockets are accepted: those without an error, as long as the acceptor is open; and after
-- it is closed, that of the one handler that was still to be called.
abbrev pub one_unless : Bool → ℕ
one_unless true = 0
one_unless false = 1

unfoldable pub served_last : List ServerEvent → ℕ
served_last [] = 0
served_last (accepts error ∷ events) = one_unless error
served_last (stops ∷ events) = served_last events

unfoldable pub served : List ServerEvent → ℕ
served [] = 0
served (accepts error ∷ events) = one_unless error + served events
served (stops ∷ events) = served_last events

unfoldable pub no_stop : List ServerEvent → Bool
no_stop [] = true
no_stop (accepts error ∷ events) = no_stop events
no_stop (stops ∷ events) = false

module _ {F : Type 0} where
  -- The constructor throws exactly if one of the acceptor's calls fails; else the server is open, has
  -- accepted nothing, and shares what it was given, with a registry of its own, labelled with the
  -- pool's backends, where it was given none.
  pub create_server_lem :
      (errors : AcceptorErrors) (port : ℕ) (pool : UpstreamPool)
      (cache : ResponseCache (HttpResponse F)) (coalescer : RequestCoalescer ℕ)
      (metrics : Option MetricsRegistry)
      → create_server errors port pool cache coalescer metrics ≡ (
          if any_error errors
          then throw system_error
          else ok (record {
            shared = record {
              upstream_pool = pool;
              response_cache = cache;
              request_coalescer = some coalescer;
              metrics = metrics_given pool metrics;
            };
            port = port;
            is_open = true;
            accepting = 0;
            sessions = 0;
          }))
  unfolding create_server
  create_server_lem errors port pool cache coalescer metrics =
      rw (metrics_or_new_lem pool metrics)
        (set_up errors.opening errors.setting_reuse errors.binding errors.listening _)

  -- A server in its loop.
  abbrev server : HttpServer F → Bool → ℕ → ℕ → HttpServer F
  server s is_open accepting sessions = record s {
    is_open = is_open;
    accepting = accepting;
    sessions = sessions;
  }

  idle_events :
      (events : List ServerEvent) (s : HttpServer F) (n : ℕ)
      → react_all events (server s false 0 n) ≡ server s false 0 n
  unfolding react_all react accept stop
  idle_events [] s n = refl
  idle_events (accepts error ∷ events) s n = idle_events events s n
  idle_events (stops ∷ events) s n = idle_events events s n

  -- What a history leaves: the shared objects and the port, as many sessions more as sockets were
  -- accepted, and one accept under way as long as the acceptor is open, never two.
  pub record Accepts (s : HttpServer F) (events : List ServerEvent) (s' : HttpServer F)
      : Type 0 where
    pub same_shared : s'.shared ≡ s.shared
    pub same_port : s'.port ≡ s.port
    pub counted : s'.sessions ≡ s.sessions + served events
    pub open_still : s'.is_open ≡ no_stop events
    pub going : s'.is_open ≡ true → s'.accepting ≡ 1
    pub at_most_one : s'.accepting ≤ 1

  closed_events :
      (events : List ServerEvent) (s : HttpServer F) (n : ℕ)
      → (accepting : ℕ) × (accepting ≤ 1)
        × (react_all events (server s false 1 n)
            ≡ server s false accepting (n + served_last events))
  unfolding react_all react accept on_accept stop served_last
  closed_events [] s n = (1, omega arith, ap (server s false 1) (omega arith))
  closed_events (accepts true ∷ events) s n =
      (0, omega arith, idle_events events s n ∙ ap (server s false 0) (omega arith))
  closed_events (accepts false ∷ events) s n = (0, omega arith, idle_events events s (n + 1))
  closed_events (stops ∷ events) s n = closed_events events s n

  open_events :
      (events : List ServerEvent) (s : HttpServer F) (n : ℕ)
      → Accepts (server s true 1 n) events (react_all events (server s true 1 n))
  unfolding react_all react accept on_accept do_accept stop served no_stop
  open_events [] s n = record {
    same_shared = refl;
    same_port = refl;
    counted = omega arith;
    open_still = refl;
    going = λ h. refl;
    at_most_one = omega arith;
  }
  open_events (accepts true ∷ events) s n =
      let rest = open_events events s n in
      record {
        same_shared = rest.same_shared;
        same_port = rest.same_port;
        counted = omega (arith, rest.counted);
        open_still = rest.open_still;
        going = rest.going;
        at_most_one = rest.at_most_one;
      }
  open_events (accepts false ∷ events) s n =
      let rest = open_events events s (n + 1) in
      record {
        same_shared = rest.same_shared;
        same_port = rest.same_port;
        counted = omega (arith, rest.counted);
        open_still = rest.open_still;
        going = rest.going;
        at_most_one = rest.at_most_one;
      }
  open_events (stops ∷ events) s n =
      let (accepting, few, same) = closed_events events s n in
      rw same (record {
        same_shared = refl;
        same_port = refl;
        counted = refl;
        open_still = refl;
        going = λ h. cc;
        at_most_one = few;
      })

  -- The accept loop of a new server that is run, whatever accept handlers are called and whenever it
  -- is stopped: one session is made for every socket accepted without an error, up to the one accept
  -- that `stop` leaves to be called; the server is open until it is stopped, an error of an accept
  -- does not end the loop, and one accept is under way as long as it is open, never two.
  pub run-Accepts :
      (s : HttpServer F) (events : List ServerEvent)
      → s.is_open ≡ true
      → s.accepting ≡ 0
      → s.sessions ≡ 0
      → Accepts s events (react_all events (run s))
  unfolding run do_accept
  run-Accepts s events is_open none_yet no_session =
      let new = server s true 0 0 in
      let done = open_events events s 0 in
      let from_new : Accepts new events (react_all events (run new)) = record {
        same_shared = done.same_shared;
        same_port = done.same_port;
        counted = done.counted;
        open_still = done.open_still;
        going = done.going;
        at_most_one = done.at_most_one;
      } in
      subst (λ x. Accepts x events (react_all events (run x)))
        (λ i. record s {
          is_open = sym is_open i;
          accepting = sym none_yet i;
          sessions = sym no_session i;
        })
        from_new
