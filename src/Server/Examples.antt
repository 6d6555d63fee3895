-- ===== src/Server/Examples.antt =====
-- A server that accepts two sockets, one of them behind an error, and is stopped.
use eventedge.Base.{
  ℕ, ◌≡◌, refl, true, false, List, [], ◌∷◌, none, some, codes, ok, throw, system_error,
  if◌then◌else◌,
}
use eventedge.Http.{HttpResponse}
use eventedge.Upstream.{UpstreamPool}
use eventedge.Cache.{ResponseCache}
use eventedge.Coalescer
use eventedge.Metrics.{start}
use eventedge.Server.Acceptor.{
  AcceptorErrors, HttpServer, create_server, ServerEvent, accepts, stops, run, react_all,
}
use eventedge.Server.Loop.{
  any_error, metrics_given, served, served_last, Accepts, create_server_lem, run-Accepts,
}

abbrev one_backend : UpstreamPool
one_backend = record {
  backends = record { endpoint = record { host = codes "a"; port = 1 }; healthy = true } ∷ [];
  next_index = 0;
}

abbrev empty_cache : ResponseCache (HttpResponse ℕ)
empty_cache = record {
  options = record { capacity = 2; ttl = 100 };
  lru = [];
  entries = [];
  next_node = 0;
}

abbrev port_taken : AcceptorErrors
port_taken = record { opening = false; setting_reuse = false; binding = true; listening = false }

create_server_lem_example :
    create_server port_taken 80 one_backend empty_cache Coalescer.create none ≡ (
      if any_error port_taken
      then throw system_error
      else ok (record {
        shared = record {
          upstream_pool = one_backend;
          response_cache = empty_cache;
          request_coalescer = some Coalescer.create;
          metrics = metrics_given one_backend none;
        };
        port = 80;
        is_open = true;
        accepting = 0;
        sessions = 0;
      }))
create_server_lem_example =
    create_server_lem port_taken 80 one_backend empty_cache Coalescer.create none

abbrev new_server : HttpServer ℕ
new_server = record {
  shared = record {
    upstream_pool = one_backend;
    response_cache = empty_cache;
    request_coalescer = some Coalescer.create;
    metrics = start [];
  };
  port = 80;
  is_open = true;
  accepting = 0;
  sessions = 0;
}

abbrev history : List ServerEvent
history = accepts false ∷ accepts true ∷ stops ∷ accepts false ∷ accepts false ∷ []

two_served : served history ≡ 2
unfolding served served_last
two_served = refl

run-Accepts_example : Accepts new_server history (react_all history (run new_server))
run-Accepts_example = run-Accepts new_server history refl refl refl
