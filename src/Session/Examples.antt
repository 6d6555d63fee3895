-- ===== src/Session/Examples.antt =====
-- A session that ends a flight with two waiters, a response that hides a word, and a TRACE request.
use eventedge.Base.{
  ℕ, length, ◌≡◌, refl, true, false, [], ◌∷◌, some, Text, Text-discrete, codes, none, ok, throw,
  invalid_argument, ◌⊎◌, lookup, erase, arith,
}
use eventedge.Http.{HttpRequest, HttpResponse, Verb}
use eventedge.Http.ListBeast.{Headers, list_beast}
use eventedge.Cache.{ResponseCache}
use eventedge.Cache.Refines.{Represents, empty_cache, empty_cache-Represents}
use eventedge.Coalescer.{RequestCoalescer}
use eventedge.Metrics.{start}
use eventedge.Metrics.Render.{Printer}
use eventedge.Session.Objects.{Shared, HttpSession, write, post, Clock}
use eventedge.Session.Routing.{on_read, complete_flight, cacheable_response}
use eventedge.Session.Storing.{MayBeStored, cacheable_response-MayBeStored}
use eventedge.Session.Traces.{on_read-throws}
use eventedge.Session.Flight.{IsStored, complete_flight-Represents}

abbrev printer : Printer
printer = record { bound = λ n. codes "b"; sum = λ n. codes "s" }

abbrev key : Text
key = codes "/live"

abbrev live_request : HttpRequest Headers
live_request = record { method = Verb.get; target = key; version = 11; fields = []; body = [] }

abbrev live_response : HttpResponse Headers
live_response = record { status = 200; version = 11; fields = []; body = codes "hello" }

abbrev no_entries : ResponseCache (HttpResponse Headers)
no_entries = empty_cache (record { capacity = 2; ttl = 100 })

no_entries-Represents : Represents no_entries []
no_entries-Represents = empty_cache-Represents (record { capacity = 2; ttl = 100 }) (omega arith)

abbrev in_flight : RequestCoalescer ℕ
in_flight = record { flights = (key, 7 ∷ 8 ∷ []) ∷ [] }

abbrev shared : Shared Headers
shared = record {
  upstream_pool = record {
    backends = record { endpoint = record { host = codes "a"; port = 1 }; healthy = true } ∷ [];
    next_index = 0;
  };
  response_cache = no_entries;
  request_coalescer = some in_flight;
  metrics = start (record { label = codes "a:1"; selections = 0 } ∷ []);
}

abbrev session : HttpSession Headers
session = record { id = 9; request = live_request; request_started = 0 }

abbrev clock : Clock
clock = record { entered = 5; cached = 6; written = 7 }

complete_flight-Represents_example :
    (w' : Shared Headers) × (complete_flight list_beast printer clock key live_response true session
        shared
      ≡ ok (
        session,
        w',
        post 7 live_response ∷ post 8 live_response ∷ write live_response false ∷ [],
      ))
    × (w'.request_coalescer ≡ some (record { flights = erase Text-discrete key in_flight.flights }))
    × (w'.upstream_pool ≡ shared.upstream_pool)
    × (length w'.metrics.upstreams ≡ length shared.metrics.upstreams)
    × IsStored list_beast printer clock key live_response true no_entries [] w'.response_cache
unfolding lookup Text-discrete
complete_flight-Represents_example =
    complete_flight-Represents list_beast printer clock key live_response true session shared []
      in_flight (7 ∷ 8 ∷ []) live_response no_entries-Represents refl refl refl

-- A response whose Cache-Control has the word in the middle.
abbrev hidden_response : HttpResponse Headers
hidden_response = record live_response {
  fields = (codes "Cache-Control", codes "max-age=5, no-store, x") ∷ [];
}

cacheable_response-MayBeStored_example :
    ((cacheable_response list_beast printer hidden_response ≡ true)
      × MayBeStored list_beast printer hidden_response)
    ⊎ ((cacheable_response list_beast printer hidden_response ≡ false)
        × (¬ (MayBeStored list_beast printer hidden_response)))
cacheable_response-MayBeStored_example =
    cacheable_response-MayBeStored list_beast printer hidden_response

abbrev trace_request : HttpRequest Headers
trace_request = record {
  method = Verb.trace;
  target = codes "/echo";
  version = 11;
  fields = [];
  body = codes "x";
}

on_read-throws_example :
    on_read list_beast printer clock none trace_request session shared ≡ throw invalid_argument
on_read-throws_example =
    on_read-throws list_beast printer clock trace_request session shared 0
      (record { endpoint = record { host = codes "a"; port = 1 }; healthy = true }) refl (λ e. cc)
      (λ e. cc) (record { inhabited = omega arith; in_range = omega arith }) refl refl
