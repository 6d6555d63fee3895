-- ===== src/Service/Examples.antt =====
-- Two clients ask for one page: the second waits for the answer to the first.
use mathlib.Core.Option.{some-injective}
use eventedge.Base.{
  ap, sym, ℕ, zero, suc, get_elem?, ◌≡◌, refl, true, false, [], ◌∷◌, List, none, some, Text, codes,
  ok, lookup, arith,
}
use eventedge.Http.{HttpRequest, HttpResponse, Verb, has_trace_body}
use eventedge.Http.ListBeast.{Headers, list_beast}
use eventedge.Cache.{ResponseCache}
use eventedge.Cache.Refines.{Represents, empty_cache, empty_cache-Represents}
use eventedge.Metrics.{start}
use eventedge.Upstream.{UpstreamEndpoint}
use eventedge.Metrics.Render.{Printer}
use eventedge.Session.{HttpSession, proxy, Clock}
use eventedge.Service.World.{
  World, read, answered, WorldEvent, connects, delivers, marks, step, steps,
}
use eventedge.Service.Balance.{IsBalanced}
use eventedge.Service.History.{steps-IsBalanced}
use eventedge.Service.Answer.{Answers, waiting-Answered}

abbrev pub printer : Printer
printer = record { bound = λ n. codes "b"; sum = λ n. codes "s" }

abbrev pub page_request : HttpRequest Headers
page_request = record {
  method = Verb.get;
  target = codes "/page";
  version = 11;
  fields = [];
  body = [];
}

abbrev pub page : HttpResponse Headers
page = record { status = 200; version = 11; fields = []; body = codes "page" }

abbrev no_entries : ResponseCache (HttpResponse Headers)
no_entries = empty_cache (record { capacity = 2; ttl = 100 })

no_entries-Represents : Represents no_entries []
no_entries-Represents = empty_cache-Represents (record { capacity = 2; ttl = 100 }) (omega arith)

abbrev pub fresh : World Headers
fresh = record {
  shared = record {
    upstream_pool = record {
      backends = record { endpoint = record { host = codes "a"; port = 1 }; healthy = true } ∷ [];
      next_index = 0;
    };
    response_cache = no_entries;
    request_coalescer = some (record { flights = [] });
    metrics = start (record { label = codes "a:1"; selections = 0 } ∷ []);
  };
  sessions = [];
  work = [];
  ended = [];
}

pub fresh-IsBalanced : IsBalanced list_beast printer 1 fresh
unfolding start lookup
fresh-IsBalanced = record {
  healthy = record {
    items = [];
    represented = no_entries-Represents;
    backends = refl;
    labels = omega arith;
    held = (record { flights = [] }, refl, tt);
  };
  named = λ i s found. cc;
  started = tt;
  once = λ id. ground arith;
  flown = λ k. refl;
}

abbrev pub clock : Clock
clock = record { entered = 5; cached = 6; written = 7 }

abbrev history : List (WorldEvent Headers)
history =
    connects
    ∷ connects
    ∷ delivers 0 clock (read none page_request)
    ∷ delivers 0 clock (read none page_request)
    ∷ marks 0 false
    ∷ delivers 0 clock (answered page)
    ∷ []

steps-IsBalanced_example :
    (world' : World Headers) × (steps list_beast printer history fresh ≡ ok world')
    × IsBalanced list_beast printer 1 world'
steps-IsBalanced_example =
    steps-IsBalanced list_beast printer 1 history fresh
      (tt, (tt, (refl, (refl, (omega arith, (tt, tt)))))) fresh-IsBalanced

-- The first client's request is with the backend, and the second client's waits for it.
abbrev pub shared_request : World Headers
shared_request = record fresh {
  shared = record fresh.shared {
    request_coalescer = some (record { flights = (codes "/page", 1 ∷ []) ∷ [] });
  };
  sessions =
      record { id = 0; request = page_request; request_started = 5 }
      ∷ record { id = 1; request = page_request; request_started = 5 }
      ∷ [];
  work =
      (0, proxy (record { host = codes "a"; port = 1 }) page_request (some (codes "/page"))) ∷ [];
}

two_named :
    (i : ℕ) (s : HttpSession Headers)
    → get_elem? shared_request.sessions i ≡ some s
    → (s.id ≡ i) × (has_trace_body s.request ≡ false)
two_named zero s found = (cc, ap (λ x. has_trace_body x.request) (sym (some-injective _ _ found)))
two_named (suc zero) s found =
    (cc, ap (λ x. has_trace_body x.request) (sym (some-injective _ _ found)))
two_named (suc (suc i)) s found = cc

pub shared_request-IsBalanced : IsBalanced list_beast printer 1 shared_request
unfolding start lookup
shared_request-IsBalanced = record {
  healthy = record {
    items = [];
    represented = no_entries-Represents;
    backends = refl;
    labels = omega arith;
    held = (record { flights = (codes "/page", 1 ∷ []) ∷ [] }, refl, (refl, tt));
  };
  named = two_named;
  started = (refl, tt);
  once = λ id. ground arith;
  flown = λ k. ground arith;
}

waiting-Answered_example :
    (p : ℕ) × (i : ℕ) × (endpoint : UpstreamEndpoint) × (request : HttpRequest Headers) × (k : Text)
    × (get_elem? shared_request.work p ≡ some (i, proxy endpoint request (some k)))
    × ((clock : Clock) (response : HttpResponse Headers)
        → (world' : World Headers) × (step list_beast printer
              (delivers p clock (answered response))
              shared_request
            ≡ ok world')
          × Answers 1 response world')
waiting-Answered_example =
    waiting-Answered list_beast printer 1 shared_request 1 shared_request-IsBalanced (omega arith)
      refl refl
