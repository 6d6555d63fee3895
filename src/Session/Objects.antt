-- ===== src/Session/Objects.antt =====
-- What a session holds, shares and starts, and the search for a word in a text.
use eventedge.Base.{ℕ, Bool, true, false, ◌&&◌, ◌||◌, List, [], ◌∷◌, map, Option, Text, ◌==◌}
use eventedge.Http.{HttpRequest, HttpResponse}
use eventedge.Upstream.{UpstreamEndpoint, UpstreamPool}
use eventedge.Cache.{ResponseCache}
use eventedge.Coalescer.{RequestCoalescer}
use eventedge.Metrics.{MetricsRegistry}

-- `value.find(word) != npos`
unfoldable pub has_prefix : Text → Text → Bool
has_prefix [] text = true
has_prefix (c ∷ word) [] = false
has_prefix (c ∷ word) (d ∷ text) = (c == d) && has_prefix word text

unfoldable pub contains : Text → Text → Bool
contains word [] = has_prefix word []
contains word (d ∷ text) = has_prefix word (d ∷ text) || contains word text

pub data ReadError : Type 0 where
  end_of_stream failed : ReadError

-- A waiter is the session that it calls back, by its number. `request_coalescer` is `none` when the
-- coalescer that the weak pointer named is gone.
pub record Shared (F : Type 0) : Type 0 where
  pub upstream_pool : UpstreamPool
  pub response_cache : ResponseCache (HttpResponse F)
  pub request_coalescer : Option (RequestCoalescer ℕ)
  pub metrics : MetricsRegistry

pub record HttpSession (F : Type 0) : Type 0 where
  pub id : ℕ
  pub request : HttpRequest F
  pub request_started : ℕ

-- What a handler starts: a read, a write that may end the connection, a task that answers another
-- session, a proxy that answers for this one, and for the flight of a key if there is one.
pub data Work (F : Type 0) : Type 0 where
  read_request shutdown_send : Work F
  write : HttpResponse F → Bool → Work F
  post : ℕ → HttpResponse F → Work F
  proxy : UpstreamEndpoint → HttpRequest F → Option Text → Work F

-- The readings of the clock in one handler, in nanoseconds: on entry, in the cache, in a write.
pub record Clock : Type 0 where
  pub entered : ℕ
  pub cached : ℕ
  pub written : ℕ

abbrev pub flight_calls : {F : Type 0} → List (ℕ × HttpResponse F) → List (Work F)
flight_calls calls = map (λ c. post c.0 c.1) calls
