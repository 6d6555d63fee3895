-- ===== src/Args/Parse.antt =====
-- `parse_port`, `parse_worker_count`, `parse_upstream` and the reading of `argv`.
use Prim.Native.Nat.{max}
use eventedge.Base.{
  ℕ, ◌+◌, ◌-◌, ◌%◌, ◌^◌, Bool, true, false, not, ◌||◌, List, [], ◌∷◌, Option, none, some, Text,
  codes, Outcome, ok, throw, undefined, runtime_error, ◌>>=◌, length, get_elem?, find, rfind,
  substr, substr_from, leb, ltb, ◌==◌, if◌then◌else◌,
}
use eventedge.Decimal.{from_chars, Errc, success}
use eventedge.Upstream.{UpstreamEndpoint}

abbrev pub failed : Errc → Bool
failed success = false
failed _ = true

abbrev pub is_empty : Text → Bool
is_empty [] = true
is_empty (c ∷ s) = false

-- The cast to `std::uint16_t` keeps the low 16 bits.
unfoldable pub parse_port : Text → Outcome ℕ
parse_port value =
    let r = from_chars value 0 in
    if failed r.ec || (not (is_empty r.ptr) || (r.value == 0 || ltb 65535 r.value))
    then throw runtime_error
    else ok (r.value % 2 ^ 16)

unfoldable pub parse_worker_count : Text → Outcome ℕ
parse_worker_count value =
    let r = from_chars value 0 in
    if failed r.ec || (not (is_empty r.ptr) || r.value == 0)
    then throw runtime_error
    else ok r.value

-- `hardware` is what `std::thread::hardware_concurrency` returns.
unfoldable pub default_worker_count : ℕ → ℕ
default_worker_count hardware = max 1 hardware

abbrev pub starts_with : ℕ → Text → Bool
starts_with c [] = false
starts_with c (x ∷ s) = x == c

-- The end of `parse_upstream`, once the host and the port are found.
unfoldable pub make_upstream : Text → Text → Outcome UpstreamEndpoint
make_upstream host port =
    if is_empty host
    then throw runtime_error
    else (do number ← parse_port port; ok (record { host = host; port = number }))

-- `[ipv6-address]:port`, given the place of the closing bracket.
unfoldable pub parse_bracketed : Text → ℕ → Outcome UpstreamEndpoint
parse_bracketed value closing =
    if leb (length value) (closing + 1)
    then throw runtime_error
    else elim (get_elem? value (closing + 1)) [
      | none ↦ undefined
      | some c ↦ if not (c == b':') then throw runtime_error else (do
        host ← substr 1 (closing - 1) value
        port ← substr_from (closing + 2) value
        make_upstream host port)
    ]

abbrev pub is_at : Option ℕ → ℕ → Bool
is_at none i = false
is_at (some j) i = j == i

-- `host:port`, given the place of the last colon.
unfoldable pub parse_plain : Text → ℕ → Outcome UpstreamEndpoint
parse_plain value separator =
    if not (is_at (find b':' value) separator) then throw runtime_error else (do
      host ← substr 0 separator value
      port ← substr_from (separator + 1) value
      make_upstream host port)

unfoldable pub parse_upstream : Text → Outcome UpstreamEndpoint
parse_upstream value =
    if starts_with b'[' value
    then elim (find b']' value) [
      | none ↦ throw runtime_error
      | some closing ↦ parse_bracketed value closing
    ]
    else elim (rfind b':' value) [
      | none ↦ throw runtime_error
      | some separator ↦ parse_plain value separator
    ]

unfoldable pub parse_upstreams : List Text → Outcome (List UpstreamEndpoint)
parse_upstreams [] = ok []
parse_upstreams (argument ∷ arguments) = do
  e ← parse_upstream argument
  es ← parse_upstreams arguments
  ok (e ∷ es)

-- What `main` starts the server with.
pub record Configuration (Address : Type 0) : Type 0 where
  pub address : Address
  pub port : ℕ
  pub worker_count : ℕ
  pub upstreams : List UpstreamEndpoint

pub data Startup (Address : Type 0) : Type 0 where
  usage : Startup Address
  configured : Outcome (Configuration Address) → Startup Address

-- The arguments behind `argv[0]`. `make_address` is Boost's parser of IP addresses.
module _ {Address : Type 0} (make_address : Text → Outcome Address) (hardware : ℕ) where
  unfoldable pub read_arguments : List Text → Startup Address
  read_arguments [] = configured (do
    address ← make_address (codes "127.0.0.1")
    ok (record {
      address = address;
      port = 8080;
      worker_count = default_worker_count hardware;
      upstreams = record { host = codes "127.0.0.1"; port = 9000 } ∷ [];
    }))
  read_arguments (listen_address ∷ listen_port ∷ workers ∷ upstream ∷ more) = configured (do
    address ← make_address listen_address
    port ← parse_port listen_port
    worker_count ← parse_worker_count workers
    upstreams ← parse_upstreams (upstream ∷ more)
    ok (record {
      address = address;
      port = port;
      worker_count = worker_count;
      upstreams = upstreams;
    }))
  read_arguments _ = usage
