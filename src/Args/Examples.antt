-- ===== src/Args/Examples.antt =====
-- Arguments as a user writes them.
use Prim.Native.Nat.{max}
use eventedge.Base.{
  ℕ, List, ◌∷◌, length, Text, Outcome, ◌≡◌, ◌≢◌, refl, ◌⊎◌, [], codes, ok, throw, runtime_error,
  arith, find, rfind, substr, substr_from,
}
use eventedge.Decimal.{scan, from_chars}
use eventedge.Upstream.{UpstreamEndpoint}
use eventedge.Proxy.{upstream_host_header}
use eventedge.Args.Parse.{
  Configuration, configured, read_arguments, parse_upstreams, parse_port, parse_worker_count,
  parse_upstream, parse_plain, parse_bracketed, make_upstream,
}
use eventedge.Args.Ports.{IsPort, IsWorkerCount, parse_port_lem, parse_worker_count_lem}
use eventedge.Args.Ranges.{IsInRange, read_arguments-IsInRange}
use eventedge.Args.Upstreams.{IsUpstream, parse_upstream_lem, parse_upstream-upstream_host_header}

trailing : parse_port (codes "80x") ≡ throw runtime_error
unfolding parse_port from_chars scan
trailing = refl

leading_zeros : parse_port (codes "00080") ≡ ok 80
unfolding parse_port from_chars scan
leading_zeros = refl

bare_ipv6 : parse_upstream (codes "::1:9000") ≡ throw runtime_error
unfolding parse_upstream parse_plain find rfind
bare_ipv6 = refl

in_brackets : parse_upstream (codes "[::1]:9000") ≡ ok (record { host = codes "::1"; port = 9000 })
unfolding parse_upstream parse_bracketed make_upstream parse_port from_chars scan find substr
    substr_from
in_brackets = refl

parse_port_lem_example :
    ((p : ℕ) × IsPort (codes "8080") p × (parse_port (codes "8080") ≡ ok p))
    ⊎ (((p : ℕ) → ¬ IsPort (codes "8080") p) × (parse_port (codes "8080") ≡ throw runtime_error))
parse_port_lem_example = parse_port_lem (codes "8080")

parse_worker_count_lem_example :
    ((n : ℕ) × IsWorkerCount (codes "4294967296") n
      × (parse_worker_count (codes "4294967296") ≡ ok n))
    ⊎ (((n : ℕ) → ¬ IsWorkerCount (codes "4294967296") n)
        × (parse_worker_count (codes "4294967296") ≡ throw runtime_error))
parse_worker_count_lem_example = parse_worker_count_lem (codes "4294967296")

parse_upstream_lem_example :
    ((e : UpstreamEndpoint) × IsUpstream (codes "[::1]:9000") e
      × (parse_upstream (codes "[::1]:9000") ≡ ok e))
    ⊎ (((e : UpstreamEndpoint) → ¬ IsUpstream (codes "[::1]:9000") e)
        × (parse_upstream (codes "[::1]:9000") ≡ throw runtime_error))
parse_upstream_lem_example = parse_upstream_lem (codes "[::1]:9000")

abbrev local : UpstreamEndpoint
local = record { host = codes "::1"; port = 9000 }

local_host_ne : local.host ≢ []
local_host_ne e = cc

parse_upstream-upstream_host_header_example : parse_upstream (upstream_host_header local) ≡ ok local
parse_upstream-upstream_host_header_example =
    parse_upstream-upstream_host_header local local_host_ne (refl, (refl, (refl, tt))) refl
      (omega arith) (omega arith)

-- A library that reads every address as its text.
abbrev four_arguments : List Text
four_arguments = codes "::1" ∷ codes "80" ∷ codes "2" ∷ codes "[::1]:9000" ∷ []

abbrev as_text : Text → Outcome Text
as_text = ok

abbrev four_configuration : Configuration Text
four_configuration = record {
  address = codes "::1";
  port = 80;
  worker_count = 2;
  upstreams = record { host = codes "::1"; port = 9000 } ∷ [];
}

four_read : read_arguments as_text 8 four_arguments ≡ configured (ok four_configuration)
unfolding read_arguments parse_port parse_worker_count parse_upstreams parse_upstream
    parse_bracketed make_upstream from_chars scan find substr substr_from
four_read = refl

read_arguments-IsInRange_example :
    IsInRange four_configuration × (length four_configuration.upstreams ≡ max 1 1)
read_arguments-IsInRange_example =
    read_arguments-IsInRange as_text 8 four_arguments four_configuration (omega arith) four_read
