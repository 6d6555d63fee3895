-- ===== src/Proxy/Host.antt =====
-- `upstream_host_header`: the Host field of a request to an upstream.
use eventedge.Base.{Text, find, ◌∷◌, ◌++◌, none, some}
use eventedge.Decimal.{to_string}
use eventedge.Upstream.{UpstreamEndpoint}

unfoldable pub upstream_host_header : UpstreamEndpoint → Text
upstream_host_header e = elim (find b':' e.host) [
  | some i ↦ b'[' ∷ (e.host ++ (b']' ∷ b':' ∷ to_string e.port))
  | none ↦ e.host ++ (b':' ∷ to_string e.port)
]
