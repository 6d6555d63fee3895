-- ===== src/Metrics/Rendering.antt =====
-- The text of the metrics can always be printed.
use eventedge.Base.{
  ℕ, ◌+◌, ◌≤◌, ◌≡◌, refl, List, [], ◌∷◌, some, Text, ok, get_elem?, get_elem?_total, length, arith,
}
use eventedge.Upstream.{Backend, UpstreamPool, size, is_healthy}
use eventedge.Metrics.Registry.{UpstreamMetrics, MetricsRegistry}
use eventedge.Metrics.Render.{Printer, render_upstreams, render}

is_healthy-ok :
    (pool : UpstreamPool) (i : ℕ) (backend : Backend)
    → get_elem? pool.backends i ≡ some backend
    → is_healthy pool i ≡ ok backend.healthy
unfolding is_healthy
is_healthy-ok pool i backend found = ground (arith, found)

-- The rendering reads the mark of every label's backend.
render_upstreams-ok :
    (vs : List UpstreamMetrics) (i : ℕ) (pool : UpstreamPool)
    → i + length vs ≤ size pool
    → (text : Text) × (render_upstreams i vs pool ≡ ok text)
unfolding render_upstreams
render_upstreams-ok [] i pool h = ([], refl)
render_upstreams-ok (v ∷ vs) i pool h =
    let (backend, found) = get_elem?_total pool.backends i (omega (arith, h)) in
    let (rest, rendered) = render_upstreams-ok vs (i + 1) pool (omega (arith, h)) in
    rw (is_healthy-ok pool i backend found, rendered) (_, refl)

pub render-ok :
    (print : Printer) (m : MetricsRegistry) (pool : UpstreamPool)
    → length m.upstreams ≤ size pool
    → (text : Text) × (render print m pool ≡ ok text)
unfolding render
render-ok print m pool h =
    let (text, rendered) = render_upstreams-ok m.upstreams 0 pool (omega (arith, h)) in
    rw rendered (_, refl)
