-- ===== src/Args/Ranges.antt =====
-- The configuration that `main` reads is one that the rest of the program can work with.
use Prim.Native.Nat.{max}
use mathlib.Core.Path.{subst}
use eventedge.Base.{
  ℕ, ◌^◌, ◌≤◌, ◌<◌, ◌-◌, codes, ◌≡◌, ◌≢◌, refl, inl, inr, List, [], ◌∷◌, Text, Outcome, ok,
  ok_of_bind, length, All, arith,
}
use eventedge.Upstream.{UpstreamEndpoint}
use eventedge.Args.Parse.{
  Configuration, configured, read_arguments, default_worker_count, parse_port, parse_worker_count,
  parse_upstream, parse_upstreams,
}
use eventedge.Args.Ports.{parse_port_lem, parse_worker_count_lem}
use eventedge.Args.Upstreams.{IsUpstream, in_brackets, by_colon, parse_upstream_lem}

abbrev IsPortNumber : ℕ → Type 0
IsPortNumber p = (0 < p) × (p ≤ 65535)

abbrev pub IsReachable : UpstreamEndpoint → Type 0
IsReachable e = (e.host ≢ []) × IsPortNumber e.port

-- A port and a number of workers in range, and one upstream at least, each with a host and a port.
pub record IsInRange {Address : Type 0} (c : Configuration Address) : Type 0 where
  pub port : IsPortNumber c.port
  pub workers : (0 < c.worker_count) × (c.worker_count < 2 ^ 32)
  pub some_upstream : 0 < length c.upstreams
  pub reachable : All IsReachable c.upstreams

inner :
    {Address : Type 0} {o o' : Outcome (Configuration Address)}
    → configured o ≡ configured o'
    → o ≡ o'
inner h = cc

parse_port-range : (s : Text) (p : ℕ) → parse_port s ≡ ok p → IsPortNumber p
parse_port-range s p h = elim (parse_port_lem s) [
  | inl (q, (_, low, high), read) ↦
      let same : q ≡ p = cc in (omega (arith, same, low), omega (arith, same, high))
  | inr (_, thrown) ↦ cc
]

parse_worker_count-range : (s : Text) (n : ℕ) → parse_worker_count s ≡ ok n → (0 < n) × (n < 2 ^ 32)
parse_worker_count-range s n h = elim (parse_worker_count_lem s) [
  | inl (q, (_, low, high), read) ↦
      let same : q ≡ n = cc in (omega (arith, same, low), omega (arith, same, high))
  | inr (_, thrown) ↦ cc
]

IsUpstream-IsReachable : (s : Text) (e : UpstreamEndpoint) → IsUpstream s e → IsReachable e
IsUpstream-IsReachable s e (in_brackets port is lacks ne (_, low, high)) = (ne, (low, high))
IsUpstream-IsReachable s e (by_colon port is bare host_lacks lacks ne (_, low, high)) =
    (ne, (low, high))

parse_upstream-IsReachable :
    (s : Text) (e : UpstreamEndpoint) → parse_upstream s ≡ ok e → IsReachable e
parse_upstream-IsReachable s e h = elim (parse_upstream_lem s) [
  | inl (e', is, read) ↦ let same : e' ≡ e = cc in rw same at (IsUpstream-IsReachable s e' is)
  | inr (_, thrown) ↦ cc
]

-- One upstream is read from each argument.
parse_upstreams-IsReachable :
    (ss : List Text) (es : List UpstreamEndpoint)
    → parse_upstreams ss ≡ ok es
    → All IsReachable es × (length es ≡ length ss)
unfolding parse_upstreams
parse_upstreams-IsReachable [] es h =
    let same : [] ≡ es = cc in subst (λ l. All IsReachable l × (length l ≡ 0)) same (tt, refl)
parse_upstreams-IsReachable (s ∷ ss) es h =
    let (e, read, rest) = ok_of_bind (parse_upstream s) _ es h in
    let (es', read', built) = ok_of_bind (parse_upstreams ss) _ es rest in
    let (all, same) = parse_upstreams-IsReachable ss es' read' in
    let same_es : e ∷ es' ≡ es = cc in
    subst (λ l. All IsReachable l × (length l ≡ length (s ∷ ss))) same_es
      ((parse_upstream-IsReachable s e read, all), omega (arith, same))

module _ {Address : Type 0} (make_address : Text → Outcome Address) (hardware : ℕ) where
  abbrev chosen : Address → ℕ → ℕ → List UpstreamEndpoint → Configuration Address
  chosen address port workers es = record {
    address = address;
    port = port;
    worker_count = workers;
    upstreams = es;
  }

  abbrev first_run : Address → Configuration Address
  first_run address =
      chosen address 8080 (max 1 hardware) (record { host = codes "127.0.0.1"; port = 9000 } ∷ [])

  -- Whatever the arguments, if `main` reads a configuration from them, then its port is from 1 to
  -- 65535, its workers are at least one and fit an `unsigned int`, it has an upstream for each
  -- argument behind the third and one at least, and each upstream has a host and such a port; for a
  -- machine that reports its number of threads in an `unsigned int`.
  pub read_arguments-IsInRange :
      (arguments : List Text) (c : Configuration Address)
      → hardware < 2 ^ 32
      → read_arguments make_address hardware arguments ≡ configured (ok c)
      → IsInRange c × (length c.upstreams ≡ max 1 (length arguments - 3))
  unfolding read_arguments default_worker_count
  read_arguments-IsInRange [] c small h =
      let (address, _, built) = ok_of_bind (make_address (codes "127.0.0.1")) _ c (inner h) in
      let same : first_run address ≡ c = cc in
      subst (λ d. IsInRange d × (length d.upstreams ≡ 1)) same
        (
          record {
            port = (omega arith, omega arith);
            workers = (omega arith, omega (arith, small));
            some_upstream = omega arith;
            reachable = ((λ e. cc, (omega arith, omega arith)), tt);
          },
          refl,
        )
  read_arguments-IsInRange (a ∷ p ∷ n ∷ u ∷ more) c small h =
      let (address, _, h0) = ok_of_bind (make_address a) _ c (inner h) in
      let (port, port_read, h1) = ok_of_bind (parse_port p) _ c h0 in
      let (workers, workers_read, h2) = ok_of_bind (parse_worker_count n) _ c h1 in
      let (es, es_read, built) = ok_of_bind (parse_upstreams (u ∷ more)) _ c h2 in
      let same : chosen address port workers es ≡ c = cc in
      let (all, each) = parse_upstreams-IsReachable (u ∷ more) es es_read in
      subst (λ d. IsInRange d × (length d.upstreams ≡ max 1 (length (a ∷ p ∷ n ∷ u ∷ more) - 3)))
        same
        (
          record {
            port = parse_port-range p port port_read;
            workers = parse_worker_count-range n workers workers_read;
            some_upstream = omega (arith, each);
            reachable = all;
          },
          omega (arith, each),
        )
  read_arguments-IsInRange (a ∷ []) c small h = cc
  read_arguments-IsInRange (a ∷ p ∷ []) c small h = cc
  read_arguments-IsInRange (a ∷ p ∷ n ∷ []) c small h = cc
