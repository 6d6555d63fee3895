-- ===== src/Main/Ready.antt =====
-- What the program is when it serves, and when it does not come to that.
use eventedge.Base.{
  ℕ, ◌<◌, ◌≤◌, ◌≡◌, ◌≢◌, refl, ◌∙◌, ◌⊎◌, inl, inr, true, false, List, [], ◌∷◌, map, some, Outcome,
  ok, throw, Exception, system_error, if◌then◌else◌, length, Bool-cases, arith,
}
use eventedge.Args.{Configuration}
use eventedge.Upstream
use eventedge.Upstream.{UpstreamEndpoint, UpstreamPool, IsValid, size, is_healthy}
use eventedge.Upstream.Health.{create_lem}
use eventedge.Cache.Refines.{Represents, create-Represents}
use eventedge.Metrics.Labels.{labelled, create-start}
use eventedge.Metrics.{start}
use eventedge.Monitor.Going.{IsGoing}
use eventedge.Monitor.History.{begin-IsGoing}
use eventedge.Monitor
use eventedge.Monitor.{default_options, create_monitor}
use eventedge.Cache
use eventedge.Cache.{ResponseCache}
use eventedge.Coalescer
use eventedge.Http.{HttpResponse}
use eventedge.Server.{AcceptorErrors, run, do_accept}
use eventedge.Server.Loop.{any_error, create_server_lem}
use eventedge.Main.Launch.{Program, default_cache, monitoring_of, assemble}

-- A call that returns or throws.
abbrev pub Ends : {A : Type 0} → Outcome A → Type 0
Ends {A} o = ((a : A) × (o ≡ ok a)) ⊎ ((e : Exception) × (o ≡ throw e))

-- What the program holds when it serves: its backends are those of the configuration, all up; the
-- cache is empty and no flight is under way; every label has its backend; the server listens, with one
-- accept under way and no session yet, on the configured port; and the rounds of checks go on.
pub record IsReady {Address F : Type 0} (c : Configuration Address) (p : Program Address F)
    : Type 0 where
  pub endpoints : map (λ b. b.endpoint) p.server.shared.upstream_pool.backends ≡ c.upstreams
  pub valid : IsValid p.server.shared.upstream_pool
  pub all_up :
      (i : ℕ)
      → i < size p.server.shared.upstream_pool
      → is_healthy p.server.shared.upstream_pool i ≡ ok true
  pub empty_cache : Represents p.server.shared.response_cache []
  pub no_flight : p.server.shared.request_coalescer ≡ some Coalescer.create
  pub labels : length p.server.shared.metrics.upstreams ≤ size p.server.shared.upstream_pool
  pub listens : p.server.is_open ≡ true
  pub accepts_one : p.server.accepting ≡ 1
  pub no_session : p.server.sessions ≡ 0
  pub on_port : p.server.port ≡ c.port
  pub workers : p.worker_count ≡ c.worker_count
  pub monitor_goes : IsGoing (monitoring_of p)

length-labelled : (p : UpstreamPool) → length (labelled p.backends) ≤ size p
length-labelled p = go p.backends
  where
    go : (bs : List Upstream.Backend) → length (labelled bs) ≤ length bs
    go [] = omega arith
    go (b ∷ bs) = omega (arith, go bs)

module _ {Address : Type 0} (F : Type 0) where
  -- The program that is put together from a pool and a cache.
  abbrev pub built :
      Configuration Address → UpstreamPool → ResponseCache (HttpResponse F) → Program Address F
  built c pool cache = record {
    address = c.address;
    worker_count = c.worker_count;
    server = run (record {
      shared = record {
        upstream_pool = pool;
        response_cache = cache;
        request_coalescer = some Coalescer.create;
        metrics = start (labelled pool.backends);
      };
      port = c.port;
      is_open = true;
      accepting = 0;
      sessions = 0;
    });
    health_monitor = Monitor.start (create_monitor default_options);
    context_stopped = false;
  }

  assemble-built :
      (errors : AcceptorErrors) (c : Configuration Address) (pool : UpstreamPool)
      (cache : ResponseCache (HttpResponse F))
      → Upstream.create c.upstreams ≡ ok pool
      → Cache.create default_cache ≡ ok cache
      → assemble errors c
        ≡ (if any_error errors then throw system_error else ok (built c pool cache))
  unfolding assemble
  assemble-built errors c pool cache made cached =
      let served =
        create_server_lem errors c.port pool cache Coalescer.create
          (some (start (labelled pool.backends))) in
      rw (made, cached, create-start pool, served)
        (elim (Bool-cases (any_error errors)) [ inl failed ↦ rw failed | inr fine ↦ rw fine ])

  pub built-IsReady :
      (c : Configuration Address) (pool : UpstreamPool) (cache : ResponseCache (HttpResponse F))
      → IsValid pool
      → map (λ b. b.endpoint) pool.backends ≡ c.upstreams
      → ((i : ℕ) → i < size pool → is_healthy pool i ≡ ok true)
      → Represents cache []
      → IsReady c (built c pool cache)
  unfolding run do_accept start
  built-IsReady c pool cache valid same up rep = record {
    endpoints = same;
    valid = valid;
    all_up = up;
    empty_cache = rep;
    no_flight = refl;
    labels = length-labelled pool;
    listens = refl;
    accepts_one = refl;
    no_session = refl;
    on_port = refl;
    workers = refl;
    monitor_goes =
        begin-IsGoing default_options
          (record { upstream_pool = pool; metrics = some (start (labelled pool.backends)) })
          valid.inhabited;
  }

  -- What comes of a configuration with an upstream.
  pub assemble-cases :
      (errors : AcceptorErrors) (c : Configuration Address)
      → c.upstreams ≢ []
      → ((any_error errors ≡ true) × (assemble {F = F} errors c ≡ throw system_error))
        ⊎ ((any_error errors ≡ false)
            × (p : Program Address F) × (assemble errors c ≡ ok p)
            × IsReady c p)
  assemble-cases errors c some_left = elim (create_lem c.upstreams) [
    | inl (none_left, thrown) ↦ absurd (some_left none_left)
    | inr (pool, made, valid, same, up) ↦
        elim (create-Represents {R = HttpResponse F} default_cache) [
          | inl (no_room, thrown) ↦ absurd (omega (arith, no_room))
          | inr (cache, cached, rep, options) ↦
              let whole = assemble-built errors c pool cache made cached in
              elim (Bool-cases (any_error errors)) [
                | inl failed ↦ inl (failed, whole ∙ rw failed)
                | inr fine ↦ inr (
                  fine,
                  built c pool cache,
                  whole ∙ rw fine,
                  built-IsReady c pool cache valid same up rep,
                )
              ]
        ]
  ]
