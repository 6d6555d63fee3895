-- ===== src/Main/Launch.antt =====
-- `main`, from the arguments to the loops of the workers.
use eventedge.Base.{
  ℕ, Bool, true, false, List, [], Option, none, some, Text, Outcome, Exception, ok, throw,
  undefined, ◌>>=◌, if◌then◌else◌,
}
use eventedge.Args.{Configuration, Startup, usage, configured, read_arguments}
use eventedge.Upstream
use eventedge.Cache
use eventedge.Cache.{CacheOptions}
use eventedge.Coalescer
use eventedge.Metrics
use eventedge.Monitor.{UpstreamHealthMonitor, Watched, Monitoring, create_monitor, default_options}
use eventedge.Monitor
use eventedge.Server.{AcceptorErrors, HttpServer, create_server}
use eventedge.Server

-- The cache's options where none are given; times are in nanoseconds.
abbrev pub default_cache : CacheOptions
default_cache = record { capacity = 1024; ttl = 2000000000 }

-- The objects of `main`, which serves until the I/O context is stopped.
pub record Program (Address F : Type 0) : Type 0 where
  pub address : Address
  pub worker_count : ℕ
  pub server : HttpServer F
  pub health_monitor : UpstreamHealthMonitor
  pub context_stopped : Bool

-- The program exits with a code before it serves, or serves; undefined behaviour is `breaks`.
pub data Launch (Address F : Type 0) : Type 0 where
  exits : ℕ → Launch Address F
  serves : Program Address F → Launch Address F
  breaks : Launch Address F

module _ {Address F : Type 0} where
  -- What the monitor watches: the pool and the metrics of the server.
  abbrev pub watched_of : Program Address F → Watched
  watched_of p = record {
    upstream_pool = p.server.shared.upstream_pool;
    metrics = some p.server.shared.metrics;
  }

  abbrev pub monitoring_of : Program Address F → Monitoring
  monitoring_of p = record { monitor = p.health_monitor; checks = []; watched = watched_of p }

  -- The objects, in the order in which they are made.
  unfoldable pub assemble : AcceptorErrors → Configuration Address → Outcome (Program Address F)
  assemble errors c = do
    upstream_pool ← Upstream.create c.upstreams
    response_cache ← Cache.create default_cache
    metrics ← Metrics.create upstream_pool
    server ←
        create_server errors c.port upstream_pool response_cache Coalescer.create (some metrics)
    ok (record {
      address = c.address;
      worker_count = c.worker_count;
      server = Server.run server;
      health_monitor = Monitor.start (create_monitor default_options);
      context_stopped = false;
    })

  -- `catch (const std::exception&)`
  unfoldable pub catch_all : Outcome (Program Address F) → Launch Address F
  catch_all (ok p) = serves p
  catch_all (throw e) = exits 1
  catch_all undefined = breaks

  unfoldable pub launch : AcceptorErrors → Startup Address → Launch Address F
  launch errors usage = exits 1
  launch errors (configured c) = catch_all (do config ← c; assemble errors config)

  unfoldable pub main : (Text → Outcome Address) → ℕ → AcceptorErrors → List Text → Launch Address F
  main make_address hardware errors arguments =
      launch errors (read_arguments make_address hardware arguments)

  -- The handler of SIGINT and SIGTERM.
  unfoldable pub on_signal : Bool → Program Address F → Program Address F
  on_signal error p = if error then p else record p {
    health_monitor = Monitor.stop p.health_monitor;
    server = Server.stop p.server;
    context_stopped = true;
  }

  -- A worker: what `io_context.run()` throws, if it throws, stops the context.
  unfoldable pub worker : Option Exception → Program Address F → Program Address F
  worker none p = p
  worker (some e) p = record p { context_stopped = true }
