-- ===== src/Main/Examples.antt =====
-- The program with one upstream, and with a port that is not a number.
use eventedge.Base.{
  ℕ, zero, suc, ◌<◌, ◌≤◌, ◌+◌, arith, leb, ◌≡◌, refl, ◌⊎◌, inl, true, false, List, [], ◌∷◌, Text,
  codes, Outcome, ok, throw, Exception,
}
use eventedge.Args.{Configuration, usage, configured, read_arguments}
use eventedge.Upstream.{UpstreamPool, size, is_healthy}
use eventedge.Cache.Refines.{empty_cache, empty_cache-Represents}
use eventedge.Monitor.{Monitoring, fires, selects}
use eventedge.Monitor
use eventedge.Monitor.Stopped.{StaysBy}
use eventedge.Server.{no_errors, accepts}
use eventedge.Server
use eventedge.Server.Loop.{any_error}
use eventedge.Main.Signal.{signalled, on_signal-StaysBy}
use eventedge.Main.Workers.{ThreadErrors, ending, returns, refused, start_from}
use eventedge.Main.Finishing.{EndsBy, ending_lem}
use eventedge.Main.Launch.{default_cache, monitoring_of, Program, exits, serves, main, launch}
use eventedge.Main.Ready.{Ends, IsReady, built, built-IsReady}
use eventedge.Main.Ending.{main_lem}

-- Addresses are kept as they are written.
abbrev as_written : Text → Outcome Text
as_written t = ok t

as_written-Ends : (t : Text) → Ends (as_written t)
as_written-Ends t = inl (t, refl)

abbrev arguments : List Text
arguments = codes "0.0.0.0" ∷ codes "8080" ∷ codes "4" ∷ codes "[::1]:9000" ∷ []

main_lem_example :
    ((main {F = ℕ} as_written 8 no_errors arguments ≡ exits 1)
      × ((read_arguments as_written 8 arguments ≡ usage)
          ⊎ ((e : Exception) × (read_arguments as_written 8 arguments ≡ configured (throw e)))
          ⊎ (any_error no_errors ≡ true)))
    ⊎ ((c : Configuration Text) × (p : Program Text ℕ) × (read_arguments as_written 8 arguments
          ≡ configured (ok c))
        × (any_error no_errors ≡ false)
        × (main as_written 8 no_errors arguments ≡ serves p)
        × IsReady c p)
main_lem_example = main_lem as_written 8 as_written-Ends ℕ no_errors arguments

too_few : main {F = ℕ} as_written 8 no_errors (codes "0.0.0.0" ∷ []) ≡ exits 1
unfolding main launch read_arguments
too_few = refl

-- The program of one upstream.
abbrev configuration : Configuration Text
configuration = record {
  address = codes "0.0.0.0";
  port = 8080;
  worker_count = 4;
  upstreams = record { host = codes "::1"; port = 9000 } ∷ [];
}

abbrev pool : UpstreamPool
pool = record {
  backends = record { endpoint = record { host = codes "::1"; port = 9000 }; healthy = true } ∷ [];
  next_index = 0;
}

abbrev program : Program Text ℕ
program = built ℕ configuration pool (empty_cache default_cache)

up : (i : ℕ) → i < size pool → is_healthy pool i ≡ ok true
unfolding is_healthy
up zero h = refl
up (suc i) h = absurd (omega (arith, h))

program-IsReady : IsReady configuration program
program-IsReady =
    built-IsReady ℕ configuration pool (empty_cache default_cache)
      (record { inhabited = omega arith; in_range = omega arith }) refl up
      (empty_cache-Represents default_cache (omega arith))

on_signal-StaysBy_example :
    (s : Monitoring) × (Monitor.react_all (fires false ∷ []) (monitoring_of program) ≡ ok s)
    × ((signalled program s.monitor
          (Server.react_all (accepts false ∷ []) program.server)).context_stopped
        ≡ true)
    × StaysBy
        (record s {
          monitor =
              (signalled program s.monitor
                (Server.react_all (accepts false ∷ []) program.server)).health_monitor;
        })
        (Monitor.react_all (selects ∷ []) (record s {
          monitor =
              (signalled program s.monitor
                (Server.react_all (accepts false ∷ []) program.server)).health_monitor;
        }))
    × ((Server.react_all
          (accepts false ∷ [])
          (signalled program s.monitor
            (Server.react_all (accepts false ∷ []) program.server)).server).is_open
        ≡ false)
    × ((Server.react_all
          (accepts false ∷ [])
          (signalled program s.monitor
            (Server.react_all (accepts false ∷ []) program.server)).server).sessions
        ≤ (Server.react_all (accepts false ∷ []) program.server).sessions + 1)
on_signal-StaysBy_example =
    on_signal-StaysBy configuration program (fires false ∷ []) (selects ∷ []) (accepts false ∷ [])
      (accepts false ∷ []) program-IsReady

-- A machine that starts two threads and no more.
abbrev two_threads : ThreadErrors
two_threads = record { reserving = false; starting = λ k. leb 2 k }

ending_lem_example :
    ((main {F = ℕ} as_written 8 no_errors arguments ≡ exits 1)
      × (ending two_threads (main {F = ℕ} as_written 8 no_errors arguments) ≡ returns 1))
    ⊎ ((p : Program Text ℕ) × (main as_written 8 no_errors arguments ≡ serves p)
        × EndsBy two_threads p (ending two_threads (main {F = ℕ} as_written 8 no_errors arguments)))
ending_lem_example = ending_lem as_written 8 no_errors arguments two_threads as_written-Ends

third_thread_refused : start_from two_threads 4 0 ≡ refused 2
unfolding start_from
third_thread_refused = refl
