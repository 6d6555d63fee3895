-- ===== src/Main/Workers.antt =====
-- The rest of `main`: the threads of the workers, from the first that is started to the exit code.
use eventedge.Base.{ℕ, zero, suc, ◌+◌, Bool, if◌then◌else◌}
use eventedge.Main.Launch.{Program, Launch, exits, serves, breaks}

-- Whether the room for the threads is refused, and the start of the thread in a place.
pub record ThreadErrors : Type 0 where
  pub reserving : Bool
  pub starting : ℕ → Bool

pub data Started : Type 0 where
  all_started : Started
  refused : ℕ → Started

-- How the process ends: with an exit code, or by `std::terminate`.
pub data Ending : Type 0 where
  returns : ℕ → Ending
  terminates : Ending
  breaks_off : Ending

-- The loop that starts the workers, with `left` of them to come; `refused` is an exception that leaves
-- it with so many threads in the vector.
unfoldable pub start_from : ThreadErrors → ℕ → ℕ → Started
start_from errors zero index = all_started
start_from errors (suc left) index =
    let rest = start_from errors left (index + 1) in
    if errors.starting index then refused index else rest

-- The vector is destroyed while the exception is under way, and a thread in it that was not joined
-- calls `std::terminate`; without one, the exception is caught.
unfoldable pub unwind : ℕ → Ending
unwind zero = returns 1
unwind (suc started) = terminates

unfoldable pub after_start : Started → Ending
after_start all_started = returns 0
after_start (refused started) = unwind started

module _ {Address F : Type 0} where
  -- For workers that come to their ends, and are joined.
  unfoldable pub run_workers : ThreadErrors → Program Address F → Ending
  run_workers errors p =
      if errors.reserving then returns 1 else after_start (start_from errors p.worker_count 0)

  -- The end of `main`.
  unfoldable pub ending : ThreadErrors → Launch Address F → Ending
  ending errors (exits code) = returns code
  ending errors (serves p) = run_workers errors p
  ending errors breaks = breaks_off
