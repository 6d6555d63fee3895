-- ===== src/Parallel/Examples.antt =====
-- Two clients ask for one page at the same time, and its backend goes down in between.
use eventedge.Base.{refl, false, List, [], ◌∷◌, none, arith}
use eventedge.Http.ListBeast.{Headers, list_beast}
use eventedge.Service.World.{posted, read}
use eventedge.Service.Examples.{printer, page_request, clock, fresh, fresh-IsBalanced}
use eventedge.Parallel.State.{Parallel, ParallelEvent, connects, runs, marks, steps}
use eventedge.Parallel.History.{StaysBalanced, steps-StaysBalanced}

abbrev at_rest : Parallel Headers
at_rest = record { shared = fresh.shared; sessions = []; parts = []; ended = [] }

-- Both look into the cache before either joins a flight.
abbrev history : List (ParallelEvent Headers)
history =
    connects
    ∷ connects
    ∷ runs 0 clock (read none page_request)
    ∷ runs 0 clock (read none page_request)
    ∷ runs 0 clock posted
    ∷ runs 0 clock posted
    ∷ marks 0 false
    ∷ runs 0 clock posted
    ∷ runs 0 clock posted
    ∷ []

steps-StaysBalanced_example :
    StaysBalanced list_beast printer 1 (steps list_beast printer history at_rest)
steps-StaysBalanced_example =
    steps-StaysBalanced list_beast printer 1 history at_rest
      (tt, (tt, (refl, (refl, (tt, (tt, (omega arith, (tt, (tt, tt))))))))) fresh-IsBalanced
