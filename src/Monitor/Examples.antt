-- ===== src/Monitor/Examples.antt =====
-- Checks and rounds over two backends, one of which is marked down.
use eventedge.Base.{
  ℕ, ◌≤◌, ◌⊎◌, ◌≡◌, refl, true, false, List, [], ◌∷◌, none, some, codes, ok, arith,
}
use eventedge.Upstream.{UpstreamPool}
use eventedge.Monitor.Check.{
  Watched, CheckAction, CheckEvent, waited, resolved, connected, HealthCheck, resolving, create,
  run, step, steps,
}
use eventedge.Monitor.Rounds.{
  Monitoring, MonitorEvent, fires, checks_event, stops, selects, default_options, begin, react_all,
}
use eventedge.Monitor.Verdict.{verdict}
use eventedge.Monitor.Conclusion.{Concludes, steps-verdict}
use eventedge.Monitor.Ends.{Calls, is_held, run-Ends}
use eventedge.Monitor.Going.{IsGoing, rests}
use eventedge.Monitor.Reacting.{Goes}
use eventedge.Monitor.History.{begin-Goes}
use eventedge.Monitor.Stopped.{StaysBy, react_all-StaysBy}

abbrev two_backends : UpstreamPool
two_backends = record {
  backends =
      record { endpoint = record { host = codes "a"; port = 1 }; healthy = true }
      ∷ record { endpoint = record { host = codes "b"; port = 2 }; healthy = false }
      ∷ [];
  next_index = 0;
}

abbrev watched : Watched
watched = record { upstream_pool = two_backends; metrics = none }

-- The first attempt on `b` succeeds, and its late timer changes nothing.
abbrev success : List CheckEvent
success = resolved false ∷ connected false ∷ waited false ∷ []

verdict_up : verdict success true resolving ≡ some true
unfolding verdict
verdict_up = refl

steps-verdict_example :
    (c : HealthCheck) × (started : List CheckAction) × (run (create 1 1000) watched
      ≡ ok (c, watched, started))
    × (c' : HealthCheck) × (w' : Watched) × (actions : List CheckAction) × (steps success c watched
        ≡ ok (c', w', actions))
    × (c'.index ≡ 1)
    × Concludes (verdict success true resolving) 1 c' watched w' actions
steps-verdict_example = steps-verdict 1 1000 watched success (omega arith)

run-Ends_example :
    (c : HealthCheck) × (started : List CheckAction) × (run (create 1 1000) watched
      ≡ ok (c, watched, started))
    × ((n : ℕ) (c' : HealthCheck) (w' : Watched)
        → Calls c watched n c' w'
        → (n ≤ 3)
          × ((event : CheckEvent)
              → (r : HealthCheck × Watched × List CheckAction) × (step event c' w' ≡ ok r))
          × (((event : CheckEvent) × (is_held c'.waiting c'.attempt event ≡ true))
              ⊎ (c'.completed ≡ true)))
run-Ends_example = run-Ends 1 1000 watched (omega arith)

-- The first round: `a` times out, `b` is found up.
abbrev first_round : List MonitorEvent
first_round =
    fires false
    ∷ checks_event 1 (resolved false)
    ∷ checks_event 0 (waited false)
    ∷ selects
    ∷ checks_event 1 (connected false)
    ∷ stops
    ∷ fires true
    ∷ []

begin-Goes_example : Goes (react_all first_round (begin default_options watched))
begin-Goes_example = begin-Goes default_options watched first_round (omega arith)

abbrev resting : Monitoring
resting = record {
  monitor = record {
    options = default_options;
    timer = record { delay = 0; cancelled = false } ∷ [];
    checks_remaining = 0;
    stopped = false;
  };
  checks = [];
  watched = watched;
}

abbrev halted : Monitoring
halted = record resting {
  monitor = record resting.monitor {
    timer = record { delay = 0; cancelled = true } ∷ [];
    stopped = true;
  };
}

halted-IsGoing : IsGoing halted
halted-IsGoing = record {
  populated = omega arith;
  sound = tt;
  counted = refl;
  turn = rests (record { delay = 0; cancelled = true }) refl refl refl;
}

react_all-StaysBy_example :
    StaysBy halted (react_all (fires false ∷ stops ∷ selects ∷ fires true ∷ []) halted)
react_all-StaysBy_example =
    react_all-StaysBy (fires false ∷ stops ∷ selects ∷ fires true ∷ []) halted halted-IsGoing refl
