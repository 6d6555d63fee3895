-- ===== src/Monitor/Conclusion.antt =====
-- A check that has been run, to its end.
use eventedge.Base.{ℕ, ◌<◌, ◌≡◌, ◌≢◌, Bool, true, false, List, [], ◌∷◌, Option, none, some, ok}
use eventedge.Decimal.{to_string}
use eventedge.Upstream.{UpstreamEndpoint, size, endpoint}
use eventedge.Monitor.Check.{
  Watched, resolving, CheckAction, wait, resolve, HealthCheck, CheckEvent, create, run, steps, mark,
}
use eventedge.Monitor.Verdict.{finishes, verdict, live, Settled, live-Settled}
use eventedge.Monitor.Marks.{Marked, mark-Marked, endpoint-ok}

-- What a check has done: nothing yet, with a handler still to come, or exactly its verdict.
abbrev pub Concludes : Option Bool → ℕ → HealthCheck → Watched → Watched → List CheckAction → Type 0
Concludes none i c w w' actions =
    (c.completed ≡ false) × (c.attempt ≢ none) × (w' ≡ w) × (finishes actions ≡ 0)
Concludes (some healthy) i c w w' actions =
    (c.completed ≡ true) × Marked i healthy w w' × (finishes actions ≡ 1)

pub Settled-Concludes :
    (v : Option Bool) (events : List CheckEvent) (i : ℕ) (c : HealthCheck) (w wd wu : Watched)
    → mark i false w ≡ ok wd
    → mark i true w ≡ ok wu
    → Marked i false w wd
    → Marked i true w wu
    → Settled v events i c w
    → (c' : HealthCheck) × (w' : Watched) × (actions : List CheckAction) × (steps events c w
        ≡ ok (c', w', actions))
      × (c'.index ≡ i)
      × Concludes v i c' w w' actions
Settled-Concludes none events i c w wd wu down up md mu (c', w', actions, done, place, settled) =
    (c', w', actions, done, place, settled)
Settled-Concludes (some true) events i c w wd wu down up md mu
      (c', w', actions, done, place, (o, marked, once)) =
    let same : wu ≡ w' = cc in (c', w', actions, done, place, (o, rw same at mu, once))
Settled-Concludes (some false) events i c w wd wu down up md mu
      (c', w', actions, done, place, (o, marked, once)) =
    let same : wd ≡ w' = cc in (c', w', actions, done, place, (o, rw same at md, once))

-- A check of a backend of the pool can be run: it waits for its timer and resolves the backend's
-- host and port.
pub run-live :
    (i t : ℕ) (w : Watched)
    → i < size w.upstream_pool
    → (e : UpstreamEndpoint) × (endpoint w.upstream_pool i ≡ ok e)
      × (run (create i t) w
          ≡ ok (live i t true resolving, w, wait t ∷ resolve e.host (to_string e.port) ∷ []))
unfolding run
run-live i t w h = let (e, there) = endpoint-ok w.upstream_pool i h in (e, there, rw there)

-- A check of a backend of the pool, run and then given any events in any order, has defined
-- behaviour and does not throw. While the events decide nothing it has changed nothing, its
-- completion handler has not been called, and an attempt is under way; once they give a verdict,
-- the backend's mark is the verdict, nothing else in the pool has changed, a transition has been
-- counted exactly if the mark was another, and the completion handler has been called once.
pub steps-verdict :
    (i t : ℕ) (w : Watched) (events : List CheckEvent)
    → i < size w.upstream_pool
    → (c : HealthCheck) × (started : List CheckAction) × (run (create i t) w ≡ ok (c, w, started))
      × (c' : HealthCheck) × (w' : Watched) × (actions : List CheckAction) × (steps events c w
          ≡ ok (c', w', actions))
      × (c'.index ≡ i)
      × Concludes (verdict events true resolving) i c' w w' actions
steps-verdict i t w events h =
    let (e, there, runs) = run-live i t w h in
    let (wd, down, md) = mark-Marked i false w h in
    let (wu, up, mu) = mark-Marked i true w h in
    let (c', w', actions, done, place, settled) =
      Settled-Concludes (verdict events true resolving) events i (live i t true resolving) w wd wu
        down up md mu (live-Settled i t w wd wu down up events true resolving) in
    (live i t true resolving, _, runs, c', w', actions, done, place, settled)
