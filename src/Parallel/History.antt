-- ===== src/Parallel/History.antt =====
-- Any history of sessions whose handlers alternate.
use mathlib.Core.Path.{subst}
use eventedge.Base.{
  ℕ, ◌<◌, ◌≡◌, refl, sym, ap, ◌∙◌, inl, inr, Bool, List, [], ◌∷◌, ◌++◌, map, Option, none, some,
  Text, Outcome, ok, ok_of_bind, length, get_elem?, set, if◌then◌else◌, All, Option-cases, arith,
}
use eventedge.Http.{Beast}
use eventedge.Metrics.Render.{Printer}
use eventedge.Monitor.{Watched, mark}
use eventedge.Session
use eventedge.Session.{Shared, HttpSession, Work, Clock, do_read}
use eventedge.Service.World.{World, Input, remove_at, metrics_or}
use eventedge.Service.World
use eventedge.Service.Counts.{flying, flying-remove_at}
use eventedge.Service.Balance.{IsBalanced, connect-IsBalanced, finish-IsBalanced}
use eventedge.Service.History.{marks-IsBalanced}
use eventedge.Service.Handlers.{Carries, after}
use eventedge.Parallel.State.{
  Part, waits_for, Parallel, ParallelEvent, connects, runs, marks, assigned, part_holder,
  PartResult, ends_session, run_part, go_on, run, connect, step, steps,
}
use eventedge.Parallel.View.{
  work_of, works_of, view, works_of-append, works_of-remove_at, works_of-get_elem?,
  works_of-assigned, PartLedger,
}
use eventedge.Parallel.Parts.{run_part-PartLedger}

-- The backends that the monitor marks are in the pool, and no TRACE request with a body is read.
abbrev pub IsInside : {F : Type 0} → ℕ → ParallelEvent F → Type 0
IsInside n connects = Unit
IsInside n (runs k clock input) = Carries input
IsInside n (marks i healthy) = i < n

module _ (b : Beast) (print : Printer) (n : ℕ) where
  open b use {Fields}

  -- A state whose parts, as work, are in balance.
  abbrev pub StaysBalanced : Outcome (Parallel Fields) → Type 0
  StaysBalanced o = (p' : Parallel Fields) × (o ≡ ok p') × IsBalanced b print n (view b p')

  module _ (p : Parallel Fields) (k i : ℕ) (x : Part Fields) (h : IsBalanced b print n (view b p))
      (there : get_elem? p.parts k ≡ some (i, x)) where
    finished-StaysBalanced :
        (fatal : Bool) (result : PartResult b print)
        → PartLedger b print n i
            (after b print n fatal i p.shared)
            (λ key. flying key (remove_at k (works_of b p.parts)))
            result
        → StaysBalanced (go_on b print k i fatal (some result) p)
    unfolding go_on World.finish
    finished-StaysBalanced fatal result (s, w, new, done, ledger) =
        let (world, ran, balanced) =
          finish-IsBalanced b print n (view b p) k i (work_of b x) h
            (works_of-get_elem? b k i x p.parts there) fatal (ok (s, w, map (work_of b) new))
            ledger in
        let p' : Parallel Fields = record {
          shared = w;
          sessions = set p.sessions i s;
          parts = remove_at k p.parts ++ assigned i new;
          ended = if fatal then i ∷ p.ended else p.ended;
        } in
        let works : works_of b p'.parts
            ≡ remove_at k (works_of b p.parts) ++ World.assigned i (map (work_of b) new) =
          works_of-append b (remove_at k p.parts) (assigned i new)
          ∙ (λ q. works_of-remove_at b k p.parts q ++ works_of-assigned b i new q) in
        let with_work : List (ℕ × Work Fields) → World Fields =
          λ ws. record (view b p') { work = ws } in
        let reached : with_work
              (remove_at k (works_of b p.parts) ++ World.assigned i (map (work_of b) new))
            ≡ world =
          cc in
        let same : world ≡ view b p' = sym reached ∙ ap with_work (sym works) in
        (p', rw done refl, subst (IsBalanced b print n) same balanced)

    pub ran-StaysBalanced :
        (clock : Clock) (input : Input Fields) (s : HttpSession Fields)
        (result : Option (PartResult b print))
        → get_elem? p.sessions i ≡ some s
        → Carries input
        → run_part b print clock x input s p.shared ≡ result
        → StaysBalanced (go_on b print k i (ends_session x input) result p)
    unfolding go_on
    ran-StaysBalanced clock input s none is_s carries handled = (p, refl, h)
    ran-StaysBalanced clock input s (some result) is_s carries handled =
        let (place, fits) = h.named i s is_s in
        let base : Text → ℕ = λ key. flying key (remove_at k (works_of b p.parts)) in
        finished-StaysBalanced (ends_session x input) result (
          subst
            (λ j.
              PartLedger b print n j (after b print n (ends_session x input) j p.shared) base
                result)
            place
            (run_part-PartLedger b print n clock s p.shared base h.healthy fits x input result
              carries
              (λ key. omega (
                arith,
                h.flown key,
                flying-remove_at key k i (work_of b x) (works_of b p.parts)
                    (works_of-get_elem? b k i x p.parts there),
              ))
              handled))

  run-StaysBalanced :
      (p : Parallel Fields) (k : ℕ) (clock : Clock) (input : Input Fields)
      (next : Option (ℕ × Part Fields))
      → IsBalanced b print n (view b p)
      → Carries input
      → get_elem? p.parts k ≡ next
      → StaysBalanced (run b print k clock input next p)
  unfolding run
  run-StaysBalanced p k clock input none h carries there = (p, refl, h)
  run-StaysBalanced p k clock input (some (i, x)) h carries there =
      elim (Option-cases (get_elem? p.sessions i)) [
        | inl out ↦ (p, rw (run, out) refl, h)
        | inr (s, is_s) ↦
            let (p', done, balanced) =
              ran-StaysBalanced p k i x h there clock input s
                (run_part b print clock x input s p.shared) is_s carries refl in
            (p', rw (run, is_s) done, balanced)
      ]

  connect-StaysBalanced :
      (p : Parallel Fields) → IsBalanced b print n (view b p) → StaysBalanced (connect b print p)
  unfolding connect World.connect Session.run Session.create do_read assigned World.assigned
      World.holder part_holder
  connect-StaysBalanced p h =
      let (world, ran, balanced) = connect-IsBalanced b print n (view b p) h in
      let i = length p.sessions in
      let p' : Parallel Fields = record p {
        sessions = p.sessions ++ (Session.create b print i ∷ []);
        parts = p.parts ++ ((i, waits_for Session.read_request) ∷ []);
      } in
      let with_work : List (ℕ × Work Fields) → World Fields =
        λ ws. record (view b p') { work = ws } in
      let reached : with_work (works_of b p.parts ++ ((i, Session.read_request) ∷ [])) ≡ world =
        cc in
      let same : world ≡ view b p' =
        sym reached
        ∙ ap with_work
            (sym (works_of-append b p.parts ((i, waits_for Session.read_request) ∷ []))) in
      (p', refl, subst (IsBalanced b print n) same balanced)

  marks-StaysBalanced :
      (p : Parallel Fields) (i : ℕ) (healthy : Bool)
      → i < n
      → IsBalanced b print n (view b p)
      → StaysBalanced (step b print (marks i healthy) p)
  unfolding step World.step
  marks-StaysBalanced p i healthy inside h =
      let (world, ran, balanced) = marks-IsBalanced b print n (view b p) i healthy inside h in
      let before : Watched = record {
        upstream_pool = p.shared.upstream_pool;
        metrics = some p.shared.metrics;
      } in
      let after_mark : Watched → Parallel Fields = λ watched. record p {
        shared = record p.shared {
          upstream_pool = watched.upstream_pool;
          metrics = metrics_or p.shared.metrics watched.metrics;
        };
      } in
      let (watched, marked, rest) =
        ok_of_bind (mark i healthy before) (λ watched. ok (view b (after_mark watched))) world
          ran in
      let same : world ≡ view b (after_mark watched) = cc in
      (after_mark watched, rw marked refl, subst (IsBalanced b print n) same balanced)

  step-StaysBalanced :
      (event : ParallelEvent Fields) (p : Parallel Fields)
      → IsInside n event
      → IsBalanced b print n (view b p)
      → StaysBalanced (step b print event p)
  unfolding step
  step-StaysBalanced connects p inside h = connect-StaysBalanced p h
  step-StaysBalanced (runs k clock input) p inside h =
      run-StaysBalanced p k clock input (get_elem? p.parts k) h inside refl
  step-StaysBalanced (marks i healthy) p inside h = marks-StaysBalanced p i healthy inside h

  -- When several workers run handlers of different sessions, so that these alternate between the
  -- calls that they make of the cache, the pool and the coalescer, then for any such history, with
  -- connections and marks by the monitor on backends of the pool, and no TRACE request with a body
  -- read: no part of a handler throws or is undefined; each session that has connected has one
  -- thing to come (a part to run, work outstanding, or its place in a flight) or has ended, never
  -- two of these and never none; for each key, one leader or proxy has still to end the flight if
  -- it is under way, and none if it is not; and the shared objects stay in order. All this if it
  -- was so before.
  pub steps-StaysBalanced :
      (events : List (ParallelEvent Fields)) (p : Parallel Fields)
      → All (IsInside n) events
      → IsBalanced b print n (view b p)
      → StaysBalanced (steps b print events p)
  unfolding steps
  steps-StaysBalanced [] p inside h = (p, refl, h)
  steps-StaysBalanced (event ∷ events) p (inside, rest) h =
      let (next, done, balanced) = step-StaysBalanced event p inside h in
      let (p', done', balanced') = steps-StaysBalanced events next rest balanced in
      (p', rw done done', balanced')
