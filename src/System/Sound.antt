-- ===== src/System/Sound.antt =====
-- What holds of the program at any time while it serves.
use mathlib.Core.Path.{subst}
use eventedge.Base.{
  ℕ, ◌≤◌, ◌≡◌, sym, ap, ◌∙◌, Bool, true, List, [], ◌∷◌, ◌++◌, some, ok, ok_of_bind, length,
  length-set, set, if◌then◌else◌, All, All-append,
}
use eventedge.Http.{Beast}
use eventedge.Upstream.{size}
use eventedge.Proxy.{default_timeouts}
use eventedge.Proxy.Once.{IsRunning, run_ok, begun-IsRunning}
use eventedge.Metrics.Render.{Printer}
use eventedge.Monitor.Going.{IsGoing, seen-IsGoing}
use eventedge.Session.{Shared, Work, read_request, shutdown_send, write, post, proxy, Result}
use eventedge.Server.{HttpServer}
use eventedge.Service.World.{remove_at, assigned}
use eventedge.Service.Balance.{IsBalanced, All-remove_at}
use eventedge.Service.Ledger.{IsStarted}
use eventedge.System.State.{
  Task, awaits, relays, System, with_shared, monitoring, run_proxy, launch_all, resume,
}
use eventedge.System.View.{view, works_of, works_of-append, works_of-launch_all}

-- One accept is under way as long as the server is open, never two.
pub record IsAccepting {F : Type 0} (s : HttpServer F) : Type 0 where
  pub at_most_one : s.accepting ≤ 1
  pub goes_on : s.is_open ≡ true → s.accepting ≡ 1

All-second {ℓ κ} : {A : Type ℓ} (P : A → Type κ) (xs ys : List A) → All P (xs ++ ys) → All P ys
All-second P [] ys h = h
All-second P (x ∷ xs) ys (first, rest) = All-second P xs ys rest

module _ (b : Beast) where
  open b use {Fields}

  -- A proxy is never left without an operation under way.
  abbrev pub IsUnderWay : ℕ × Task Fields → Type 0
  IsUnderWay (i, relays upstream request key p) = IsRunning b p
  IsUnderWay (i, awaits (proxy upstream request key)) = ⊥
  IsUnderWay (i, awaits read_request) = Unit
  IsUnderWay (i, awaits shutdown_send) = Unit
  IsUnderWay (i, awaits (write response eof)) = Unit
  IsUnderWay (i, awaits (post id response)) = Unit

  pub launch_all-IsUnderWay :
      (print : Printer) (n : ℕ) (xs : List (ℕ × Work Fields))
      → All (λ x. IsStarted b print n x.1) xs
      → All IsUnderWay (launch_all b xs)
  unfolding launch_all
  launch_all-IsUnderWay print n [] starts = tt
  launch_all-IsUnderWay print n ((i, proxy upstream request key) ∷ xs) (fits, rest) =
      let (sent, prepared, runs) = run_ok b upstream request default_timeouts fits in
      (
        subst (λ o. IsUnderWay (i, run_proxy b upstream request key o)) (sym runs)
            (begun-IsRunning b upstream request default_timeouts sent),
        launch_all-IsUnderWay print n xs rest,
      )
  launch_all-IsUnderWay print n ((i, read_request) ∷ xs) (first, rest) =
      (tt, launch_all-IsUnderWay print n xs rest)
  launch_all-IsUnderWay print n ((i, shutdown_send) ∷ xs) (first, rest) =
      (tt, launch_all-IsUnderWay print n xs rest)
  launch_all-IsUnderWay print n ((i, write response eof) ∷ xs) (first, rest) =
      (tt, launch_all-IsUnderWay print n xs rest)
  launch_all-IsUnderWay print n ((i, post id response) ∷ xs) (first, rest) =
      (tt, launch_all-IsUnderWay print n xs rest)

module _ (b : Beast) (print : Printer) (n : ℕ) {Address : Type 0} where
  open b use {Fields}

  -- The rounds of checks go on; the sessions are in balance; every proxy has an operation under way;
  -- every socket accepted has its session; the accept loop goes on.
  pub record IsSound (s : System Address Fields) : Type 0 where
    pub going : IsGoing (monitoring s)
    pub balanced : IsBalanced b print n (view s)
    pub under_way : All (IsUnderWay b) s.tasks
    pub counted : s.program.server.sessions ≡ length s.sessions
    pub accepting : IsAccepting s.program.server

  -- A change of what the sessions share leaves the monitor in its rounds, as long as the pool has as
  -- many backends.
  pub shared-IsGoing :
      (w : Shared Fields) (s : System Address Fields)
      → size w.upstream_pool ≡ n
      → IsSound s
      → IsGoing (monitoring (with_shared w s))
  shared-IsGoing w s many h =
      seen-IsGoing (monitoring s)
        (record { upstream_pool = w.upstream_pool; metrics = some w.metrics })
        (many ∙ sym h.balanced.healthy.backends) h.going

  -- What a handler of the session `i` leaves, called for the task in the place `k` of the tasks `ts`.
  pub resume-IsSound :
      (k i : ℕ) (fatal : Bool) (result : Result b print) (s s' : System Address Fields)
      (ts : List (ℕ × Task Fields))
      → IsSound s
      → remove_at k ts ≡ remove_at k s.tasks
      → resume b print k i fatal (some result) (record s { tasks = ts }) ≡ ok s'
      → IsBalanced b print n (view s')
      → IsSound s'
  unfolding resume
  resume-IsSound k i fatal result s s' ts h same_rest done after =
      let ((x, w, new), returned, left) = ok_of_bind result _ s' done in
      let new_tasks = remove_at k ts ++ launch_all b (assigned i new) in
      let left_system : System Address Fields = record (with_shared w s) {
        sessions = set s.sessions i x;
        tasks = new_tasks;
        ended = if fatal then i ∷ s.ended else s.ended;
      } in
      let same : left_system ≡ s' = cc in
      let settled : IsBalanced b print n (view left_system) =
        subst (λ v. IsBalanced b print n (view v)) (sym same) after in
      let shown : works_of new_tasks ≡ works_of (remove_at k ts) ++ assigned i new =
        works_of-append (remove_at k ts) (launch_all b (assigned i new))
        ∙ ap (◌++◌ (works_of (remove_at k ts))) (works_of-launch_all b (assigned i new)) in
      let starts =
        All-second (λ y. IsStarted b print n y.1) (works_of (remove_at k ts)) (assigned i new)
          (subst (All (λ y. IsStarted b print n y.1)) shown settled.started) in
      subst IsSound same (record {
        going = shared-IsGoing w s settled.healthy.backends h;
        balanced = settled;
        under_way =
            All-append (IsUnderWay b) (remove_at k ts) (launch_all b (assigned i new))
              (rw same_rest (All-remove_at (IsUnderWay b) k s.tasks h.under_way))
              (launch_all-IsUnderWay b print n (assigned i new) starts);
        counted = h.counted ∙ sym (length-set s.sessions i x);
        accepting = record { at_most_one = h.accepting.at_most_one; goes_on = h.accepting.goes_on };
      })
