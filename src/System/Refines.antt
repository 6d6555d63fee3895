-- ===== src/System/Refines.antt =====
-- Each handler of the program does to the sessions what one event of `Service` does, or nothing.
use mathlib.Core.Path.{subst}
use eventedge.Base.{
  ℕ, ◌≡◌, refl, sym, ap, ◌∙◌, inl, inr, List, [], ◌∷◌, Option, none, some, Text, Outcome, ok,
  ok_of_bind, get_elem?, set, All, All-get_elem?, All-set, Option-cases,
}
use eventedge.Http.{Beast, HttpRequest}
use eventedge.Proxy
use eventedge.Upstream.{UpstreamEndpoint}
use eventedge.Proxy.{UpstreamProxy, Event}
use eventedge.Proxy.Once.{responses, step-CalledOnce}
use eventedge.Metrics.Render.{Printer}
use eventedge.Session.{HttpSession, Work, proxy, Clock, Result, on_proxied}
use eventedge.Service.World.{
  World, Input, answered, WorldEvent, delivers, remove_at, is_fatal, handler, finish,
}
use eventedge.Service.World
use eventedge.Service.Handlers.{Carries}
use eventedge.Service.Balance.{IsBalanced}
use eventedge.Service.Answer.{holder-session}
use eventedge.Service.History.{IsInside, steps-IsBalanced, ends-IsBalanced}
use eventedge.System.State.{Task, awaits, relays, System, shared_of, resume, handle, answer, relay}
use eventedge.System.View.{
  works_of, view, works_of-set, remove_at-set, get_elem?-works_of, resume-finish,
}
use eventedge.System.Sound.{IsUnderWay, IsSound, resume-IsSound}

module _ (b : Beast) (print : Printer) (n : ℕ) {Address : Type 0} where
  open b use {Fields}

  -- The call returns, leaves all in order, and is a history of the sessions.
  abbrev pub Refines : System Address Fields → Outcome (System Address Fields) → Type 0
  Refines s o =
      (s' : System Address Fields) × (o ≡ ok s')
      × IsSound b print n s'
      × ((events : List (WorldEvent Fields)) × All (IsInside n) events
          × (World.steps b print events (view s) ≡ ok (view s')))

  pub idle-Refines : (s : System Address Fields) → IsSound b print n s → Refines s (ok s)
  unfolding World.steps
  idle-Refines s h = (s, refl, h, ([], tt, refl))

  module _ (s : System Address Fields) (h : IsSound b print n s) (k i : ℕ) (clock : Clock) where
    deliver-finish :
        (x : Work Fields) (y : HttpSession Fields) (input : Input Fields) (result : Result b print)
        → get_elem? (works_of s.tasks) k ≡ some (i, x)
        → get_elem? s.sessions i ≡ some y
        → handler b print clock x input y (shared_of s) ≡ some result
        → World.step b print (delivers k clock input) (view s)
          ≡ finish b print k i (is_fatal input) (some result) (view s)
    unfolding World.step World.deliver
    deliver-finish x y input result there is_y handled =
        rw (there, World.deliver, is_y, handled) refl

    -- The handler of the session `i`, called for the work in the place `k`, with other tasks that
    -- look the same.
    module _ (ts : List (ℕ × Task Fields)) (x : Work Fields) (y : HttpSession Fields)
        (input : Input Fields) (carries : Carries input) (result : Result b print)
        (same : works_of ts ≡ works_of s.tasks)
        (there : get_elem? (works_of s.tasks) k ≡ some (i, x))
        (is_y : get_elem? s.sessions i ≡ some y)
        (handled : handler b print clock x input y (shared_of s) ≡ some result) where
      pub resumed-delivers :
          (s' : System Address Fields) × (resume b print k i
              (is_fatal input)
              (some result)
              (record s { tasks = ts })
            ≡ ok s')
          × (World.step b print (delivers k clock input) (view s) ≡ ok (view s'))
      unfolding World.steps
      resumed-delivers =
          let fatal = is_fatal input in
          let (w, ran, balanced) =
            steps-IsBalanced b print n (delivers k clock input ∷ []) (view s) (carries, tt)
              h.balanced in
          let (w', stepped, last) =
            ok_of_bind (World.step b print (delivers k clock input) (view s)) _ w ran in
          let once = stepped ∙ last in
          let look : view (record s { tasks = ts }) ≡ view s =
            λ j. record (view s) { work = same j } in
          let shown =
            resume-finish b print k i fatal (some result) (record s { tasks = ts })
            ∙ ap (finish b print k i fatal (some result)) look
            ∙ sym (deliver-finish x y input result there is_y handled)
            ∙ once in
          let (s', done, seen) =
            ok_of_bind (resume b print k i fatal (some result) (record s { tasks = ts }))
              (λ t. ok (view t)) w shown in
          (s', done, once ∙ sym seen)

      resumed-Refines :
          remove_at k ts ≡ remove_at k s.tasks
          → Refines s (resume b print k i (is_fatal input) (some result) (record s { tasks = ts }))
      unfolding World.steps
      resumed-Refines same_rest =
          let (s', done, stepped) = resumed-delivers in
          let ran : World.steps b print (delivers k clock input ∷ []) (view s) ≡ ok (view s') =
            rw stepped refl in
          (
            s',
            done,
            resume-IsSound b print n k i (is_fatal input) result s s' ts h same_rest done (
                ends-IsBalanced b print n (delivers k clock input ∷ []) (view s) (view s')
                  (carries, tt) h.balanced ran),
            (delivers k clock input ∷ [], (carries, tt), ran),
          )

    handler-Refines :
        (x : Work Fields) (input : Input Fields) (y : HttpSession Fields)
        (result : Option (Result b print))
        → Carries input
        → get_elem? (works_of s.tasks) k ≡ some (i, x)
        → get_elem? s.sessions i ≡ some y
        → handler b print clock x input y (shared_of s) ≡ result
        → Refines s (resume b print k i (is_fatal input) result s)
    unfolding resume
    handler-Refines x input y none carries there is_y handled = idle-Refines s h
    handler-Refines x input y (some result) carries there is_y handled =
        resumed-Refines s.tasks x y input carries result refl there is_y handled refl

    -- A proxy that goes on.
    hidden-Refines :
        (ts : List (ℕ × Task Fields))
        → works_of ts ≡ works_of s.tasks
        → All (IsUnderWay b) ts
        → Refines s (ok (record s { tasks = ts }))
    unfolding World.steps
    hidden-Refines ts same under_way =
        let look : view s ≡ view (record s { tasks = ts }) =
          λ j. record (view s) { work = sym same j } in
        (
          record s { tasks = ts },
          refl,
          record {
            going = h.going;
            balanced = subst (IsBalanced b print n) look h.balanced;
            under_way = under_way;
            counted = h.counted;
            accepting = h.accepting;
          },
          ([], tt, ap ok look),
        )

    -- What a proxy has told its session.
    pub answer-Refines :
        (upstream : UpstreamEndpoint) (request : HttpRequest Fields) (key : Option Text)
        (p : UpstreamProxy Fields) (event : Event Fields)
        → get_elem? s.tasks k ≡ some (i, relays upstream request key p)
        → Refines s (relay b print k clock event (some (i, relays upstream request key p)) s)
    unfolding relay answer responses handler is_fatal
    answer-Refines upstream request key p event there =
        let q = (Proxy.step b p event).0 in
        let ts = set s.tasks k (i, relays upstream request key q) in
        let same =
          works_of-set k i (relays upstream request key p) (relays upstream request key q) s.tasks
            there refl in
        let running =
          All-get_elem? (IsUnderWay b) s.tasks k (i, relays upstream request key p) h.under_way
            there in
        elim (step-CalledOnce b event p running) [
          | inl (still, quiet) ↦ rw quiet (
              hidden-Refines ts same (
                All-set (IsUnderWay b) s.tasks k (i, relays upstream request key q) h.under_way
                  still))
          | inr (over, (response, called)) ↦
              let shown = get_elem?-works_of k i (relays upstream request key p) s.tasks there in
              let (y, is_y) =
                holder-session b print n (view s) k i (proxy upstream request key) h.balanced
                  shown in
              rw (called, answer, is_y)
                (resumed-Refines ts (proxy upstream request key) y (answered response) tt
                  (on_proxied b print clock key response y (shared_of s)) same shown is_y refl
                  (remove_at-set k (i, relays upstream request key q) s.tasks))
        ]

  pub handle-Refines :
      (s : System Address Fields) (k : ℕ) (clock : Clock) (input : Input Fields)
      → Carries input
      → IsSound b print n s
      → Refines s (handle b print k clock input (get_elem? s.tasks k) s)
  unfolding handle
  handle-Refines s k clock input carries h = elim (Option-cases (get_elem? s.tasks k)) [
    | inl none_there ↦ rw none_there (idle-Refines s h)
    | inr ((i, awaits x), there) ↦ elim (Option-cases (get_elem? s.sessions i)) [
      | inl out ↦ rw (there, handle, out) (idle-Refines s h)
      | inr (y, is_y) ↦
          rw (there, handle, is_y)
            (handler-Refines s h k i clock x input y (handler b print clock x input y (shared_of s))
              carries (get_elem?-works_of k i (awaits x) s.tasks there) is_y refl)
    ]
    | inr ((i, relays upstream request key p), there) ↦ rw there (idle-Refines s h)
  ]

  pub relay-Refines :
      (s : System Address Fields) (k : ℕ) (clock : Clock) (event : Event Fields)
      → IsSound b print n s
      → Refines s (relay b print k clock event (get_elem? s.tasks k) s)
  unfolding relay
  relay-Refines s k clock event h = elim (Option-cases (get_elem? s.tasks k)) [
    | inl none_there ↦ rw none_there (idle-Refines s h)
    | inr ((i, awaits x), there) ↦ rw there (idle-Refines s h)
    | inr ((i, relays upstream request key p), there) ↦
        rw there (answer-Refines s h k i clock upstream request key p event there)
  ]
