-- ===== src/System/Served.antt =====
-- A session that waits for the answer to another's request is served when the proxy has answered.
use mathlib.Core.Path.{subst}
use eventedge.Base.{
  ℕ, ◌<◌, ◌≡◌, refl, sym, ap, ◌∙◌, false, List, [], ◌∷◌, ◌++◌, map, Option, some, Text, ok, length,
  get_elem?, get_elem?_bound, get_elem?-set_self, All-get_elem?,
}
use eventedge.Http.{Beast, HttpRequest, HttpResponse}
use eventedge.Upstream.{UpstreamEndpoint}
use eventedge.Proxy
use eventedge.Proxy.{UpstreamProxy, Event}
use eventedge.Proxy.Once.{responses, responses-append, IsRunning}
use eventedge.Metrics.Render.{Printer}
use eventedge.Session.{proxy, Clock}
use eventedge.Service.World
use eventedge.Service.World.{World, delivers, answered}
use eventedge.Service.Counts.{owned, times}
use eventedge.Service.Answer.{Answers, waiting-Answered}
use eventedge.System.State.{relays, System, SystemEvent, relayed, steps}
use eventedge.System.View.{works_of, view, works_of-get_elem?, works_of-set}
use eventedge.System.Sound.{IsUnderWay, IsSound}
use eventedge.System.History.{step-Refines}
use eventedge.System.Waiting.{
  proxy-relays, come_to, relayed_quietly, Serves, IsServed, relayed_last,
}

-- Events of the proxy in the place `k`, each with the times at which its handler reads the clock.
abbrev pub relays_all : {F : Type 0} → ℕ → List (Clock × Event F) → List (SystemEvent F)
relays_all k es = map (λ e. relayed k e.0 e.1) es

abbrev pub events_of : {F : Type 0} → List (Clock × Event F) → List (Event F)
events_of es = map (λ e. e.1) es

module _ {ℓ} {A : Type ℓ} where
  nil_of_append : (xs ys : List A) → xs ++ ys ≡ [] → (xs ≡ []) × (ys ≡ [])
  nil_of_append [] ys h = (refl, h)
  nil_of_append (x ∷ xs) ys h = cc

module _ (b : Beast) (print : Printer) (n : ℕ) {Address : Type 0} where
  open b use {Fields}

  module _ (k i : ℕ) (upstream : UpstreamEndpoint) (request : HttpRequest Fields)
      (key : Option Text) (id : ℕ) (clock : Clock) (event : Event Fields)
      (response : HttpResponse Fields) where
    answer_comes :
        (es : List (Clock × Event Fields)) (s : System Address Fields) (p : UpstreamProxy Fields)
        → s.program.context_stopped ≡ false
        → IsSound b print n s
        → get_elem? s.tasks k ≡ some (i, relays upstream request key p)
        → Serves b print n k i upstream request key id s
        → responses (Proxy.steps b p (events_of es)).1 ≡ []
        → responses (Proxy.step b (Proxy.steps b p (events_of es)).0 event).1 ≡ response ∷ []
        → (s' : System Address Fields) × (steps b print
              (relays_all k es ++ (relayed k clock event ∷ []))
              s
            ≡ ok s')
          × IsServed id response s'
    unfolding steps Proxy.steps
    answer_comes [] s p on h there serves quiet called =
        let (s', done, served) =
          relayed_last b print n k i upstream request key s p clock event id response on h there
            serves called in
        (s', rw done refl, served)
    answer_comes ((c, e) ∷ es) s p on h there serves quiet called =
        let q = (Proxy.step b p e).0 in
        let (quiet_now, quiet_later) =
          nil_of_append (responses (Proxy.step b p e).1)
            (responses (Proxy.steps b q (events_of es)).1)
            (sym (responses-append (Proxy.step b p e).1 (Proxy.steps b q (events_of es)).1)
              ∙ quiet) in
        let done = relayed_quietly b print n k i upstream request key s p c e on there quiet_now in
        let now = come_to b print n k i upstream request key q s in
        let look : view s ≡ view now = λ j. record (view s) {
          work =
              sym
                (works_of-set k i (relays upstream request key p) (relays upstream request key q)
                  s.tasks there refl)
                j;
        } in
        let (t, done', sound, _) = step-Refines b print n (relayed k c e) s tt h in
        let same : t ≡ now = cc in
        let (s', rest, served) =
          answer_comes es now q on (subst (IsSound b print n) same sound)
            (get_elem?-set_self s.tasks k (i, relays upstream request key q)
              (get_elem?_bound s.tasks k there))
            (λ c' r.
              subst
                (λ v.
                  (w : World Fields) × (World.step b print (delivers k c' (answered r)) v ≡ ok w)
                  × Answers id r w)
                look (serves c' r))
            quiet_later called in
        (s', rw done rest, served)

  -- While the program serves, a session that has connected, has not ended and has no task of its own
  -- waits for a proxy that has an operation under way. However the operations of that proxy go, and
  -- whatever they end with, as soon as the proxy has an answer the session has a task with it.
  pub waiting-IsServed :
      (s : System Address Fields) (id : ℕ)
      → IsSound b print n s
      → s.program.context_stopped ≡ false
      → id < length s.sessions
      → owned id (works_of s.tasks) ≡ 0
      → times id s.ended ≡ 0
      → (k : ℕ) × (i : ℕ) × (upstream : UpstreamEndpoint) × (request : HttpRequest Fields)
        × (key : Text) × (p : UpstreamProxy Fields) × (get_elem? s.tasks k
            ≡ some (i, relays upstream request (some key) p))
        × IsRunning b p
        × ((es : List (Clock × Event Fields)) (clock : Clock) (event : Event Fields)
              (response : HttpResponse Fields)
            → responses (Proxy.steps b p (events_of es)).1 ≡ []
            → responses (Proxy.step b (Proxy.steps b p (events_of es)).0 event).1 ≡ response ∷ []
            → (s' : System Address Fields) × (steps b print
                  (relays_all k es ++ (relayed k clock event ∷ []))
                  s
                ≡ ok s')
              × IsServed id response s')
  waiting-IsServed s id h on connected idle going =
      let (k, i, upstream, request, key, there, serves) =
        waiting-Answered b print n (view s) id h.balanced connected idle going in
      let (t, task, shows) =
        works_of-get_elem? k i (proxy upstream request (some key)) s.tasks there in
      let under_way = All-get_elem? (IsUnderWay b) s.tasks k (i, t) h.under_way task in
      let (p, is_p, running) = proxy-relays b i upstream request (some key) t under_way shows in
      let placed = task ∙ ap (λ x. some (i, x)) is_p in
      (
        k,
        i,
        upstream,
        request,
        key,
        p,
        placed,
        running,
        (λ es clock event response quiet called.
            answer_comes k i upstream request (some key) id clock event response es s p on h placed
              serves quiet called),
      )
