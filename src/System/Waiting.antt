-- ===== src/System/Waiting.antt =====
-- A session that waits for the answer to another's request is served when the proxy has answered.
use mathlib.Core.Path.{subst}
use eventedge.Base.{
  ℕ, ◌≡◌, refl, ap, ◌∙◌, Bool, false, [], ◌∷◌, Option, some, Text, ok, get_elem?, set,
  if◌then◌else◌,
}
use eventedge.Http.{Beast, HttpRequest, HttpResponse}
use eventedge.Upstream.{UpstreamEndpoint}
use eventedge.Proxy
use eventedge.Proxy.{UpstreamProxy, Event}
use eventedge.Proxy.Once.{responses, IsRunning}
use eventedge.Metrics.Render.{Printer}
use eventedge.Session.{
  HttpSession, read_request, shutdown_send, write, post, proxy, Clock, on_proxied,
}
use eventedge.Service.World
use eventedge.Service.World.{World, delivers, answered, handler, is_fatal}
use eventedge.Service.Answer.{Answers, holder-session}
use eventedge.System.State.{
  Task, awaits, relays, System, shared_of, resume, relayed, answer, relay, call, step,
}
use eventedge.System.View.{work_of, view, works_of-get_elem?, get_elem?-works_of, works_of-set}
use eventedge.System.Sound.{IsUnderWay, IsSound}
use eventedge.System.Refines.{resumed-delivers}

if-false {ℓ} : {A : Type ℓ} {b : Bool} (x y : A) → b ≡ false → (if b then x else y) ≡ y
if-false x y h = ap (λ c. if c then x else y) h

module _ {F : Type 0} where
  post-awaits :
      (id : ℕ) (response : HttpResponse F) (t : Task F)
      → work_of t ≡ post id response
      → t ≡ awaits (post id response)
  post-awaits id response (awaits x) h = ap awaits h
  post-awaits id response (relays upstream request key p) h = cc

-- The session `id` has a task that answers it.
abbrev pub IsServed : {Address F : Type 0} → ℕ → HttpResponse F → System Address F → Type 0
IsServed id response s = (q : ℕ) × (get_elem? s.tasks q ≡ some (id, awaits (post id response)))

Answers-IsServed :
    {Address F : Type 0} (id : ℕ) (response : HttpResponse F) (s : System Address F)
    → Answers id response (view s)
    → IsServed id response s
Answers-IsServed id response s (place, task) =
    let (u, there, is_post) = works_of-get_elem? place id (post id response) s.tasks task in
    (place, there ∙ ap (λ v. some (id, v)) (post-awaits id response u is_post))

module _ (b : Beast) where
  open b use {Fields}

  pub proxy-relays :
      (i : ℕ) (upstream : UpstreamEndpoint) (request : HttpRequest Fields) (key : Option Text)
      (t : Task Fields)
      → IsUnderWay b (i, t)
      → work_of t ≡ proxy upstream request key
      → (p : UpstreamProxy Fields) × (t ≡ relays upstream request key p) × IsRunning b p
  proxy-relays i upstream request key (relays u r k p) running h =
      let a : u ≡ upstream = cc in
      let c : r ≡ request = cc in
      let d : k ≡ key = cc in (p, (λ j. relays (a j) (c j) (d j) p), running)
  proxy-relays i upstream request key (awaits (proxy u r k)) running h = absurd running
  proxy-relays i upstream request key (awaits read_request) running h = cc
  proxy-relays i upstream request key (awaits shutdown_send) running h = cc
  proxy-relays i upstream request key (awaits (write response eof)) running h = cc
  proxy-relays i upstream request key (awaits (post id response)) running h = cc

module _ (b : Beast) (print : Printer) (n : ℕ) {Address : Type 0} where
  open b use {Fields}

  module _ (k i : ℕ) (upstream : UpstreamEndpoint) (request : HttpRequest Fields)
      (key : Option Text) where
    -- The system with a proxy in the place `k` that has come to `p`.
    abbrev pub come_to : UpstreamProxy Fields → System Address Fields → System Address Fields
    come_to p s = record s { tasks = set s.tasks k (i, relays upstream request key p) }

    -- An event of the proxy that ends nothing.
    pub relayed_quietly :
        (s : System Address Fields) (p : UpstreamProxy Fields) (clock : Clock)
        (event : Event Fields)
        → s.program.context_stopped ≡ false
        → get_elem? s.tasks k ≡ some (i, relays upstream request key p)
        → responses (Proxy.step b p event).1 ≡ []
        → step b print (relayed k clock event) s ≡ ok (come_to (Proxy.step b p event).0 s)
    unfolding step call relay answer
    relayed_quietly s p clock event on there quiet =
        if-false _ _ on
        ∙ ap (λ t. relay b print k clock event t s) there
        ∙ ap (λ rs. answer b print k i clock key rs (come_to (Proxy.step b p event).0 s)) quiet

    -- That the answer to the proxy serves the session `id`, whatever it is and whenever it comes.
    abbrev pub Serves : ℕ → System Address Fields → Type 0
    Serves id s =
        (clock : Clock) (response : HttpResponse Fields)
        → (w : World Fields) × (World.step b print (delivers k clock (answered response)) (view s)
            ≡ ok w)
          × Answers id response w

    -- The proxy calls the session that has started it.
    relayed_answer :
        (s : System Address Fields) (p : UpstreamProxy Fields) (y : HttpSession Fields)
        (clock : Clock) (event : Event Fields) (response : HttpResponse Fields)
        → s.program.context_stopped ≡ false
        → get_elem? s.tasks k ≡ some (i, relays upstream request key p)
        → get_elem? s.sessions i ≡ some y
        → responses (Proxy.step b p event).1 ≡ response ∷ []
        → step b print (relayed k clock event) s
          ≡ resume b print k i false
              (some (on_proxied b print clock key response y (shared_of s)))
              (come_to (Proxy.step b p event).0 s)
    unfolding step call relay answer
    relayed_answer s p y clock event response on there is_y called =
        if-false _ _ on
        ∙ ap (λ t. relay b print k clock event t s) there
        ∙ ap (λ rs. answer b print k i clock key rs (come_to (Proxy.step b p event).0 s)) called
        ∙ rw (answer, is_y) refl

    -- The event of the proxy that ends it.
    pub relayed_last :
        (s : System Address Fields) (p : UpstreamProxy Fields) (clock : Clock)
        (event : Event Fields) (id : ℕ) (response : HttpResponse Fields)
        → s.program.context_stopped ≡ false
        → IsSound b print n s
        → get_elem? s.tasks k ≡ some (i, relays upstream request key p)
        → Serves id s
        → responses (Proxy.step b p event).1 ≡ response ∷ []
        → (s' : System Address Fields) × (step b print (relayed k clock event) s ≡ ok s')
          × IsServed id response s'
    unfolding handler is_fatal
    relayed_last s p clock event id response on h there serves called =
        let q = (Proxy.step b p event).0 in
        let t = relays upstream request key q in
        let same = works_of-set k i (relays upstream request key p) t s.tasks there refl in
        let shown = get_elem?-works_of k i (relays upstream request key p) s.tasks there in
        let (y, is_y) =
          holder-session b print n (view s) k i (proxy upstream request key) h.balanced shown in
        let (s', done, stepped) =
          resumed-delivers b print n s h k i clock (set s.tasks k (i, t))
            (proxy upstream request key) y (answered response) tt
            (on_proxied b print clock key response y (shared_of s)) same shown is_y refl in
        let (w, world_stepped, answers) = serves clock response in
        let same_world : w ≡ view s' = cc in
        (
          s',
          relayed_answer s p y clock event response on there is_y called ∙ done,
          Answers-IsServed id response s' (subst (Answers id response) same_world answers),
        )
