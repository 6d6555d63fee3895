-- ===== src/System/Arrivals.antt =====
-- A client that arrives gets a session.
use mathlib.Core.Path.{subst}
use eventedge.Base.{
  ℕ, zero, suc, inl, inr, ◌+◌, ◌≡◌, refl, sym, ap, ◌∙◌, Bool, true, false, List, [], ◌∷◌, ◌++◌, ok,
  length, length-append, if◌then◌else◌, All, All-append, Bool-cases, arith,
}
use eventedge.Http.{Beast}
use eventedge.Metrics.Render.{Printer}
use eventedge.Server
use eventedge.Server.{HttpServer}
use eventedge.Session
use eventedge.Session.{do_read, Work}
use eventedge.Service.World
use eventedge.Service.World.{World, WorldEvent, connects, assigned, holder}
use eventedge.Upstream.{size}
use eventedge.Monitor.Going.{IsGoing, seen-IsGoing}
use eventedge.Service.Balance.{IsBalanced}
use eventedge.Service.History.{IsInside, ends-IsBalanced}
use eventedge.System.State.{System, launch_all, monitoring, open_session, accept}
use eventedge.System.View.{works_of, view, works_of-append, works_of-launch_all}
use eventedge.System.Sound.{IsAccepting, IsUnderWay, launch_all-IsUnderWay, IsSound}
use eventedge.System.Refines.{Refines, idle-Refines}

-- The handler of the one accept under way.
on_accept-IsAccepting :
    {F : Type 0} (error : Bool) (s : HttpServer F)
    → s.accepting ≡ 0
    → IsAccepting (Server.on_accept error s)
      × ((Server.on_accept error s).sessions ≡ (if error then 0 else 1) + s.sessions)
      × ((Server.on_accept error s).shared ≡ s.shared)
unfolding Server.on_accept Server.do_accept
on_accept-IsAccepting true s none_left = elim (Bool-cases s.is_open) [
  | inl on ↦ rw on (
    record { at_most_one = omega (arith, none_left); goes_on = λ h. omega (arith, none_left) },
    omega arith,
    refl,
  )
  | inr off ↦
      rw off
        (record { at_most_one = omega (arith, none_left); goes_on = λ h. cc }, omega arith, refl)
]
on_accept-IsAccepting false s none_left = elim (Bool-cases s.is_open) [
  | inl on ↦ rw on (
    record { at_most_one = omega (arith, none_left); goes_on = λ h. omega (arith, none_left) },
    omega arith,
    refl,
  )
  | inr off ↦
      rw off
        (record { at_most_one = omega (arith, none_left); goes_on = λ h. cc }, omega arith, refl)
]

module _ (b : Beast) (print : Printer) (n : ℕ) {Address : Type 0} where
  open b use {Fields}

  -- The system with another server, over the same shared objects.
  abbrev served : HttpServer Fields → System Address Fields → System Address Fields
  served server s = record s { program = record s.program { server = server } }

  served-Refines :
      (s t : System Address Fields) (server : HttpServer Fields) (events : List (WorldEvent Fields))
      → IsSound b print n s
      → IsGoing (monitoring t)
      → All (IsUnderWay b) t.tasks
      → server.shared ≡ t.program.server.shared
      → IsAccepting server
      → server.sessions ≡ length t.sessions
      → All (IsInside n) events
      → World.steps b print events (view s) ≡ ok (view t)
      → Refines b print n s (ok (served server t))
  served-Refines s t server events h going under_way same accepting counted inside ran =
      let look : view t ≡ view (served server t) = λ j. record (view t) { shared = sym same j } in
      (
        served server t,
        refl,
        record {
          going =
              seen-IsGoing (monitoring t) (monitoring (served server t)).watched
                (ap (λ w. size w.upstream_pool) same) going;
          balanced =
              subst (IsBalanced b print n) look
                (ends-IsBalanced b print n events (view s) (view t) inside h.balanced ran);
          under_way = under_way;
          counted = counted;
          accepting = accepting;
        },
        (events, inside, ran ∙ ap ok look),
      )

  -- The system with one session more, which reads.
  abbrev opened : System Address Fields → System Address Fields
  opened s = record s {
    sessions = s.sessions ++ (Session.create b print (length s.sessions) ∷ []);
    tasks = s.tasks ++ launch_all b ((length s.sessions, Session.read_request) ∷ []);
  }

  opened-connects :
      (s : System Address Fields)
      → World.steps b print (connects ∷ []) (view s) ≡ ok (view (opened s))
  unfolding Session.run Session.create do_read assigned holder World.steps World.step World.connect
  opened-connects s =
      let new : List (ℕ × Work Fields) = (length s.sessions, Session.read_request) ∷ [] in
      let shown =
        works_of-append s.tasks (launch_all b new)
        ∙ ap (λ ws. works_of s.tasks ++ ws) (works_of-launch_all b new) in
      λ j. ok (record (view s) {
        sessions = s.sessions ++ (Session.create b print (length s.sessions) ∷ []);
        work = sym shown j;
      })

  -- The accept under way has come to a socket, or to an error.
  pub accept-Refines :
      (left : ℕ) (error : Bool) (s : System Address Fields)
      → s.program.server.accepting ≡ left
      → IsSound b print n s
      → Refines b print n s (accept b print left error s)
  unfolding accept open_session Session.run Session.create do_read assigned holder Server.react
      Server.accept World.steps
  accept-Refines zero error s none_there h = idle-Refines b print n s h
  accept-Refines (suc left) true s one h =
      let (accepting, counted, same) =
        on_accept-IsAccepting true (record s.program.server { accepting = left })
          (omega (arith, one, h.accepting.at_most_one)) in
      rw one (
        served-Refines s s (Server.on_accept true (record s.program.server { accepting = left })) []
          h h.going h.under_way same accepting (omega (arith, counted, h.counted)) tt refl)
  accept-Refines (suc left) false s one h =
      let (accepting, counted, same) =
        on_accept-IsAccepting false (record s.program.server { accepting = left })
          (omega (arith, one, h.accepting.at_most_one)) in
      rw one (
        served-Refines s (opened s)
          (Server.on_accept false (record s.program.server { accepting = left })) (connects ∷ []) h
          h.going
          (All-append (IsUnderWay b) s.tasks
            (launch_all b ((length s.sessions, Session.read_request) ∷ [])) h.under_way
            (launch_all-IsUnderWay b print n ((length s.sessions, Session.read_request) ∷ [])
              (tt, tt)))
          same accepting
          (omega (
            arith,
            counted,
            h.counted,
            length-append s.sessions (Session.create b print (length s.sessions) ∷ []),
          ))
          (tt, tt) (opened-connects s))
