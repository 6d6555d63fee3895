-- ===== src/Server/Closing.antt =====
-- How many sessions a server may still get.
use eventedge.Base.{ℕ, zero, suc, ◌+◌, ◌≤◌, ◌≡◌, refl, Bool, true, false, List, [], ◌∷◌, arith}
use eventedge.Server.Acceptor.{
  HttpServer, ServerEvent, accepts, stops, stop, do_accept, on_accept, accept, react, react_all,
}

module _ {F : Type 0} where
  -- A handler takes the one accept that it ends, and starts another at most.
  accept-accepting :
      (error : Bool) (s : HttpServer F) (n : ℕ) → s.accepting ≡ n → (accept n error s).accepting ≤ n
  unfolding accept on_accept do_accept
  accept-accepting error s zero h = omega (arith, h)
  accept-accepting error s (suc n) h = ground (arith, h)

  pub react_all-accepting :
      (events : List ServerEvent) (s : HttpServer F) → (react_all events s).accepting ≤ s.accepting
  unfolding react_all react stop
  react_all-accepting [] s = omega arith
  react_all-accepting (stops ∷ events) s = omega (arith, react_all-accepting events (stop s))
  react_all-accepting (accepts error ∷ events) s = omega (
    arith,
    react_all-accepting events (accept s.accepting error s),
    accept-accepting error s s.accepting refl,
  )

  -- A server that is closed, and gets a session at most for each accept under way.
  abbrev pub IsClosing : HttpServer F → HttpServer F → Type 0
  IsClosing s s' = (s'.is_open ≡ false) × (s'.sessions + s'.accepting ≤ s.sessions + s.accepting)

  accept-IsClosing :
      (error : Bool) (s : HttpServer F) (n : ℕ)
      → s.is_open ≡ false
      → s.accepting ≡ n
      → IsClosing s (accept n error s)
  unfolding accept on_accept do_accept
  accept-IsClosing error s zero closed h = (closed, omega arith)
  accept-IsClosing true s (suc n) closed h = (ground (arith, closed), ground (arith, closed, h))
  accept-IsClosing false s (suc n) closed h = (ground (arith, closed), ground (arith, closed, h))

  pub react_all-IsClosing :
      (events : List ServerEvent) (s : HttpServer F)
      → s.is_open ≡ false
      → IsClosing s (react_all events s)
  unfolding react_all react stop
  react_all-IsClosing [] s closed = (closed, omega arith)
  react_all-IsClosing (stops ∷ events) s closed =
      let (closed', few) = react_all-IsClosing events (stop s) refl in (closed', omega (arith, few))
  react_all-IsClosing (accepts error ∷ events) s closed =
      let (closed', few) = accept-IsClosing error s s.accepting closed refl in
      let (closed'', few') = react_all-IsClosing events (accept s.accepting error s) closed' in
      (closed'', omega (arith, few, few'))
