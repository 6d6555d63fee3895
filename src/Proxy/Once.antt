-- ===== src/Proxy/Once.antt =====
-- The completion handler of a proxy: called once, and with which response.
use mathlib.Core.Path.{subst}
use eventedge.Base.{
  ◌≡◌, refl, sym, ap, ◌∙◌, ◌⊎◌, inl, inr, true, false, List, [], ◌∷◌, ◌++◌, Option, none, some,
  codes, ok, throw, invalid_argument, Bool-cases,
}
use eventedge.Upstream.{UpstreamEndpoint}
use eventedge.Proxy.Host.{upstream_host_header}
use eventedge.Http.{host, connection, Beast, HttpRequest, HttpResponse, has_trace_body}
use eventedge.Handler.{make_gateway_timeout_response, make_bad_gateway_response}
use eventedge.Decimal.{to_string}
use eventedge.Proxy.Headers.{remove_hop_by_hop_headers}
use eventedge.Proxy.Machine.{
  ProxyTimeouts, ErrorCode, timeout, failure, Operation, resolves, connects, writes, reads, Action,
  start_resolve, start_connect, start_write, start_read, shutdown, cancel, close, respond,
  UpstreamProxy, Event, resolved, connected, written, received, create, rewritten, forwarded, run,
  complete, fail, on_resolve, on_connect, on_write, relayed, on_read, dispatch, step, steps,
}

-- The responses that the completion handler is called with.
unfoldable pub responses : {F : Type 0} → List (Action F) → List (HttpResponse F)
responses [] = []
responses (respond r ∷ actions) = r ∷ responses actions
responses (start_resolve h p ∷ actions) = responses actions
responses (start_connect t ∷ actions) = responses actions
responses (start_write t r ∷ actions) = responses actions
responses (start_read t ∷ actions) = responses actions
responses (shutdown ∷ actions) = responses actions
responses (cancel ∷ actions) = responses actions
responses (close ∷ actions) = responses actions

pub responses-append :
    {F : Type 0} (xs ys : List (Action F)) → responses (xs ++ ys) ≡ responses xs ++ responses ys
unfolding responses
responses-append [] ys = refl
responses-append (respond r ∷ xs) ys = ap (◌∷◌ r) (responses-append xs ys)
responses-append (start_resolve h p ∷ xs) ys = responses-append xs ys
responses-append (start_connect t ∷ xs) ys = responses-append xs ys
responses-append (start_write t r ∷ xs) ys = responses-append xs ys
responses-append (start_read t ∷ xs) ys = responses-append xs ys
responses-append (shutdown ∷ xs) ys = responses-append xs ys
responses-append (cancel ∷ xs) ys = responses-append xs ys
responses-append (close ∷ xs) ys = responses-append xs ys

module _ (b : Beast) where
  open b use {Fields}

  -- An operation is under way and the handler has not been called.
  pub record IsRunning (p : UpstreamProxy Fields) : Type 0 where
    pub operation : Operation
    pub awaited : p.outstanding ≡ some operation
    pub held : p.completion_handler ≡ true
    pub open_still : p.completed ≡ false

  -- Nothing is under way and the handler is gone.
  pub record IsOver (p : UpstreamProxy Fields) : Type 0 where
    pub idle : p.outstanding ≡ none
    pub released : p.completion_handler ≡ false
    pub closed : p.completed ≡ true

  -- What a stretch of events has done: nothing to the handler yet, or one call of it.
  abbrev pub CalledOnce : UpstreamProxy Fields → List (Action Fields) → Type 0
  CalledOnce p actions =
      (IsRunning p × (responses actions ≡ []))
      ⊎ (IsOver p × ((r : HttpResponse Fields) × (responses actions ≡ r ∷ [])))

  complete_once :
      (r : HttpResponse Fields) (p : UpstreamProxy Fields)
      → p.outstanding ≡ none
      → p.completion_handler ≡ true
      → p.completed ≡ false
      → IsOver (complete b r p).0 × (responses (complete b r p).1 ≡ r ∷ [])
  unfolding complete responses
  complete_once r p idle held fresh =
      (rw fresh (record { idle = idle; released = refl; closed = refl }), rw (fresh, held))

  fail_once :
      (e : ErrorCode) (p : UpstreamProxy Fields)
      → p.outstanding ≡ none
      → p.completion_handler ≡ true
      → p.completed ≡ false
      → IsOver (fail b e p).0 × ((r : HttpResponse Fields) × (responses (fail b e p).1 ≡ r ∷ []))
  unfolding fail
  fail_once timeout p idle held fresh =
      let (o, h) = complete_once (make_gateway_timeout_response b p.request) p idle held fresh in
      simp fresh (o, (make_gateway_timeout_response b p.request, h))
  fail_once failure p idle held fresh =
      let (o, h) = complete_once (make_bad_gateway_response b p.request) p idle held fresh in
      simp fresh (o, (make_bad_gateway_response b p.request, h))

  dispatch-CalledOnce :
      (op : Operation) (event : Event Fields) (p : UpstreamProxy Fields)
      → p.outstanding ≡ some op
      → p.completion_handler ≡ true
      → p.completed ≡ false
      → CalledOnce (dispatch b (some op) event p).0 (dispatch b (some op) event p).1
  unfolding dispatch on_resolve on_connect on_write on_read responses
  dispatch-CalledOnce resolves (resolved none) p w h f =
      inl (record { operation = connects; awaited = refl; held = h; open_still = f }, refl)
  dispatch-CalledOnce connects (connected none) p w h f =
      inl (record { operation = writes; awaited = refl; held = h; open_still = f }, refl)
  dispatch-CalledOnce writes (written none) p w h f =
      inl (record { operation = reads; awaited = refl; held = h; open_still = f }, refl)
  dispatch-CalledOnce resolves (resolved (some e)) p w h f =
      inr (fail_once e (record p { outstanding = none }) refl h f)
  dispatch-CalledOnce connects (connected (some e)) p w h f =
      inr (fail_once e (record p { outstanding = none }) refl h f)
  dispatch-CalledOnce writes (written (some e)) p w h f =
      inr (fail_once e (record p { outstanding = none }) refl h f)
  dispatch-CalledOnce reads (received (some e) r) p w h f =
      inr (fail_once e (record p { outstanding = none }) refl h f)
  dispatch-CalledOnce reads (received none r) p w h f =
      let q = record p { outstanding = none } in
      let relay = relayed b q.client_version q.client_keep_alive r in
      let (o, c) = complete_once relay q refl h f in inr (o, (relay, c))
  dispatch-CalledOnce op event p w h f =
      inl (record { operation = op; awaited = w; held = h; open_still = f }, refl)

  pub step-CalledOnce :
      (event : Event Fields) (p : UpstreamProxy Fields)
      → IsRunning p
      → CalledOnce (step b p event).0 (step b p event).1
  unfolding step
  step-CalledOnce event p r =
      subst (λ o. CalledOnce (dispatch b o event p).0 (dispatch b o event p).1) (sym r.awaited)
        (dispatch-CalledOnce r.operation event p r.awaited r.held r.open_still)

  step_over :
      (event : Event Fields) (p : UpstreamProxy Fields) → IsOver p → step b p event ≡ (p, [])
  unfolding step dispatch
  step_over event p o = rw (o.idle, step, dispatch)

  steps_over :
      (events : List (Event Fields)) (p : UpstreamProxy Fields)
      → IsOver p
      → steps b p events ≡ (p, [])
  unfolding steps
  steps_over [] p o = refl
  steps_over (event ∷ events) p o = rw (step_over event p o, steps_over events p o)

  -- Over a list of events.
  steps-CalledOnce :
      (events : List (Event Fields)) (p : UpstreamProxy Fields)
      → IsRunning p
      → CalledOnce (steps b p events).0 (steps b p events).1
  unfolding steps responses
  steps-CalledOnce [] p r = inl (r, refl)
  steps-CalledOnce (event ∷ events) p r =
      let now = (step b p event).1 in
      let q = (step b p event).0 in
      let later = (steps b q events).1 in
      elim (step-CalledOnce event p r) [
        | inl (running, quiet) ↦ elim (steps-CalledOnce events q running) [
          | inl (still, silent) ↦ inl (still, responses-append now later ∙ rw (quiet, silent))
          | inr (over, (response, called)) ↦
              inr (over, (response, responses-append now later ∙ rw (quiet, called)))
        ]
        | inr (over, (response, called)) ↦
            (let idle = steps_over events q over in
              inr (
                subst (λ x. IsOver x.0) (sym idle) over,
                (
                  response,
                  responses-append now later
                      ∙ ap (λ x. responses now ++ responses x.1) idle
                      ∙ rw called,
                ),
              ))
      ]

  -- The response for the first error among four stages, or for the response read.
  unfoldable pub failed_with : ErrorCode → HttpRequest Fields → HttpResponse Fields
  failed_with timeout request = make_gateway_timeout_response b request
  failed_with failure request = make_bad_gateway_response b request

  abbrev pub first_error : List (Option ErrorCode) → Option ErrorCode
  first_error [] = none
  first_error (none ∷ es) = first_error es
  first_error (some e ∷ es) = some e

  -- The response as the client gets it: that of the upstream, without the fields that are for one
  -- connection only, in the version and with the keep-alive of the client's request.
  abbrev pub relayed_to : HttpRequest Fields → HttpResponse Fields → HttpResponse Fields
  relayed_to request response =
      let unprepared : HttpResponse Fields = record {
        status = response.status;
        version = request.version;
        fields =
            b.set_keep_alive request.version (b.keep_alive request.version request.fields)
              (remove_hop_by_hop_headers b response.fields);
        body = response.body;
      } in
      record {
        status = response.status;
        version = request.version;
        fields = b.prepare_response unprepared;
        body = response.body;
      }

  -- The request for an upstream, before the library prepares it.
  abbrev pub addressed_to : UpstreamEndpoint → HttpRequest Fields → HttpRequest Fields
  addressed_to upstream request =
      let kept = remove_hop_by_hop_headers b request.fields in
      let addressed = b.set (b.name_of host) (upstream_host_header upstream) kept in
      record {
        method = request.method;
        target = request.target;
        version = 11;
        fields = b.set (b.name_of connection) (codes "close") (b.set_keep_alive 11 false addressed);
        body = request.body;
      }

  -- What is sent, after the library has prepared it.
  abbrev pub IsSent : UpstreamEndpoint → HttpRequest Fields → HttpRequest Fields → Type 0
  IsSent upstream request sent =
      (b.prepare_request (addressed_to upstream request) ≡ ok sent.fields)
      × (sent ≡ record (addressed_to upstream request) { fields = sent.fields })

  abbrev pub answer_of :
      HttpRequest Fields
      → HttpRequest Fields
      → Option ErrorCode
      → HttpResponse Fields
      → HttpResponse Fields
  answer_of request sent (some e) response = failed_with e sent
  answer_of request sent none response = relayed_to request response

  module _ (upstream : UpstreamEndpoint) (request : HttpRequest Fields)
      (timeouts : ProxyTimeouts) where
    -- The proxy that has sent for the addresses of its upstream, with the request that it will send.
    abbrev begun : HttpRequest Fields → UpstreamProxy Fields
    begun sent = record (create b upstream request timeouts) {
      request = sent;
      outstanding = some resolves;
    }

    abbrev first_action : List (Action Fields)
    first_action = start_resolve upstream.host (to_string upstream.port) ∷ []

    -- A proxy whose request is not a TRACE with a body can be run.
    pub run_ok :
        has_trace_body request ≡ false
        → (sent : HttpRequest Fields) × (forwarded b upstream request ≡ ok sent)
          × (run b (create b upstream request timeouts) ≡ ok (begun sent, first_action))
    unfolding run create forwarded rewritten
    run_ok fits =
        let r = rewritten b upstream request in
        let (fields, prepared) = b.prepares r fits in
        (record r { fields = fields }, rw prepared refl, rw prepared refl)

    pub begun-IsRunning : (sent : HttpRequest Fields) → IsRunning (begun sent)
    unfolding create
    begun-IsRunning sent = record {
      operation = resolves;
      awaited = refl;
      held = refl;
      open_still = refl;
    }

    run_throws :
        has_trace_body request ≡ true
        → run b (create b upstream request timeouts) ≡ throw invalid_argument
    unfolding run create forwarded rewritten
    run_throws refused = rw (b.refuses (rewritten b upstream request) refused) refl

    -- A proxy for a TRACE request with a body throws when it is run. Any other can be run; then,
    -- whatever events it is given, either an operation is under way, the handler is still held and
    -- it has not been called, or nothing is under way, the handler is gone and it has been called
    -- exactly once.
    pub run-CalledOnce :
        (events : List (Event Fields))
        → ((has_trace_body request ≡ true)
            × (run b (create b upstream request timeouts) ≡ throw invalid_argument))
          ⊎ ((has_trace_body request ≡ false)
              × (p : UpstreamProxy Fields) × (actions : List (Action Fields)) × (run b
                    (create b upstream request timeouts)
                  ≡ ok (p, actions))
              × (responses actions ≡ [])
              × CalledOnce (steps b p events).0 (steps b p events).1)
    unfolding responses
    run-CalledOnce events = elim (Bool-cases (has_trace_body request)) [
      | inl refused ↦ inl (refused, run_throws refused)
      | inr fits ↦
          let (sent, prepared, runs) = run_ok fits in
          inr (
            fits,
            begun sent,
            first_action,
            runs,
            refl,
            steps-CalledOnce events (begun sent) (begun-IsRunning sent),
          )
    ]

    answered_all :
        (sent : HttpRequest Fields) (e1 e2 e3 e4 : Option ErrorCode) (r : HttpResponse Fields)
        → responses
            (steps b (begun sent) (resolved e1 ∷ connected e2 ∷ written e3 ∷ received e4 r ∷ [])).1
          ≡ answer_of request sent (first_error (e1 ∷ e2 ∷ e3 ∷ e4 ∷ [])) r ∷ []
    unfolding steps step dispatch on_resolve on_connect on_write on_read fail complete responses
        failed_with create relayed
    answered_all sent (some timeout) e2 e3 e4 r = refl
    answered_all sent (some failure) e2 e3 e4 r = refl
    answered_all sent none (some timeout) e3 e4 r = refl
    answered_all sent none (some failure) e3 e4 r = refl
    answered_all sent none none (some timeout) e4 r = refl
    answered_all sent none none (some failure) e4 r = refl
    answered_all sent none none none (some timeout) r = refl
    answered_all sent none none none (some failure) r = refl
    answered_all sent none none none none r = refl

    run_sends :
        has_trace_body request ≡ false
        → (sent : HttpRequest Fields) × IsSent upstream request sent
          × (run b (create b upstream request timeouts) ≡ ok (begun sent, first_action))
    unfolding run create forwarded rewritten
    run_sends fits =
        let r = addressed_to upstream request in
        let (fields, prepared) = b.prepares r fits in
        (record r { fields = fields }, (prepared, refl), rw prepared refl)

    -- When the four operations of a proxy that has been run, for a request that is not a TRACE with
    -- a body, have ended, each with an error or none, the handler has been called exactly once: if
    -- none failed, with the status and body of the response read, in the version and with the
    -- keep-alive of the client's request, its other fields being those of the response without the
    -- hop-by-hop ones, as the library prepares them; else by the first error, with a gateway timeout
    -- for the library's timeout and a bad gateway for another, made from the request as it was sent:
    -- the client's method, target and body, as HTTP/1.1, its fields being those of the request
    -- without the hop-by-hop ones, with the upstream's Host and a connection that closes, as the
    -- library prepares them.
    pub steps-answer_of :
        (e1 e2 e3 e4 : Option ErrorCode) (r : HttpResponse Fields)
        → has_trace_body request ≡ false
        → (sent : HttpRequest Fields) × (p : UpstreamProxy Fields) × (actions : List
            (Action Fields))
          × IsSent upstream request sent
          × (run b (create b upstream request timeouts) ≡ ok (p, actions))
          × (responses (steps b p (resolved e1 ∷ connected e2 ∷ written e3 ∷ received e4 r ∷ [])).1
              ≡ answer_of request sent (first_error (e1 ∷ e2 ∷ e3 ∷ e4 ∷ [])) r ∷ [])
    steps-answer_of e1 e2 e3 e4 r fits =
        let (sent, prepared, runs) = run_sends fits in
        (sent, begun sent, first_action, prepared, runs, answered_all sent e1 e2 e3 e4 r)
