-- ===== src/Proxy/Examples.antt =====
-- The statements about the proxy at concrete inputs, over fields that are a list.
use mathlib.Core.Path.{refl}
use eventedge.Base.{
  ◌≡◌, List, Text, [], ◌∷◌, none, some, true, false, ok, throw, invalid_argument, ◌⊎◌, codes, ◌++◌,
  find, Text-discrete,
}
use eventedge.Upstream.{UpstreamEndpoint}
use eventedge.Http.{Verb, has_trace_body, HttpRequest, HttpResponse, without}
use eventedge.Http.ListBeast.{Headers, list_beast, list_beast-ErasesByName}
use eventedge.Proxy.Tokens.{
  connection_tokens, tokens_from, find_from, strip, first_kept, last_kept, split,
}
use eventedge.Proxy.Stripping.{AreTokens, connection_tokens-AreTokens}
use eventedge.Proxy.Dropped.{Names, remove_hop_by_hop_headers-Names}
use eventedge.Proxy.Headers.{
  collect_tokens, erase_each, remove_hop_by_hop_headers, hop_by_hop, is_named,
}
use eventedge.Proxy.Machine.{
  default_timeouts, timeout, failure, Event, resolved, connected, written, received, forwarded,
  rewritten, run, create, UpstreamProxy, Action, steps,
}
use eventedge.Proxy.Once.{
  responses, CalledOnce, run-CalledOnce, IsSent, answer_of, first_error, steps-answer_of,
}

abbrev sent_headers : Headers
sent_headers =
    (codes "Connection", codes "close, X-Hop")
    ∷ (codes "X-Hop", codes "1")
    ∷ (codes "Accept", codes "*/*")
    ∷ (codes "TE", codes "trailers")
    ∷ []

abbrev sent_request : HttpRequest Headers
sent_request = record {
  method = Verb.get;
  target = codes "/a";
  version = 11;
  fields = sent_headers;
  body = [];
}

abbrev got_response : HttpResponse Headers
got_response = record { status = 200; version = 11; fields = sent_headers; body = codes "hello" }

abbrev backend : UpstreamEndpoint
backend = record { host = codes "localhost"; port = 9001 }

-- One field is left of four.
one_field_left :
    remove_hop_by_hop_headers list_beast sent_headers ≡ (codes "Accept", codes "*/*") ∷ []
unfolding remove_hop_by_hop_headers without erase_each collect_tokens Text-discrete
    connection_tokens tokens_from find_from find strip first_kept last_kept
one_field_left = refl

connection_tokens-AreTokens_example :
    AreTokens (split (codes " close , ,X-Hop")) (connection_tokens (codes " close , ,X-Hop"))
connection_tokens-AreTokens_example = connection_tokens-AreTokens (codes " close , ,X-Hop")

remove_hop_by_hop_headers-Names_example :
    (named : List Text) × Names list_beast sent_headers named
    × (remove_hop_by_hop_headers list_beast sent_headers
        ≡ without (is_named list_beast (named ++ hop_by_hop list_beast)) sent_headers)
remove_hop_by_hop_headers-Names_example =
    remove_hop_by_hop_headers-Names list_beast list_beast-ErasesByName sent_headers

abbrev some_events : List (Event Headers)
some_events =
    resolved none ∷ written none ∷ connected (some timeout) ∷ received none got_response ∷ []

run-CalledOnce_example :
    ((has_trace_body sent_request ≡ true)
      × (run list_beast (create list_beast backend sent_request default_timeouts)
          ≡ throw invalid_argument))
    ⊎ ((has_trace_body sent_request ≡ false)
        × (p : UpstreamProxy Headers) × (actions : List (Action Headers)) × (run list_beast
              (create list_beast backend sent_request default_timeouts)
            ≡ ok (p, actions))
        × (responses actions ≡ [])
        × CalledOnce list_beast
            (steps list_beast p some_events).0
            (steps list_beast p some_events).1)
run-CalledOnce_example = run-CalledOnce list_beast backend sent_request default_timeouts some_events

trace_throws :
    run list_beast (
      create list_beast backend
        (record sent_request { method = Verb.trace; body = codes "x" })
        default_timeouts)
    ≡ throw invalid_argument
unfolding run create forwarded rewritten
trace_throws = refl

steps-answer_of_example :
    (sent : HttpRequest Headers) × (p : UpstreamProxy Headers) × (actions : List (Action Headers))
    × IsSent list_beast backend sent_request sent
    × (run list_beast (create list_beast backend sent_request default_timeouts) ≡ ok (p, actions))
    × (responses
          (steps list_beast p (
            resolved none
            ∷ connected none
            ∷ written (some timeout)
            ∷ received (some failure) got_response
            ∷ [])).1
        ≡ answer_of list_beast sent_request sent
            (first_error list_beast (none ∷ none ∷ some timeout ∷ some failure ∷ []))
            got_response
          ∷ [])
steps-answer_of_example =
    steps-answer_of list_beast backend sent_request default_timeouts none none (some timeout)
      (some failure) got_response refl
