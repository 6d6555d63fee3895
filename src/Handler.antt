-- ===== src/Handler.antt =====
-- src/http_handler.cpp: the responses that the program makes itself.
use eventedge.Base.{
  ℕ, Bool, true, false, not, [], ◌∷◌, ◌++◌, Text, codes, Text-discrete, ite, if◌then◌else◌,
}
use eventedge.Http.{
  Beast, HttpRequest, HttpResponse, Field, Verb, success, not_found, method_not_allowed,
  bad_gateway, service_unavailable, gateway_timeout,
}

abbrev pub is_get : Verb → Bool
is_get Verb.get = true
is_get Verb.trace = false
is_get (Verb.other name) = false

abbrev pub text_eq : Text → Text → Bool
text_eq s t = ite (Text-discrete s t) true false

abbrev pub newline : Text
newline = 10 ∷ []

abbrev pub health_body : Text
health_body = codes "{\"status\":\"ok\",\"service\":\"eventedge\"}"

module _ (b : Beast) where
  open b use {Fields, empty, name_of, set, keep_alive, set_keep_alive, prepare_response}

  unfoldable pub make_response : HttpRequest Fields → ℕ → Text → Text → HttpResponse Fields
  make_response request status content_type body =
      let f0 = set (name_of Field.server) (codes "EventEdge") empty in
      let f1 = set (name_of Field.content_type) content_type f0 in
      let f2 = set_keep_alive request.version (keep_alive request.version request.fields) f1 in
      let r : HttpResponse Fields = record {
        status = status;
        version = request.version;
        fields = f2;
        body = body;
      } in
      record r { fields = prepare_response r }

  unfoldable pub is_health_request : HttpRequest Fields → Bool
  is_health_request request = text_eq request.target (codes "/health")

  unfoldable pub handle_request : HttpRequest Fields → HttpResponse Fields
  handle_request request =
      if not (is_get request.method)
      then (let r =
            make_response request method_not_allowed (codes "text/plain")
              (codes "Method not allowed" ++ newline) in
          record r { fields = set (name_of Field.allow) (codes "GET") r.fields })
      else if is_health_request request
      then make_response request success (codes "application/json") health_body
      else make_response request not_found (codes "text/plain") (codes "Not found" ++ newline)

  unfoldable pub make_bad_gateway_response : HttpRequest Fields → HttpResponse Fields
  make_bad_gateway_response request =
      make_response request bad_gateway (codes "text/plain") (codes "Bad Gateway" ++ newline)

  unfoldable pub make_service_unavailable_response : HttpRequest Fields → HttpResponse Fields
  make_service_unavailable_response request =
      make_response request service_unavailable (codes "text/plain")
        (codes "Service Unavailable" ++ newline)

  unfoldable pub make_gateway_timeout_response : HttpRequest Fields → HttpResponse Fields
  make_gateway_timeout_response request =
      make_response request gateway_timeout (codes "text/plain")
        (codes "Gateway Timeout" ++ newline)
