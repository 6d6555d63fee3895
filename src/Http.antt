-- ===== src/Http.antt =====
-- include/eventedge/http_handler.hpp: the messages, which are Boost.Beast's. Their scalar parts are
-- fields of a record; the header fields and what the library does with them are a parameter.
pub mod ListBeast
use eventedge.Base.{
  ℕ, ◌≡◌, Bool, true, false, List, [], ◌∷◌, Option, Text, Outcome, ok, throw, invalid_argument,
  if◌then◌else◌,
}

-- The constants of `http::field` that the code names.
pub data Field : Type 0 where
  server content_type allow authorization set_cookie cache_control host connection keep_alive :
      Field
  proxy_authenticate proxy_authorization te trailer transfer_encoding upgrade : Field

pub data Verb : Type 0 where
  get trace : Verb
  other : Text → Verb

-- The status codes that the code names.
abbrev pub success : ℕ
success = 200

abbrev pub not_found : ℕ
not_found = 404

abbrev pub method_not_allowed : ℕ
method_not_allowed = 405

abbrev pub bad_gateway : ℕ
bad_gateway = 502

abbrev pub service_unavailable : ℕ
service_unavailable = 503

abbrev pub gateway_timeout : ℕ
gateway_timeout = 504

pub record HttpRequest (Fields : Type 0) : Type 0 where
  pub method : Verb
  pub target : Text
  pub version : ℕ
  pub fields : Fields
  pub body : Text

pub record HttpResponse (Fields : Type 0) : Type 0 where
  pub status : ℕ
  pub version : ℕ
  pub fields : Fields
  pub body : Text

-- A TRACE request that has a body.
abbrev pub trace_with : Verb → Text → Bool
trace_with trace (c ∷ body) = true
trace_with _ body = false

abbrev pub has_trace_body : {F : Type 0} → HttpRequest F → Bool
has_trace_body request = trace_with request.method request.body

-- `http::fields` and the members of a message that read or write it. Names are compared by
-- `same_name`, without regard to case in the library; `find` has the first field of a name.
-- `prepare_payload` of a request throws `std::invalid_argument` for a TRACE request that has a body,
-- and for no other; a request that is `{}` is none.
pub record Beast : Type 1 where
  pub Fields : Type 0
  pub empty : Fields
  pub name_of : Field → Text
  pub same_name : Text → Text → Bool
  pub entries : Fields → List (Text × Text)
  pub find : Text → Fields → Option Text
  pub set : Text → Text → Fields → Fields
  pub erase : Text → Fields → Fields
  pub keep_alive : ℕ → Fields → Bool
  pub set_keep_alive : ℕ → Bool → Fields → Fields
  pub need_eof : HttpResponse Fields → Bool
  pub default_request : HttpRequest Fields
  pub prepare_request : HttpRequest Fields → Outcome Fields
  pub prepare_response : HttpResponse Fields → Fields
  pub prepares :
      (request : HttpRequest Fields)
      → has_trace_body request ≡ false
      → (fields : Fields) × (prepare_request request ≡ ok fields)
  pub refuses :
      (request : HttpRequest Fields)
      → has_trace_body request ≡ true
      → prepare_request request ≡ throw invalid_argument
  pub default_has_none : has_trace_body default_request ≡ false

-- The entries without those of a name.
unfoldable pub without : (Text → Bool) → List (Text × Text) → List (Text × Text)
without gone [] = []
without gone ((n, v) ∷ es) = if gone n then without gone es else (n, v) ∷ without gone es

-- `fields::erase` removes every field of the name, and leaves the others in their order.
abbrev pub ErasesByName : Beast → Type 0
ErasesByName b =
    (name : Text) (f : b.Fields)
    → b.entries (b.erase name f) ≡ without (b.same_name name) (b.entries f)
